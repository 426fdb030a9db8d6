-- ===== src/Graph/Index.antt =====
-- tuple_map of bywaf/registry/graph/model.py: the index of one kind of edge, and the sorting of edges.
use bywaf.Prelude.{
  Bool, true, ◌&&◌, ◌||◌, if◌then◌else◌, List, [], ◌∷◌, ◌++◌, any, ◌≡◌, refl, arith, Text, text_eq,
  text_eq_iff, text_le, mem_text, mem_text-append, mem_text-sort_texts, sort_texts,
}
use bywaf.Graph.{
  ManifestRelationship, insert_edge, sort_edges, Index, lookup, append_source, collect_sources,
  insert_item, sort_items, tuple_map,
}

text_le_refl : (t : Text) → text_le t t ≡ true
unfolding text_le
text_le_refl [] = refl
text_le_refl (c ∷ t) = ground (arith, text_le_refl t)

-- Sorting the edges keeps them.
any-insert_edge :
    (p : ManifestRelationship → Bool) (edge : ManifestRelationship) (l : List ManifestRelationship)
    → any p (insert_edge edge l) ≡ (p edge || any p l)
unfolding insert_edge
any-insert_edge p edge [] = refl
any-insert_edge p edge (e ∷ l) = ground (arith, any-insert_edge p edge l)

pub any-sort_edges :
    (p : ManifestRelationship → Bool) (l : List ManifestRelationship)
    → any p (sort_edges l) ≡ any p l
unfolding sort_edges
any-sort_edges p [] = refl
any-sort_edges p (edge ∷ l) =
    ground (arith, any-insert_edge p edge (sort_edges l), any-sort_edges p l)

lookup-append_source :
    (m : Index) (target source key : Text)
    → lookup (append_source m target source) key
      ≡ (if text_eq target key then lookup m key ++ source ∷ [] else lookup m key)
unfolding lookup append_source
lookup-append_source [] target source key = ground arith
lookup-append_source ((k, values) ∷ m) target source key = ground (
  arith,
  lookup-append_source m target source key,
  text_eq_iff k target,
  text_eq_iff target key,
  text_eq_iff k key,
)

lookup-insert_item :
    (k : Text) (values : List Text) (m : Index) (key : Text)
    → lookup (insert_item k values m) key ≡ (if text_eq k key then values else lookup m key)
unfolding lookup insert_item
lookup-insert_item k values [] key = refl
lookup-insert_item k values ((j, v) ∷ m) key = ground (
  arith,
  lookup-insert_item k values m key,
  text_eq_iff k key,
  text_eq_iff j key,
  text_le_refl key,
)

lookup-sort_items : (m : Index) (key : Text) → lookup (sort_items m) key ≡ sort_texts (lookup m key)
unfolding lookup sort_items sort_texts
lookup-sort_items [] key = refl
lookup-sort_items ((k, values) ∷ m) key =
    ground
      (arith, lookup-insert_item k (sort_texts values) (sort_items m) key, lookup-sort_items m key)

-- The edge has this kind, this target and this source.
abbrev pub is_edge : Text → Text → Text → ManifestRelationship → Bool
is_edge kind target source edge =
    text_eq edge.kind kind && text_eq edge.target target && text_eq source edge.source

mem_text-collect_sources :
    (kind target source : Text) (edges : List ManifestRelationship) (m : Index)
    → mem_text source (lookup (collect_sources kind edges m) target)
      ≡ (mem_text source (lookup m target) || any (is_edge kind target source) edges)
unfolding collect_sources mem_text
mem_text-collect_sources kind target source [] m = ground arith
mem_text-collect_sources kind target source (edge ∷ edges) m = ground (
  arith,
  mem_text-collect_sources kind target source edges m,
  mem_text-collect_sources kind target source edges (append_source m edge.target edge.source),
  lookup-append_source m edge.target edge.source target,
  mem_text-append source (lookup m target) (edge.source ∷ []),
)

-- A relation's index names a source for a target exactly when the relation has such an edge.
pub mem_text-tuple_map :
    (kind target source : Text) (edges : List ManifestRelationship)
    → mem_text source (lookup (tuple_map edges kind) target)
      ≡ any (is_edge kind target source) edges
unfolding tuple_map lookup mem_text
mem_text-tuple_map kind target source edges = ground (
  arith,
  lookup-sort_items (collect_sources kind edges []) target,
  mem_text-sort_texts source (lookup (collect_sources kind edges []) target),
  mem_text-collect_sources kind target source edges [],
)
