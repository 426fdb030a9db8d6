-- ===== src/LoadOrder/Closed.antt =====
-- What fs_manifest_dep_closure of bywaf/registry/dependencies.py returns.
use bywaf.Prelude.{
  ℕ, zero, suc, Bool, true, ◌&&◌, Option, none, some, List, [], ◌∷◌, ◌++◌, all, ◌≡◌, refl, sym, ◌∙◌,
  ap, subst, arith, Text, text_eq, text_eq_iff, text_eq_refl, mem_text, ok, is_ok, >>=-eq-ok,
  Bool-cases, inl, inr,
}
use bywaf.VarStore.{set_value}
use bywaf.Graph.{ManifestRelationshipGraph, build_manifest_graph}
use bywaf.Graph.Node.{PluginManifest, Manifests, manifest_of}
use bywaf.Graph.Check.{keys, validate_manifest_dependencies}
use bywaf.Graph.Dependencies.{is_satisfied, validate_manifest_dependencies_lem}
use bywaf.LoadOrder.{
  normalize_catalog_path, Entries, entry_of, has_manifest, topological_filesystem_entries,
}
use bywaf.LoadOrder.Visiting.{IsIdentity, IsLoadOrder}
use bywaf.LoadOrder.Sorted.{topological_filesystem_entries-IsLoadOrder}
use bywaf.LoadOrder.Closure.{
  Files, filesystem_manifest, Closure, normalize_all, enqueue, add_provider, turn, close, merged,
  start_closure, closure_fuel, ordered_closure, fs_manifest_dep_closure,
}

-- Each provider is recorded under its own name.
abbrev all_same : Entries → Bool
all_same [] = true
all_same ((p, entry) ∷ rest) = text_eq p entry && all_same rest

all_same-set_value :
    (es : Entries) (p : Text) → all_same es ≡ true → all_same (set_value es p p) ≡ true
unfolding set_value
all_same-set_value [] p h = ground (arith, text_eq_refl p)
all_same-set_value ((k, v) ∷ rest) p h =
    ground (arith, h, all_same-set_value rest p, text_eq_iff k p, text_eq_refl p)

all_same-IsIdentity : (es : Entries) → all_same es ≡ true → IsIdentity es
unfolding entry_of
all_same-IsIdentity [] h provider entry e = cc
all_same-IsIdentity ((k, v) ∷ rest) h provider entry e = ground (
  arith,
  h,
  e,
  all_same-IsIdentity rest (ground (arith, h)) provider entry,
  text_eq_iff k provider,
  text_eq_iff k v,
)

module _ (files : Files) (base_graph : ManifestRelationshipGraph) where
  add_provider-all_same :
      (provider : Text) (queue : List Text) (file : Option (Option PluginManifest)) (s t : Closure)
      → add_provider files base_graph provider queue file s ≡ ok t
      → all_same s.provider_entries ≡ true
      → all_same t.provider_entries ≡ true
  unfolding add_provider
  add_provider-all_same provider queue none s t e h =
      ground (arith, e, all_same-set_value s.provider_entries provider h)
  add_provider-all_same provider queue (some none) s t e h = cc
  add_provider-all_same provider queue (some (some manifest)) s t e h =
      let (queued, normalized, k) = >>=-eq-ok (normalize_all queue) _ e in
      let (queue', added, k') =
        >>=-eq-ok
          (enqueue files base_graph (s.manifests ++ (provider, manifest) ∷ []) queued
            manifest.requires_plugins queue)
          _ k in
      ground (arith, k', all_same-set_value s.provider_entries provider h)

  turn-all_same :
      (entry : Text) (queue : List Text) (s t : Closure)
      → turn files base_graph entry queue s ≡ ok t
      → all_same s.provider_entries ≡ true
      → all_same t.provider_entries ≡ true
  unfolding turn
  turn-all_same entry queue s t e h =
      let (provider, normalized, k) = >>=-eq-ok (normalize_catalog_path entry) _ e in
      elim (Bool-cases (has_manifest s.manifests provider)) [
        | inl known ↦ ground (arith, k, known, h)
        | inr new ↦
            add_provider-all_same provider queue (filesystem_manifest files entry provider) s t
              (rw new at k) h
      ]

  close-all_same :
      (fuel : ℕ) (s t : Closure)
      → close files base_graph fuel s ≡ ok t
      → all_same s.provider_entries ≡ true
      → all_same t.provider_entries ≡ true
  unfolding close
  close-all_same zero s t e h = cc
  close-all_same (suc fuel) s t e h = by_queue s.queue refl (close-all_same fuel)
    where
      by_queue :
          (queue : List Text)
          → s.queue ≡ queue
          → ((u v : Closure)
              → close files base_graph fuel u ≡ ok v
              → all_same u.provider_entries ≡ true
              → all_same v.provider_entries ≡ true)
          → all_same t.provider_entries ≡ true
      by_queue [] q ih = ground (arith, rw (q, close) at e, h)
      by_queue (entry ∷ rest) q ih =
          let (u, turned, k) =
            >>=-eq-ok (turn files base_graph entry rest s) (close files base_graph fuel)
              (rw (q, close) at e) in
          ih u t k (turn-all_same entry rest s u turned h)

-- What the closure returns: the providers in an order in which each stands behind the plugins that it
-- requires and that have a local manifest, every provider that has one among them; and with the
-- bundled plugins these manifests satisfy all that each of them requires, plugins and schemas.
pub fs_manifest_dep_closure-IsLoadOrder :
    (is_builtin : Text → Bool) (base : Manifests) (files : Files) (entries ordered : List Text)
    (manifests : Manifests)
    → fs_manifest_dep_closure is_builtin base files entries ≡ ok (ordered, manifests)
    → IsLoadOrder manifests ordered
      × (all (λ provider. mem_text provider ordered) (keys manifests) ≡ true)
      × (all
            (λ p.
              is_satisfied is_builtin
                (build_manifest_graph (merged base manifests))
                p
                (manifest_of manifests p))
            (keys manifests)
          ≡ true)
unfolding fs_manifest_dep_closure ordered_closure
fs_manifest_dep_closure-IsLoadOrder is_builtin base files entries ordered manifests e =
    let (s, closed, k) =
      >>=-eq-ok
        (close files (build_manifest_graph base) (closure_fuel files entries)
          (start_closure entries))
        (ordered_closure is_builtin base entries) e in
    let graph = build_manifest_graph (merged base s.manifests) in
    let (valid, validated, k') =
      >>=-eq-ok
        (validate_manifest_dependencies is_builtin s.manifests (some graph)
          (some (keys s.manifests)))
        _ k in
    let (l, sorted, k'') =
      >>=-eq-ok (topological_filesystem_entries s.manifests s.provider_entries entries)
        (λ l. ok (l, s.manifests)) k' in
    let same_order : l ≡ ordered = ground (arith, k'') in
    let same : s.manifests ≡ manifests = ground (arith, k'') in
    let identity = all_same-IsIdentity s.provider_entries (
      close-all_same files (build_manifest_graph base) (closure_fuel files entries)
        (start_closure entries) s closed refl) in
    let (order, complete) =
      topological_filesystem_entries-IsLoadOrder s.manifests s.provider_entries entries l identity
        sorted in
    let satisfied =
      sym (
        validate_manifest_dependencies_lem is_builtin s.manifests (some graph)
          (some (keys s.manifests)))
      ∙ ap is_ok validated in
    subst
      (λ m.
        IsLoadOrder m ordered
        × (all (λ provider. mem_text provider ordered) (keys m) ≡ true)
        × (all
              (λ p.
                is_satisfied is_builtin (build_manifest_graph (merged base m)) p (manifest_of m p))
              (keys m)
            ≡ true))
      same
      (
        subst (IsLoadOrder s.manifests) same_order order,
        subst (λ o. all (λ provider. mem_text provider o) (keys s.manifests) ≡ true) same_order
            complete,
        satisfied,
      )
