-- ===== src/LoadOrder/Sorted.antt =====
-- The order that topological_filesystem_entries of bywaf/registry/dependencies.py returns.
use bywaf.Prelude.{
  Bool, true, false, if◌then◌else◌, Option, none, some, is_some, List, [], ◌∷◌, all, ◌≡◌, refl,
  subst, arith, Text, text_eq_refl, text_eq_iff, mem_text, mem_text-sort_texts, sort_texts, ok,
  >>=-eq-ok, Ensures, returns, Ensures-bind, Ensures-ok, Ensures-imp, Bool-cases, inl, inr, ◌⊎◌,
}
use bywaf.Graph.Node.{PluginManifest, Manifests, manifest_of}
use bywaf.Graph.Check.{keys}
use bywaf.LoadOrder.{
  normalize_catalog_path, Entries, entry_of, Order, start_order, has_manifest, visit, fuel_of,
  append_known, visit_requested, visit_rest, topological_filesystem_entries,
}
use bywaf.LoadOrder.Visiting.{
  IsIdentity, all_loaded, IsLoadOrder, nothing, load, IsSorted, Visits, Visits-refl, Visits-trans,
  mem-grows, Visited, visit-Visited,
}

module _ (manifests : Manifests) (entries : Entries) (identity : IsIdentity entries) where
  append_known-IsSorted :
      (provider : Text) (entry : Option Text) (s : Order)
      → has_manifest manifests provider ≡ false
      → entry_of entries provider ≡ entry
      → (IsSorted manifests) s
      → (IsSorted manifests) (append_known manifests entries entry s)
  append_known-IsSorted provider none s absent e h = record { sorted = h.sorted; loaded = h.loaded }
  append_known-IsSorted provider (some entry) s absent e h =
      let same = identity provider entry e in
      record {
        sorted = rw same (
            load provider (without_manifest (manifest_of manifests provider) absent) h.sorted refl);
        loaded = λ q m. (mem-grows manifests) s.ordered entry q (h.loaded q m);
      }
    where
      without_manifest :
          (m : Option PluginManifest)
          → is_some m ≡ false
          → (all_loaded manifests) s.ordered m ≡ true
      without_manifest none a = refl
      without_manifest (some m) a = cc

  visit_requested-IsSorted :
      (requested : List Text) (s : Order)
      → (IsSorted manifests) s
      → Ensures (IsSorted manifests) (visit_requested manifests entries requested s)
  unfolding visit_requested
  visit_requested-IsSorted [] s h = returns h
  visit_requested-IsSorted (entry ∷ rest) s h =
      Ensures-bind (IsSorted manifests) (normalize_catalog_path entry) _ λ q e.
        Ensures-bind (IsSorted manifests)
          (if has_manifest manifests q
            then visit manifests entries (fuel_of manifests entries) q s
            else ok (append_known manifests entries (entry_of entries q) s))
          _
          λ t et.
            visit_requested-IsSorted rest t (
              Ensures-ok (IsSorted manifests) _ t (one q (Bool-cases (has_manifest manifests q)))
                et)
    where
      one :
          (q : Text)
          → (has_manifest manifests q ≡ true) ⊎ (has_manifest manifests q ≡ false)
          → Ensures (IsSorted manifests) (
              if has_manifest manifests q
              then visit manifests entries (fuel_of manifests entries) q s
              else ok (append_known manifests entries (entry_of entries q) s))
      one q (inl present) = rw present (
          Ensures-imp ((Visited manifests entries identity) s q) (IsSorted manifests) _
            (λ t v. v.0.inv)
            ((visit-Visited manifests entries identity) (fuel_of manifests entries) q s h))
      one q (inr absent) =
          rw absent (returns (append_known-IsSorted q (entry_of entries q) s absent refl h))

  abbrev Rest : Order → List Text → Order → Type 0
  Rest s ps t = (Visits manifests) s t × (all (λ p. mem_text p t.visited) ps ≡ true)

  visit_rest-Rest :
      (ps : List Text) (s : Order)
      → (IsSorted manifests) s
      → Ensures (Rest s ps) (visit_rest manifests entries ps s)
  unfolding visit_rest
  visit_rest-Rest [] s h = returns ((Visits-refl manifests) s h, refl)
  visit_rest-Rest (p ∷ ps) s h =
      Ensures-bind (Rest s (p ∷ ps)) (visit manifests entries (fuel_of manifests entries) p s) _
        λ t et.
          let v =
            Ensures-ok _ _ t
              ((visit-Visited manifests entries identity) (fuel_of manifests entries) p s h) et in
          Ensures-imp (Rest t ps) (Rest s (p ∷ ps)) (visit_rest manifests entries ps t)
            (λ r w. ((Visits-trans manifests) s t r v.0 w.0, rw (w.0.grows p v.1) w.1))
            (visit_rest-Rest ps t v.0.inv)

  start-IsSorted : (IsSorted manifests) start_order
  unfolding mem_text
  start-IsSorted = record { sorted = nothing; loaded = λ q h. h }

  all-mem :
      (q : Text) (ps visited : List Text)
      → all (λ p. mem_text p visited) ps ≡ true
      → mem_text q ps ≡ true
      → mem_text q visited ≡ true
  unfolding mem_text
  all-mem q [] visited h m = cc
  all-mem q (p ∷ ps) visited h m = ground (arith, h, m, all-mem q ps visited, text_eq_iff q p)

all-intro :
    (p : Text → Bool) (l : List Text)
    → ((q : Text) → mem_text q l ≡ true → p q ≡ true)
    → all p l ≡ true
unfolding mem_text
all-intro p [] h = refl
all-intro p (q ∷ l) h =
    rw (h q (ground (arith, text_eq_refl q))) (all-intro p l (λ k m. h k (ground (arith, m))))

-- The plugins are returned in an order in which each stands behind all the plugins that it requires
-- and that have a manifest, and every plugin that has a manifest is among them, whatever is
-- requested. (The entries are those that the caller records: each provider under its own name.)
pub topological_filesystem_entries-IsLoadOrder :
    (manifests : Manifests) (entries : Entries) (requested ordered : List Text)
    → IsIdentity entries
    → topological_filesystem_entries manifests entries requested ≡ ok ordered
    → IsLoadOrder manifests ordered
      × (all (λ provider. mem_text provider ordered) (keys manifests) ≡ true)
unfolding topological_filesystem_entries
topological_filesystem_entries-IsLoadOrder manifests entries requested ordered identity e =
    let (s, es, e') = >>=-eq-ok _ _ e in
    let (t, et, e'') = >>=-eq-ok _ _ e' in
    let hs =
      Ensures-ok _ _ s
        (visit_requested-IsSorted manifests entries identity requested start_order
          (start-IsSorted manifests entries identity))
        es in
    let (v, done) =
      Ensures-ok _ _ t
        (visit_rest-Rest manifests entries identity (sort_texts (keys manifests)) s hs) et in
    let same : t.ordered ≡ ordered = cc in
    (
      subst (IsLoadOrder manifests) same v.inv.sorted,
      all-intro (λ q. mem_text q ordered) (keys manifests)
          λ q m.
            subst (λ l. mem_text q l ≡ true) same
              (v.inv.loaded q (
                all-mem manifests entries identity q (sort_texts (keys manifests)) t.visited done
                  (rw mem_text-sort_texts m))),
    )
