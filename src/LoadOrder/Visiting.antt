-- ===== src/LoadOrder/Visiting.antt =====
-- What a call of `visit` in bywaf/registry/dependencies.py adds to the order.
use bywaf.Prelude.{
  ℕ, zero, suc, Bool, true, false, not, ◌||◌, if◌then◌else◌, Option, none, some, List, [], ◌∷◌,
  ◌++◌, all, ◌≡◌, refl, arith, Text, text_eq, text_eq_refl, mem_text, mem_text-append, Result, ok,
  err, Ensures, returns, raises, Ensures-bind, Ensures-ok, Ensures-imp, Bool-cases, inl, inr, ◌⊎◌,
  &&-true,
}
use bywaf.Graph.Node.{PluginManifest, Manifests, manifest_of}
use bywaf.LoadOrder.{
  normalize_catalog_path, Entries, entry_of, Order, enter, leave, has_manifest, visit_each,
  append_entry, visit_manifest, visit,
}

-- Every entry is loaded under its provider's own name, as fs_manifest_dep_closure records them.
abbrev pub IsIdentity : Entries → Type 0
IsIdentity entries =
    (provider entry : Text) → entry_of entries provider ≡ some entry → entry ≡ provider

module _ (manifests : Manifests) where
  -- A dependency that has a manifest stands among the plugins `before`.
  abbrev pub is_loaded : List Text → Text → Bool
  is_loaded before dependency = elim (normalize_catalog_path dependency) [
    | ok provider ↦ not (has_manifest manifests provider) || mem_text provider before
    | err e ↦ true
  ]

  abbrev pub all_loaded : List Text → Option PluginManifest → Bool
  all_loaded before none = true
  all_loaded before (some manifest) = all (is_loaded before) manifest.requires_plugins

  -- Each plugin of the list stands behind the plugins that it requires and that have a manifest.
  pub data IsLoadOrder : List Text → Type 0 where
    nothing : IsLoadOrder []
    load :
        {before loaded : List Text} (provider : Text)
        → all_loaded before (manifest_of manifests provider) ≡ true
        → IsLoadOrder before
        → loaded ≡ before ++ provider ∷ []
        → IsLoadOrder loaded

  pub record IsSorted (s : Order) : Type 0 where
    pub sorted : IsLoadOrder s.ordered
    pub loaded : (q : Text) → mem_text q s.visited ≡ true → mem_text q s.ordered ≡ true

  pub record Visits (s t : Order) : Type 0 where
    pub inv : IsSorted t
    pub grows : (q : Text) → mem_text q s.visited ≡ true → mem_text q t.visited ≡ true

  pub Visits-refl : (s : Order) → IsSorted s → Visits s s
  Visits-refl s h = record { inv = h; grows = λ q k. k }

  pub Visits-trans : (s t r : Order) → Visits s t → Visits t r → Visits s r
  Visits-trans s t r h k = record { inv = k.inv; grows = λ q m. k.grows q (h.grows q m) }

  is_loaded_mono :
      (xs ys : List Text) (dependency : Text)
      → ((q : Text) → mem_text q xs ≡ true → mem_text q ys ≡ true)
      → is_loaded xs dependency ≡ true
      → is_loaded ys dependency ≡ true
  is_loaded_mono xs ys dependency sub h = by_result (normalize_catalog_path dependency) refl
    where
      by_result :
          (r : Result Text) → normalize_catalog_path dependency ≡ r → is_loaded ys dependency ≡ true
      by_result (err e) p = rw (p, is_loaded)
      by_result (ok q) p = ground (arith, p, h, sub q)

  all-is_loaded_mono :
      (xs ys ds : List Text)
      → ((q : Text) → mem_text q xs ≡ true → mem_text q ys ≡ true)
      → all (is_loaded xs) ds ≡ true
      → all (is_loaded ys) ds ≡ true
  all-is_loaded_mono xs ys [] sub h = refl
  all-is_loaded_mono xs ys (d ∷ ds) sub h =
      let (first, others) = &&-true (is_loaded xs d) (all (is_loaded xs) ds) h in
      rw (is_loaded_mono xs ys d sub first) (all-is_loaded_mono xs ys ds sub others)

  pub mem-grows :
      (l : List Text) (p q : Text) → mem_text q l ≡ true → mem_text q (l ++ p ∷ []) ≡ true
  mem-grows l p q h = ground (arith, mem_text-append q l (p ∷ []), h)

  mem-last : (l : List Text) (p : Text) → mem_text p (l ++ p ∷ []) ≡ true
  unfolding mem_text
  mem-last l p = ground (arith, mem_text-append p l (p ∷ []), text_eq_refl p)

  mem-eq : (q p : Text) (l : List Text) → mem_text q (p ∷ l) ≡ (text_eq q p || mem_text q l)
  unfolding mem_text
  mem-eq q p l = refl

  module _ (entries : Entries) (identity : IsIdentity entries) where
    abbrev pub Visited : Order → Text → Order → Type 0
    Visited s provider t = Visits s t × (mem_text provider t.visited ≡ true)

    abbrev pub VisitsOne : (Text → Order → Result Order) → Type 0
    VisitsOne f = (p : Text) (s : Order) → IsSorted s → Ensures (Visited s p) (f p s)

    abbrev Each : Order → List Text → Order → Type 0
    Each s ds t = Visits s t × (all (is_loaded t.visited) ds ≡ true)

    visit_one-Each :
        (f : Text → Order → Result Order) (d q : Text) (s : Order)
        → VisitsOne f
        → IsSorted s
        → normalize_catalog_path d ≡ ok q
        → Ensures
            (λ t. Visits s t × (is_loaded t.visited d ≡ true))
            (if has_manifest manifests q then f q s else ok s)
    visit_one-Each f d q s one h e = elim (Bool-cases (has_manifest manifests q)) [
      | inr absent ↦ rw absent (returns (Visits-refl s h, ground (arith, e, absent)))
      | inl present ↦ rw present (
          Ensures-imp (Visited s q) (λ t. Visits s t × (is_loaded t.visited d ≡ true)) (f q s)
            (λ t v. (v.0, ground (arith, e, present, v.1))) (one q s h))
    ]

    visit_each-Each :
        (f : Text → Order → Result Order) (ds : List Text) (s : Order)
        → VisitsOne f
        → IsSorted s
        → Ensures (Each s ds) (visit_each manifests entries f ds s)
    unfolding visit_each
    visit_each-Each f [] s one h = returns (Visits-refl s h, refl)
    visit_each-Each f (d ∷ rest) s one h =
        Ensures-bind (Each s (d ∷ rest)) (normalize_catalog_path d) _ λ q e.
          Ensures-bind (Each s (d ∷ rest)) (if has_manifest manifests q then f q s else ok s) _
            λ t et.
              let v = Ensures-ok _ _ t (visit_one-Each f d q s one h e) et in
              Ensures-imp (Each t rest) (Each s (d ∷ rest)) (visit_each manifests entries f rest t)
                (λ r w. (
                  Visits-trans s t r v.0 w.0,
                  rw (is_loaded_mono t.visited r.visited d w.0.grows v.1) w.1,
                ))
                (visit_each-Each f rest t one v.0.inv)

    leave-IsSorted :
        (provider : Text) (manifest : PluginManifest) (t : Order)
        → manifest_of manifests provider ≡ some manifest
        → all (is_loaded t.visited) manifest.requires_plugins ≡ true
        → IsSorted t
        → IsSorted (leave provider provider t)
    leave-IsSorted provider manifest t found deps h = record {
      sorted =
          load provider
            (rw (found, all_loaded)
              (all-is_loaded_mono t.visited t.ordered manifest.requires_plugins h.loaded deps))
            h.sorted refl;
      loaded = λ q m. in_either q (Bool-cases (text_eq q provider)) m;
    }
      where
        in_either :
            (q : Text)
            → (text_eq q provider ≡ true) ⊎ (text_eq q provider ≡ false)
            → mem_text q (provider ∷ t.visited) ≡ true
            → mem_text q (t.ordered ++ provider ∷ []) ≡ true
        in_either q (inl same) m =
            ground (arith, mem_text-append q t.ordered (provider ∷ []), mem-eq q provider [], same)
        in_either q (inr other) m =
            mem-grows t.ordered provider q
              (h.loaded q (ground (arith, m, mem-eq q provider t.visited, other)))

    leave-Visited :
        (s : Order) (provider : Text) (manifest : PluginManifest) (t : Order)
        → manifest_of manifests provider ≡ some manifest
        → Each (enter provider s) manifest.requires_plugins t
        → Visited s provider (leave provider provider t)
    leave-Visited s provider manifest t found (v, deps) = (
      record {
        inv = leave-IsSorted provider manifest t found deps v.inv;
        grows = λ q m. ground (arith, v.grows q m, mem-eq q provider t.visited);
      },
      ground (arith, mem-eq provider provider t.visited, text_eq_refl provider),
    )

    append_entry-Visited :
        (s : Order) (provider : Text) (manifest : PluginManifest) (t : Order) (entry : Option Text)
        → manifest_of manifests provider ≡ some manifest
        → entry_of entries provider ≡ entry
        → Each (enter provider s) manifest.requires_plugins t
        → Ensures (Visited s provider) (append_entry manifests entries provider entry t)
    append_entry-Visited s provider manifest t none found e each = raises
    append_entry-Visited s provider manifest t (some entry) found e each =
        rw (identity provider entry e) (returns (leave-Visited s provider manifest t found each))

    visit_manifest-Visited :
        (f : Text → Order → Result Order) (provider : Text) (m : Option PluginManifest) (s : Order)
        → VisitsOne f
        → manifest_of manifests provider ≡ m
        → IsSorted s
        → Ensures (Visited s provider) (visit_manifest manifests entries f provider m s)
    unfolding visit_manifest
    visit_manifest-Visited f provider none s one e h = raises
    visit_manifest-Visited f provider (some manifest) s one e h =
        Ensures-bind (Visited s provider)
          (visit_each manifests entries f manifest.requires_plugins (enter provider s)) _
          λ t et. append_entry-Visited s provider manifest t (entry_of entries provider) e refl (
            Ensures-ok _ _ t
              (visit_each-Each f manifest.requires_plugins (enter provider s) one
                (record { sorted = h.sorted; loaded = h.loaded }))
              et)

    pub visit-Visited : (fuel : ℕ) → VisitsOne (visit manifests entries fuel)
    unfolding visit
    visit-Visited zero p s h = raises
    visit-Visited (suc fuel) p s h =
        let on =
          visit_manifest-Visited (visit manifests entries fuel) p (manifest_of manifests p) s
            (visit-Visited fuel) refl h in
        elim (Bool-cases (mem_text p s.visited)) [
          | inl done ↦ rw done (returns (Visits-refl s h, done))
          | inr new ↦ elim (Bool-cases (mem_text p s.visiting)) [
            | inl cycle ↦ rw (new, cycle) raises
            | inr free ↦ rw (new, free) on
          ]
        ]
