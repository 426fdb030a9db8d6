-- ===== src/LoadOrder/Ending.antt =====
-- The end of the recursion of `visit` in bywaf/registry/dependencies.py.
use bywaf.Prelude.{
  bind_assoc, ℕ, zero, suc, ◌≤◌, ◌<◌, true, false, not, if◌then◌else◌, Option, none, some, List, [],
  ◌∷◌, keep, length, ◌≡◌, ◌≢◌, ◌⊎◌, refl, ◌∙◌, arith, ap, Text, text_eq_refl, text_eq_iff, mem_text,
  sort_texts, without, Result, ok, err, ◌>>=◌, no_fuel, Error, Bool-cases, inl, inr,
}
use bywaf.Graph.Node.{PluginManifest, Manifests, manifest_of}
use bywaf.Graph.Check.{keys}
use bywaf.LoadOrder.{
  normalize_catalog_path, Entries, entry_of, Order, start_order, enter, has_manifest, visit_each,
  append_entry, visit_manifest, visit, fuel_of, append_known, visit_requested, visit_rest,
  topological_filesystem_entries,
}

-- The providers that are not being visited.
abbrev free : Manifests → List Text → ℕ
free manifests visiting = length (keep (λ k. not (mem_text k visiting)) (keys manifests))

free-le :
    (ks visiting : List Text) (p : Text)
    → length (keep (λ k. not (mem_text k (p ∷ visiting))) ks)
      ≤ length (keep (λ k. not (mem_text k visiting)) ks)
unfolding mem_text
free-le [] visiting p = omega arith
free-le (k ∷ ks) visiting p = ground (arith, free-le ks visiting p)

free-lt :
    (ks visiting : List Text) (p : Text)
    → mem_text p ks ≡ true
    → mem_text p visiting ≡ false
    → length (keep (λ k. not (mem_text k (p ∷ visiting))) ks)
      < length (keep (λ k. not (mem_text k visiting)) ks)
unfolding mem_text
free-lt [] visiting p m n = cc
free-lt (k ∷ ks) visiting p m n =
    ground
      (arith, m, n, free-lt ks visiting p, free-le ks visiting p, text_eq_iff p k, text_eq_iff k p)

free-le_all :
    (ks visiting : List Text) → length (keep (λ k. not (mem_text k visiting)) ks) ≤ length ks
free-le_all [] visiting = omega arith
free-le_all (k ∷ ks) visiting = ground (arith, free-le_all ks visiting)

mem-keys :
    (manifests : Manifests) (p : Text) (m : PluginManifest)
    → manifest_of manifests p ≡ some m
    → mem_text p (keys manifests) ≡ true
unfolding manifest_of mem_text
mem-keys [] p m h = cc
mem-keys ((q, n) ∷ rest) p m h =
    ground (arith, h, mem-keys rest p m, text_eq_iff p q, text_eq_iff q p)

without-absent : (p : Text) (l : List Text) → mem_text p l ≡ false → without p l ≡ l
unfolding without mem_text
without-absent p [] h = refl
without-absent p (k ∷ l) h = ground (arith, h, without-absent p l)

without-first : (p : Text) (l : List Text) → mem_text p l ≡ false → without p (p ∷ l) ≡ l
unfolding without
without-first p l h = ground (arith, text_eq_refl p, without-absent p l h)

-- A call that returns leaves `visiting` as it was, and one that raises has not run out of fuel.
data Ends (s : Order) : Result Order → Type 0 where
  kept : {t : Order} → t.visiting ≡ s.visiting → Ends s (ok t)
  stopped : {e : Error} → e ≢ no_fuel → Ends s (err e)

Ends-bind :
    (s : Order) (m : Result Order) (f : Order → Result Order)
    → Ends s m
    → ((t : Order) → t.visiting ≡ s.visiting → Ends s (f t))
    → Ends s (m >>= f)
Ends-bind s (ok t) f (kept h) k = k t h
Ends-bind s (err e) f (stopped h) k = stopped h

Ends-same : (s t : Order) (r : Result Order) → t.visiting ≡ s.visiting → Ends t r → Ends s r
Ends-same s t (ok u) e (kept h) = kept (h ∙ e)
Ends-same s t (err x) e (stopped h) = stopped h

normalize-no_fuel : (d : Text) (x : Error) → normalize_catalog_path d ≡ err x → x ≢ no_fuel
unfolding normalize_catalog_path
normalize-no_fuel d x h = ground (arith, h)

normalize-Ends :
    (s : Order) (d : Text) (f : Text → Result Order)
    → ((p : Text) → Ends s (f p))
    → Ends s (normalize_catalog_path d >>= f)
normalize-Ends s d f k = by_result (normalize_catalog_path d) refl
  where
    by_result :
        (r : Result Text) → normalize_catalog_path d ≡ r → Ends s (normalize_catalog_path d >>= f)
    by_result (ok p) e = rw e (k p)
    by_result (err x) e = rw e (stopped (normalize-no_fuel d x e))

module _ (manifests : Manifests) (entries : Entries) where
  visit_each-Ends :
      (f : Text → Order → Result Order) (ds : List Text) (s t : Order)
      → ((p : Text) (r : Order) → r.visiting ≡ s.visiting → Ends r (f p r))
      → t.visiting ≡ s.visiting
      → Ends s (visit_each manifests entries f ds t)
  unfolding visit_each
  visit_each-Ends f [] s t k e = kept e
  visit_each-Ends f (d ∷ ds) s t k e = normalize-Ends s d _ λ p.
      Ends-bind s (if has_manifest manifests p then f p t else ok t) _
        (one p (Bool-cases (has_manifest manifests p))) λ r er. visit_each-Ends f ds s r k er
    where
      one :
          (p : Text)
          → (has_manifest manifests p ≡ true) ⊎ (has_manifest manifests p ≡ false)
          → Ends s (if has_manifest manifests p then f p t else ok t)
      one p (inl present) = rw present (Ends-same s t (f p t) e (k p t e))
      one p (inr absent) = rw absent (kept e)

  append_entry-Ends :
      (s t : Order) (p : Text) (o : Option Text)
      → mem_text p s.visiting ≡ false
      → t.visiting ≡ p ∷ s.visiting
      → Ends s (append_entry manifests entries p o t)
  append_entry-Ends s t p none h e = stopped (cc)
  append_entry-Ends s t p (some entry) h e = kept (ap (without p) e ∙ without-first p s.visiting h)

  visit_manifest-Ends :
      (f : Text → Order → Result Order) (p : Text) (m : Option PluginManifest) (s : Order)
      → ((q : Text) (r : Order) → r.visiting ≡ p ∷ s.visiting → Ends r (f q r))
      → mem_text p s.visiting ≡ false
      → Ends s (visit_manifest manifests entries f p m s)
  unfolding visit_manifest
  visit_manifest-Ends f p none s k h = stopped (cc)
  visit_manifest-Ends f p (some m) s k h =
      after (visit_each manifests entries f m.requires_plugins (enter p s))
        (visit_each-Ends f m.requires_plugins (enter p s) (enter p s) k refl)
    where
      after :
          (r : Result Order)
          → Ends (enter p s) r
          → Ends s (r >>= λ t. append_entry manifests entries p (entry_of entries p) t)
      after (ok t) (kept e) = append_entry-Ends s t p (entry_of entries p) h e
      after (err x) (stopped e) = stopped e

  visit_manifest-none :
      (f : Text → Order → Result Order) (p : Text) (s : Order)
      → Ends s (visit_manifest manifests entries f p none s)
  unfolding visit_manifest
  visit_manifest-none f p s = stopped (cc)

  visit-Ends :
      (fuel : ℕ) (p : Text) (s : Order)
      → free manifests s.visiting < fuel
      → Ends s (visit manifests entries fuel p s)
  unfolding visit
  visit-Ends zero p s h = absurd (omega arith)
  visit-Ends (suc fuel) p s h = elim (Bool-cases (mem_text p s.visited)) [
    | inl done ↦ rw done (kept refl)
    | inr new ↦ elim (Bool-cases (mem_text p s.visiting)) [
      | inl cycle ↦ rw (new, cycle) (stopped (cc))
      | inr outside ↦
          rw (new, outside) (by_manifest (manifest_of manifests p) refl outside (visit-Ends fuel))
    ]
  ]
    where
      by_manifest :
          (m : Option PluginManifest)
          → manifest_of manifests p ≡ m
          → mem_text p s.visiting ≡ false
          → ((q : Text) (r : Order)
              → free manifests r.visiting < fuel
              → Ends r (visit manifests entries fuel q r))
          → Ends s (
              visit_manifest manifests entries
                (visit manifests entries fuel)
                p
                (manifest_of manifests p)
                s)
      by_manifest none e o k = rw e (visit_manifest-none (visit manifests entries fuel) p s)
      by_manifest (some m) e o k =
          visit_manifest-Ends (visit manifests entries fuel) p (manifest_of manifests p) s
            (λ q r er. k q r (
              rw er (
                omega (arith, free-lt (keys manifests) s.visiting p (mem-keys manifests p m e) o))))
            o

  visit-Ends_all :
      (p : Text) (s : Order) → Ends s (visit manifests entries (fuel_of manifests entries) p s)
  visit-Ends_all p s =
      visit-Ends (fuel_of manifests entries) p s
        (omega (arith, free-le_all (keys manifests) s.visiting))

  append_known-visiting :
      (o : Option Text) (s : Order) → (append_known manifests entries o s).visiting ≡ s.visiting
  append_known-visiting none s = refl
  append_known-visiting (some e) s = refl

  visit_requested-Ends :
      (requested : List Text) (s : Order) → Ends s (visit_requested manifests entries requested s)
  unfolding visit_requested
  visit_requested-Ends [] s = kept refl
  visit_requested-Ends (entry ∷ rest) s = normalize-Ends s entry _ λ p.
      Ends-bind s
        (if has_manifest manifests p
          then visit manifests entries (fuel_of manifests entries) p s
          else ok (append_known manifests entries (entry_of entries p) s))
        _ (one p (Bool-cases (has_manifest manifests p)))
        λ t et. Ends-same s t _ et (visit_requested-Ends rest t)
    where
      one :
          (p : Text)
          → (has_manifest manifests p ≡ true) ⊎ (has_manifest manifests p ≡ false)
          → Ends s (
              if has_manifest manifests p
              then visit manifests entries (fuel_of manifests entries) p s
              else ok (append_known manifests entries (entry_of entries p) s))
      one p (inl present) = rw present (visit-Ends_all p s)
      one p (inr absent) = rw absent (kept (append_known-visiting (entry_of entries p) s))

  visit_rest-Ends : (ps : List Text) (s : Order) → Ends s (visit_rest manifests entries ps s)
  unfolding visit_rest
  visit_rest-Ends [] s = kept refl
  visit_rest-Ends (p ∷ ps) s =
      Ends-bind s (visit manifests entries (fuel_of manifests entries) p s) _ (visit-Ends_all p s)
        λ t et. Ends-same s t _ et (visit_rest-Ends ps t)

Ends-ordered : (s : Order) (r : Result Order) → Ends s r → (r >>= λ t. ok t.ordered) ≢ err no_fuel
Ends-ordered s (ok t) (kept e) h = cc
Ends-ordered s (err x) (stopped e) h = e (cc)

-- Ordering the plugins always ends: with an order, or with an exception of the source, such as that
-- of a cycle of requirements.
pub topological_filesystem_entries-ne-no_fuel :
    (manifests : Manifests) (entries : Entries) (requested : List Text)
    → topological_filesystem_entries manifests entries requested ≢ err no_fuel
unfolding topological_filesystem_entries
topological_filesystem_entries-ne-no_fuel manifests entries requested =
    rw
      (← bind_assoc (visit_requested manifests entries requested start_order)
        (visit_rest manifests entries (sort_texts (keys manifests))) (λ t. ok t.ordered))
      (Ends-ordered start_order _ (
        Ends-bind start_order _ _ (visit_requested-Ends manifests entries requested start_order)
          λ t et.
            Ends-same start_order t _ et
              (visit_rest-Ends manifests entries (sort_texts (keys manifests)) t)))
