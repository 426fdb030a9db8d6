-- ===== src/LoadOrder/Closing.antt =====
-- The loop of fs_manifest_dep_closure in bywaf/registry/dependencies.py ends.
use bywaf.Prelude.{
  ℕ, zero, suc, ◌+◌, ◌≤◌, ◌<◌, Bool, false, ◌||◌, if◌then◌else◌, Option, none, some, List, [], ◌∷◌,
  ◌++◌, length, length-append, ◌≡◌, ◌≢◌, refl, sym, ◌∙◌, ap, subst, arith, Text, text_eq,
  text_eq_iff, Result, ok, err, ◌>>=◌, >>=-eq-ok, no_fuel, Bool-cases, Option-cases, inl, inr,
}
use bywaf.Graph.{ManifestRelationshipGraph, build_manifest_graph}
use bywaf.Graph.Node.{PluginManifest, Manifests, manifest_of}
use bywaf.Graph.Check.{replace, keys, validate_manifest_dependencies}
use bywaf.LoadOrder.{normalize_catalog_path, has_manifest, topological_filesystem_entries}
use bywaf.LoadOrder.Ending.{topological_filesystem_entries-ne-no_fuel}
use bywaf.LoadOrder.Closure.{
  Files, file_of, filesystem_manifest, Closure, normalize_all, is_wanted, enqueue, add_provider,
  turn, close, dependency_count, total_dependencies, closure_fuel, start_closure, merged,
  ordered_closure, fs_manifest_dep_closure,
}

bind-ne :
    {A B : Type 0} (m : Result A) (f : A → Result B)
    → m ≢ err no_fuel
    → ((x : A) → m ≡ ok x → f x ≢ err no_fuel)
    → (m >>= f) ≢ err no_fuel
bind-ne (ok x) f h k = k x refl
bind-ne (err e) f h k = λ p. h (ground (arith, p))

ok-injective : {A : Type 0} {x y : A} → ok x ≡ ok y → x ≡ y
ok-injective h = cc

normalize-ne : (path : Text) → normalize_catalog_path path ≢ err no_fuel
unfolding normalize_catalog_path
normalize-ne path h = ground (arith, h)

normalize-slashes :
    (path provider : Text)
    → normalize_catalog_path path ≡ ok provider
    → replace b'.' b'/' path ≡ provider
unfolding normalize_catalog_path
normalize-slashes path provider h = ground (arith, h)

replace_idem : (t : Text) → replace b'.' b'/' (replace b'.' b'/' t) ≡ replace b'.' b'/' t
unfolding replace
replace_idem [] = refl
replace_idem (c ∷ t) = ground (arith, replace_idem t)

has_manifest-append :
    (m : Manifests) (p q : Text) (x : PluginManifest)
    → has_manifest (m ++ (p, x) ∷ []) q ≡ (has_manifest m q || text_eq p q)
unfolding manifest_of
has_manifest-append [] p q x = ground arith
has_manifest-append ((k, y) ∷ m) p q x = ground (arith, has_manifest-append m p q x)

-- The dependencies of the files whose providers have not been read.
unfoldable pub pending : Files → Manifests → ℕ
pending [] m = 0
pending ((d, parsed) ∷ rest) m =
    (if has_manifest m (replace b'.' b'/' d) then 0 else dependency_count parsed) + pending rest m

pending-start : (files : Files) → pending files [] ≡ total_dependencies files
unfolding pending total_dependencies manifest_of
pending-start [] = refl
pending-start ((d, parsed) ∷ rest) = ap (λ n. dependency_count parsed + n) (pending-start rest)

pending-append :
    (files : Files) (m : Manifests) (p : Text) (x : PluginManifest)
    → pending files (m ++ (p, x) ∷ []) ≤ pending files m
unfolding pending
pending-append [] m p x = omega arith
pending-append ((d, parsed) ∷ rest) m p x =
    ground (arith, pending-append rest m p x, has_manifest-append m p (replace b'.' b'/' d) x)

pending-read :
    (files : Files) (m : Manifests) (d p : Text) (parsed : Option PluginManifest)
    (x : PluginManifest)
    → file_of files d ≡ some parsed
    → replace b'.' b'/' d ≡ p
    → has_manifest m p ≡ false
    → pending files (m ++ (p, x) ∷ []) + dependency_count parsed ≤ pending files m
unfolding pending file_of
pending-read [] m d p parsed x f e new = cc
pending-read ((k, r) ∷ rest) m d p parsed x f e new = elim (Bool-cases (text_eq k d)) [
  | inl here ↦
      let same : k ≡ d = (text_eq_iff k d).0 here in
      let slashes : replace b'.' b'/' k ≡ p = ap (replace b'.' b'/') same ∙ e in
      let found : r ≡ parsed = ground (arith, f, here) in
      rw (slashes, new, found)
        (ground (arith, pending-append rest m p x, has_manifest-append m p p x, text_eq_iff p p))
  | inr elsewhere ↦ ground (
    arith,
    pending-read rest m d p parsed x (ground (arith, f, elsewhere)) e new,
    has_manifest-append m p (replace b'.' b'/' k) x,
  )
]

normalize_all-ne : (queue : List Text) → normalize_all queue ≢ err no_fuel
unfolding normalize_all
normalize_all-ne [] = λ h. ground (arith, h)
normalize_all-ne (item ∷ rest) =
    bind-ne (normalize_catalog_path item) _ (normalize-ne item) λ p e.
      bind-ne (normalize_all rest) _ (normalize_all-ne rest) λ later e'. λ h. ground (arith, h)

module _ (files : Files) (base_graph : ManifestRelationshipGraph) where
  enqueue-ne :
      (m : Manifests) (queued ds queue : List Text)
      → enqueue files base_graph m queued ds queue ≢ err no_fuel
  unfolding enqueue
  enqueue-ne m queued [] queue = λ h. ground (arith, h)
  enqueue-ne m queued (d ∷ ds) queue = bind-ne (normalize_catalog_path d) _ (normalize-ne d) λ p e.
      enqueue-ne m queued ds
        (if is_wanted files base_graph m queued p then queue ++ p ∷ [] else queue)

  length-wanted :
      (b : Bool) (queue : List Text) (p : Text)
      → length (if b then queue ++ p ∷ [] else queue) ≤ suc (length queue)
  length-wanted b queue p = ground (arith, length-append queue (p ∷ []))

  enqueue-length :
      (m : Manifests) (queued ds queue queue' : List Text)
      → enqueue files base_graph m queued ds queue ≡ ok queue'
      → length queue' ≤ length queue + length ds
  unfolding enqueue
  enqueue-length m queued [] queue queue' h =
      let same : queue ≡ queue' = ground (arith, h) in
      subst (λ q. length q ≤ length queue + 0) same (omega arith)
  enqueue-length m queued (d ∷ ds) queue queue' h =
      let (p, normalized, k) = >>=-eq-ok (normalize_catalog_path d) _ h in
      let longer = (if is_wanted files base_graph m queued p then queue ++ p ∷ [] else queue) in
      let one = length-wanted (is_wanted files base_graph m queued p) queue p in
      let later = enqueue-length m queued ds longer queue' k in omega (arith, one, later)

  -- What the loop has before it: its queue, and the dependencies it may add.
  abbrev work : Closure → ℕ
  work s = length s.queue + pending files s.manifests

  add_provider-ne :
      (p : Text) (queue : List Text) (file : Option (Option PluginManifest)) (s : Closure)
      → add_provider files base_graph p queue file s ≢ err no_fuel
  unfolding add_provider
  add_provider-ne p queue none s = λ h. ground (arith, h)
  add_provider-ne p queue (some none) s = λ h. ground (arith, h)
  add_provider-ne p queue (some (some manifest)) s =
      bind-ne (normalize_all queue) _ (normalize_all-ne queue) λ queued e.
        bind-ne _ _
          (enqueue-ne (s.manifests ++ (p, manifest) ∷ []) queued manifest.requires_plugins queue)
          λ queue' e'. λ h. ground (arith, h)

  add_provider-work :
      (p : Text) (queue : List Text) (file : Option (Option PluginManifest)) (s t : Closure)
      → ((parsed : Option PluginManifest) (x : PluginManifest)
          → file ≡ some parsed
          → pending files (s.manifests ++ (p, x) ∷ []) + dependency_count parsed
            ≤ pending files s.manifests)
      → add_provider files base_graph p queue file s ≡ ok t
      → work t ≤ length queue + pending files s.manifests
  unfolding add_provider
  add_provider-work p queue none s t less h =
      subst (λ r. work r ≤ length queue + pending files s.manifests) (ok-injective h) (omega arith)
  add_provider-work p queue (some none) s t less h = cc
  add_provider-work p queue (some (some manifest)) s t less h =
      let m = s.manifests ++ (p, manifest) ∷ [] in
      let (queued, normalized, k) = >>=-eq-ok (normalize_all queue) _ h in
      let (queue', added, k') =
        >>=-eq-ok (enqueue files base_graph m queued manifest.requires_plugins queue) _ k in
      let longer = enqueue-length m queued manifest.requires_plugins queue queue' added in
      let fewer = less (some manifest) manifest refl in
      subst (λ r. work r ≤ length queue + pending files s.manifests) (ok-injective k')
        (omega (arith, longer, fewer))

  filesystem_manifest-read :
      (entry p : Text) (m : Manifests) (parsed : Option PluginManifest) (x : PluginManifest)
      → replace b'.' b'/' entry ≡ p
      → has_manifest m p ≡ false
      → filesystem_manifest files entry p ≡ some parsed
      → pending files (m ++ (p, x) ∷ []) + dependency_count parsed ≤ pending files m
  unfolding filesystem_manifest
  filesystem_manifest-read entry p m parsed x e new f = elim (Option-cases (file_of files p)) [
    | inl no_file ↦ pending-read files m entry p parsed x (ground (arith, f, no_file)) e new
    | inr (r, file) ↦
        pending-read files m p p parsed x (ground (arith, f, file))
          (ap (replace b'.' b'/') (sym e) ∙ replace_idem entry ∙ e) new
  ]

  turn-ne :
      (entry : Text) (queue : List Text) (s : Closure)
      → turn files base_graph entry queue s ≢ err no_fuel
  unfolding turn
  turn-ne entry queue s = bind-ne (normalize_catalog_path entry) _ (normalize-ne entry) λ p e.
      elim (Bool-cases (has_manifest s.manifests p)) [
        | inl known ↦ rw known (λ h. ground (arith, h))
        | inr new ↦ rw new (add_provider-ne p queue (filesystem_manifest files entry p) s)
      ]

  turn-work :
      (entry : Text) (queue : List Text) (s t : Closure)
      → turn files base_graph entry queue s ≡ ok t
      → work t ≤ length queue + pending files s.manifests
  unfolding turn
  turn-work entry queue s t h =
      let (p, normalized, k) = >>=-eq-ok (normalize_catalog_path entry) _ h in
      elim (Bool-cases (has_manifest s.manifests p)) [
        | inl known ↦
            subst (λ r. work r ≤ length queue + pending files s.manifests)
              (ok-injective (rw known at k)) (omega arith)
        | inr new ↦
            add_provider-work p queue (filesystem_manifest files entry p) s t
              (λ parsed x f.
                filesystem_manifest-read entry p s.manifests parsed x
                  (normalize-slashes entry p normalized) new f)
              (rw new at k)
      ]

  close-ne : (fuel : ℕ) (s : Closure) → work s < fuel → close files base_graph fuel s ≢ err no_fuel
  unfolding close
  close-ne zero s less = absurd (omega (arith, less))
  close-ne (suc fuel) s less = by_queue s.queue refl (close-ne fuel)
    where
      by_queue :
          (queue : List Text)
          → s.queue ≡ queue
          → ((t : Closure) → work t < fuel → close files base_graph fuel t ≢ err no_fuel)
          → close files base_graph (suc fuel) s ≢ err no_fuel
      by_queue [] q ih = λ h. ground (arith, rw (q, close) at h)
      by_queue (entry ∷ rest) q ih = λ h.
          bind-ne (turn files base_graph entry rest s) (close files base_graph fuel)
            (turn-ne entry rest s)
            (λ t turned.
              let fewer = turn-work entry rest s t turned in
              let size : length s.queue ≡ suc (length rest) = ap length q in
              ih t (omega (arith, fewer, size, less)))
            (rw (q, close) at h)

-- The closure ends: the fuel, one more than the number of the entries and of the dependencies in all
-- manifests under the plugin root, is enough.
pub fs_manifest_dep_closure-ne-no_fuel :
    (is_builtin : Text → Bool) (base : Manifests) (files : Files) (entries : List Text)
    → fs_manifest_dep_closure is_builtin base files entries ≢ err no_fuel
unfolding fs_manifest_dep_closure ordered_closure validate_manifest_dependencies
fs_manifest_dep_closure-ne-no_fuel is_builtin base files entries =
    bind-ne (close files graph (closure_fuel files entries) (start_closure entries))
      (ordered_closure is_builtin base entries)
      (close-ne files graph (closure_fuel files entries) (start_closure entries)
        (omega (arith, pending-start files)))
      λ s closed.
        bind-ne
          (validate_manifest_dependencies is_builtin s.manifests
            (some (build_manifest_graph (merged base s.manifests))) (some (keys s.manifests)))
          _ (λ h. ground (arith, h))
          λ valid e.
            bind-ne (topological_filesystem_entries s.manifests s.provider_entries entries) _
              (topological_filesystem_entries-ne-no_fuel s.manifests s.provider_entries entries)
              λ ordered e'. λ h. ground (arith, h)
  where
    graph : ManifestRelationshipGraph
    graph = build_manifest_graph base
