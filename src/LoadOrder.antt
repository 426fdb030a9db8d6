-- ===== src/LoadOrder.antt =====
-- The order in which filesystem plugins are loaded: topological_filesystem_entries of
-- bywaf/registry/dependencies.py.
pub mod Visiting
pub mod Sorted
pub mod Ending
pub mod Closure
pub mod Closed
pub mod Closing
use bywaf.Prelude.{
  ℕ, zero, suc, Bool, true, false, ◌&&◌, ◌||◌, if◌then◌else◌, Option, none, some, is_some, List, [],
  ◌∷◌, ◌++◌, any, is_empty, last?, length, Text, text_eq, codes, starts_with, mem_text, split_on,
  without, sort_texts, Result, ok, err, ◌>>=◌, no_fuel, invalid_catalog_path,
  requires_plugins_cycle, missing_key,
}
use bywaf.Capability.{ends_with}
use bywaf.Graph.Node.{PluginManifest, Manifests, manifest_of}
use bywaf.Graph.Check.{replace, keys}

-- part in {"", ".", ".."}
abbrev is_bad_part : Text → Bool
is_bad_part part = is_empty part || text_eq part (codes ".") || text_eq part (codes "..")

-- normalize_catalog_path of bywaf/registry/config.py
unfoldable pub normalize_catalog_path : Text → Result Text
normalize_catalog_path path =
    let normalized = replace b'.' b'/' path in
    if is_empty normalized
      || starts_with (codes "/") normalized
      || ends_with (codes "/") normalized
      || any is_bad_part (split_on b'/' normalized)
    then err (invalid_catalog_path path)
    else ok normalized

-- provider_entries: the entry under which a provider is loaded
abbrev pub Entries : Type 0
Entries = List (Text × Text)

unfoldable pub entry_of : Entries → Text → Option Text
entry_of [] provider = none
entry_of ((p, entry) ∷ rest) provider =
    if text_eq p provider then some entry else entry_of rest provider

-- The three variables that `visit` shares with the function around it.
pub record Order : Type 0 where
  pub ordered : List Text
  pub visited : List Text
  pub visiting : List Text

abbrev pub start_order : Order
start_order = record { ordered = []; visited = []; visiting = [] }

abbrev pub enter : Text → Order → Order
enter provider s = record s { visiting = provider ∷ s.visiting }

-- What `visit` does behind its loop.
abbrev pub leave : Text → Text → Order → Order
leave provider entry s = record {
  ordered = s.ordered ++ entry ∷ [];
  visited = provider ∷ s.visited;
  visiting = without provider s.visiting;
}

abbrev pub has_manifest : Manifests → Text → Bool
has_manifest manifests provider = is_some (manifest_of manifests provider)

module _ (manifests : Manifests) (entries : Entries) where
  -- The loop over a manifest's dependencies, given how one provider is visited.
  unfoldable pub visit_each : (Text → Order → Result Order) → List Text → Order → Result Order
  visit_each visit_one [] s = ok s
  visit_each visit_one (dependency ∷ rest) s = normalize_catalog_path dependency >>= λ provider.
      (if has_manifest manifests provider then visit_one provider s else ok s) >>= λ s'.
      visit_each visit_one rest s'

  abbrev pub append_entry : Text → Option Text → Order → Result Order
  append_entry provider none s = err (missing_key provider)
  append_entry provider (some entry) s = ok (leave provider entry s)

  -- A provider that is not visited and not being visited, with its manifest.
  unfoldable pub visit_manifest :
      (Text → Order → Result Order) → Text → Option PluginManifest → Order → Result Order
  visit_manifest visit_one provider none s = err (missing_key provider)
  visit_manifest visit_one provider (some manifest) s =
      visit_each visit_one manifest.requires_plugins (enter provider s) >>= λ s'.
      append_entry provider (entry_of entries provider) s'

  -- Each nested call has one more provider in `visiting`, so the calls nest no deeper than there
  -- are manifests.
  unfoldable pub visit : ℕ → Text → Order → Result Order
  visit zero provider s = err no_fuel
  visit (suc fuel) provider s =
      let on = visit_manifest (visit fuel) provider (manifest_of manifests provider) s in
      if mem_text provider s.visited
      then ok s
      else if mem_text provider s.visiting
      then err (requires_plugins_cycle provider)
      else on

  abbrev pub fuel_of : ℕ
  fuel_of = suc (length (keys manifests))

  -- An entry without a manifest is loaded where it stands.
  abbrev pub append_known : Option Text → Order → Order
  append_known none s = s
  append_known (some entry) s = record s { ordered = s.ordered ++ entry ∷ [] }

  -- The loop over the requested entries.
  unfoldable pub visit_requested : List Text → Order → Result Order
  visit_requested [] s = ok s
  visit_requested (entry ∷ rest) s = normalize_catalog_path entry >>= λ provider.
      (if has_manifest manifests provider
        then visit fuel_of provider s
        else ok (append_known (entry_of entries provider) s))
      >>= λ s'. visit_requested rest s'

  -- The loop over the manifests.
  unfoldable pub visit_rest : List Text → Order → Result Order
  visit_rest [] s = ok s
  visit_rest (provider ∷ rest) s = visit fuel_of provider s >>= λ s'. visit_rest rest s'

  unfoldable pub topological_filesystem_entries : List Text → Result (List Text)
  topological_filesystem_entries requested = visit_requested requested start_order >>= λ s.
      visit_rest (sort_texts (keys manifests)) s >>= λ s'. ok s'.ordered
