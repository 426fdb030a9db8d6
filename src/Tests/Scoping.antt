-- ===== src/Tests/Scoping.antt =====
-- bywaf/varstore.py at concrete variables.
use bywaf.Prelude.{
  none, some, [], ◌∷◌, ◌≡◌, ◌≢◌, refl, codes, text_eq, text_eq_iff, contains_char, ok,
}
use bywaf.VarStore.{
  Values, VarStore, ScopedVarStore, find_value, set_value, get, set, update_prefixed, or_default,
  is_unqualified, scoped_key, get_local, set_local,
}
use bywaf.VarStore.Scopes.{
  prefixed, update_prefixed_lem, scoped_key-injective, get_local-set_local, get_local-set_local_ne,
}

abbrev session : VarStore
session = record { values = (codes "http/scan.timeout", codes "5") ∷ [] }

abbrev defaults : Values
defaults = (codes "timeout", codes "9") ∷ (codes "ports", codes "80") ∷ []

update_prefixed_lem_example :
    get (update_prefixed session (codes "http/scan") defaults) (codes "http/scan.ports")
    ≡ or_default
        (get session (codes "http/scan.ports"))
        (find_value (prefixed (codes "http/scan") defaults) (codes "http/scan.ports"))
update_prefixed_lem_example =
    update_prefixed_lem session (codes "http/scan") defaults (codes "http/scan.ports")

scoped_timeout : scoped_key (codes "scan") (codes "timeout") ≡ ok (codes "scan.timeout")
unfolding scoped_key is_unqualified contains_char
scoped_timeout = refl

scoped_key-injective_example : (codes "scan" ≡ codes "scan") × (codes "timeout" ≡ codes "timeout")
scoped_key-injective_example =
    scoped_key-injective (codes "scan") (codes "scan") (codes "timeout") (codes "timeout")
      (codes "scan.timeout") scoped_timeout scoped_timeout

abbrev scan_view : ScopedVarStore
scan_view = record {
  store = session;
  scope = codes "scan";
  provider_scope = codes "scan";
  provider_variables = [];
  run_values = (codes "scan.depth", codes "3") ∷ [];
}

abbrev probe_view : ScopedVarStore
probe_view = record scan_view { scope = codes "probe" }

abbrev after_set : ScopedVarStore
after_set = record scan_view {
  store = record {
    values = (codes "http/scan.timeout", codes "5") ∷ (codes "scan.timeout", codes "7") ∷ [];
  };
}

set_timeout : set_local scan_view (codes "timeout") (codes "7") ≡ ok after_set
unfolding set_local scoped_key is_unqualified contains_char set set_value text_eq
set_timeout = refl

get_local-set_local_example : get_local after_set (codes "timeout") none ≡ ok (some (codes "7"))
unfolding scoped_key is_unqualified contains_char find_value text_eq
get_local-set_local_example =
    get_local-set_local scan_view after_set (codes "timeout") (codes "7") (codes "scan.timeout")
      none refl refl set_timeout

probe-ne-scan : codes "probe" ≢ codes "scan"
unfolding text_eq
probe-ne-scan e = cc ((text_eq_iff (codes "probe") (codes "scan")).1 e)

get_local-set_local_ne_example :
    get_local (record probe_view { store = after_set.store }) (codes "timeout") none
    ≡ get_local (record probe_view { store = scan_view.store }) (codes "timeout") none
get_local-set_local_ne_example =
    get_local-set_local_ne scan_view after_set probe_view (codes "timeout") (codes "7")
      (codes "timeout") none probe-ne-scan set_timeout
