-- ===== src/Tests/Serials.antt =====
-- Serials of bywaf/db/support.py at concrete numbers and texts.
use bywaf.Prelude.{◌+◌, ◌*◌, arith, List, [], ◌∷◌, ◌≡◌, refl, Text, codes}
use bywaf.Serial.{WideUpper, resolve_serial_match}
use bywaf.Serial.Encoding.{crockford_base32-injective}
use bywaf.Serial.Lookup.{Resolves, resolve_serial_match_lem}

crockford_base32-injective_example : 31 * 32 + 5 ≡ 997
crockford_base32-injective_example =
    crockford_base32-injective 3 (31 * 32 + 5) 997 (omega arith) (omega arith) refl

abbrev as_is : WideUpper
as_is c = c ∷ []

abbrev stored : List Text
stored = codes "job-01ABC" ∷ codes "job-01ABD" ∷ []

resolve_serial_match_lem_example :
    Resolves as_is (codes "o1abc") stored (resolve_serial_match as_is (codes "o1abc") stored)
resolve_serial_match_lem_example = resolve_serial_match_lem as_is (codes "o1abc") stored
