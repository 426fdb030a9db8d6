-- ===== src/Finding/Origin.antt =====
-- The group key of findings on one web origin, in bywaf/finding/grouping.py.
use bywaf.Prelude.{
  Option, none, some, List, [], ◌∷◌, ◌≡◌, refl, sym, ◌∙◌, ap, ap₂, Text, text_eq, codes,
}
use bywaf.Serial.{WideUpper}
use bywaf.EventFilter.Payload.{Json, object, Fields, field_of}
use bywaf.Finding.{
  TargetScope, mapping_of, string_value, first_string, web_origin_scope_value, target_scope_value,
  explicit_scope, derived_scope, normalized_target_scope, class_of, finding_group_key,
}

module _ (value_str : Json → Text) (wide : WideUpper) where
  -- The two dictionaries have the same values under the keys.
  abbrev pub Agree : List Text → Fields → Fields → Type 0
  Agree [] t u = Unit {0}
  Agree (key ∷ keys) t u = (field_of t key ≡ field_of u key) × Agree keys t u

  first_string-Agree :
      (keys : List Text) (t u : Fields) (default : Text)
      → Agree keys t u
      → first_string value_str wide t keys default ≡ first_string value_str wide u keys default
  unfolding first_string
  first_string-Agree [] t u default h = refl
  first_string-Agree (key ∷ keys) t u default h =
      rw (h.0, first_string-Agree keys t u default h.1) refl

  -- The keys of a target that its web origin is read from.
  abbrev pub origin_keys : List Text
  origin_keys = codes "scheme" ∷ codes "host" ∷ codes "hostname" ∷ codes "port" ∷ []

  web_origin-Agree :
      (t u : Fields)
      → Agree origin_keys t u
      → web_origin_scope_value value_str wide t ≡ web_origin_scope_value value_str wide u
  unfolding web_origin_scope_value
  web_origin-Agree t u (scheme, (host, (hostname, (port, _)))) = rw (
    first_string-Agree (codes "scheme" ∷ []) t u (codes "https") (scheme, tt),
    first_string-Agree (codes "host" ∷ codes "hostname" ∷ []) t u [] (host, (hostname, tt)),
    first_string-Agree (codes "port" ∷ []) t u [] (port, tt),
  )

  target_scope_value-web_origin :
      (t : Fields)
      → target_scope_value value_str wide (codes "web_origin") t
        ≡ web_origin_scope_value value_str wide t
  unfolding target_scope_value text_eq
  target_scope_value-web_origin t = refl

  -- The keys of a finding, other than its target, that its group key is read from.
  abbrev pub finding_keys : List Text
  finding_keys =
      codes "group_key"
      ∷ codes "finding_id"
      ∷ codes "target_scope"
      ∷ codes "finding_scope"
      ∷ codes "class"
      ∷ codes "finding_class"
      ∷ codes "identifiers"
      ∷ []

  derived_scope-Agree :
      (name : Text) (t u : Fields)
      → name ≡ codes "web_origin"
      → Agree origin_keys t u
      → derived_scope value_str wide name (some t) ≡ derived_scope value_str wide name (some u)
  derived_scope-Agree name t u e h =
      rw (
        e,
        target_scope_value-web_origin t,
        target_scope_value-web_origin u,
        web_origin-Agree t u h,
      )

  or_else : Option TargetScope → Option TargetScope → Option TargetScope
  or_else first second = elim first [ some scope ↦ some scope | none ↦ second ]

  normalized-Agree :
      (p q t u : Fields)
      → string_value value_str wide (field_of p (codes "finding_scope")) ≡ codes "web_origin"
      → field_of p (codes "target") ≡ some (object t)
      → field_of q (codes "target") ≡ some (object u)
      → field_of p (codes "target_scope") ≡ field_of q (codes "target_scope")
      → field_of p (codes "finding_scope") ≡ field_of q (codes "finding_scope")
      → Agree origin_keys t u
      → normalized_target_scope value_str wide p ≡ normalized_target_scope value_str wide q
  unfolding normalized_target_scope or_else
  normalized-Agree p q t u scope tp tq target_scope finding_scope agree =
      ap₂ or_else (ap (λ v. explicit_scope value_str wide (mapping_of v)) target_scope) (
        ap₂ (λ v w. derived_scope value_str wide (string_value value_str wide v) (mapping_of w))
          refl tp
        ∙ derived_scope-Agree (string_value value_str wide (field_of p (codes "finding_scope"))) t u
            scope agree
        ∙ ap₂ (λ v w. derived_scope value_str wide (string_value value_str wide v) (mapping_of w))
            finding_scope (sym tq))

  class_of-Agree :
      (p q : Fields)
      → field_of p (codes "class") ≡ field_of q (codes "class")
      → field_of p (codes "finding_class") ≡ field_of q (codes "finding_class")
      → class_of value_str wide p ≡ class_of value_str wide q
  unfolding class_of
  class_of-Agree p q class finding_class = rw (class, finding_class) refl

-- The group key of a finding on a web origin does not depend on the page: if the scope of two findings
-- is web_origin, they agree in all that the key is read from but the target, and their targets agree in
-- scheme, host, host name and port, their group keys are equal.
pub finding_group_key-same_origin :
    (value_str : Json → Text) (wide : WideUpper) (p q t u : Fields) (fallback : Text)
    → string_value value_str wide (field_of p (codes "finding_scope")) ≡ codes "web_origin"
    → field_of p (codes "target") ≡ some (object t)
    → field_of q (codes "target") ≡ some (object u)
    → Agree value_str wide (finding_keys value_str wide) p q
    → Agree value_str wide (origin_keys value_str wide) t u
    → finding_group_key value_str wide p fallback ≡ finding_group_key value_str wide q fallback
unfolding finding_group_key
finding_group_key-same_origin value_str wide p q t u fallback scope tp tq
      (
        group_key,
        (finding_id, (target_scope, (finding_scope, (class, (finding_class, (identifiers, _)))))),
      )
      agree =
    by_scope (normalized_target_scope value_str wide q)
      (normalized-Agree value_str wide p q t u scope tp tq target_scope finding_scope agree) refl
  where
    same_class : class_of value_str wide p ≡ class_of value_str wide q
    same_class = class_of-Agree value_str wide p q class finding_class

    by_scope :
        (o : Option TargetScope)
        → normalized_target_scope value_str wide p ≡ o
        → normalized_target_scope value_str wide q ≡ o
        → finding_group_key value_str wide p fallback ≡ finding_group_key value_str wide q fallback
    by_scope none e e' = rw (e, e', group_key, finding_id)
    by_scope (some s) e e' = rw (e, e', group_key, finding_id, same_class, identifiers)
