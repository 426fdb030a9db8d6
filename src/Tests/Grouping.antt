-- ===== src/Tests/Grouping.antt =====
-- bywaf/finding/grouping.py at concrete findings.
use bywaf.Prelude.{
  ℕ, [], ◌∷◌, ◌≡◌, refl, Text, codes, text_eq, mem_text, starts_with, strip, lstrip, rstrip,
  is_space, split_on,
}
use bywaf.EventFilter.Payload.{Json, string, object, Fields, no_fields, field, field_of}
use bywaf.Finding.{
  is_finding_class, first_string, web_origin_scope_value, target_scope_value,
  normalized_target_scope, first_identifier, primary_identifier, class_of, finding_group_key,
}
use bywaf.Finding.Origin.{finding_group_key-same_origin}

group_defs : Unit {0}
unfolding text_eq mem_text starts_with strip lstrip rstrip is_space split_on field_of
    is_finding_class first_string web_origin_scope_value target_scope_value normalized_target_scope
    first_identifier primary_identifier class_of finding_group_key
group_defs = tt

abbrev page : Text → Fields
page path =
    field (codes "host") (string (codes "shop.test")) (field (codes "path") (string path) no_fields)

abbrev missing_header : Text → Fields
missing_header path = field (codes "class") (string (codes "web.header.missing_hsts")) (
    field (codes "finding_scope") (string (codes "web_origin"))
      (field (codes "target") (object (page path)) no_fields))

abbrev unshown : Json → Text
unshown v = []

abbrev as_is : ℕ → Text
as_is c = c ∷ []

-- The key has the class, the origin and no identifier.
origin_key :
    finding_group_key unshown as_is (missing_header (codes "/cart")) []
    ≡ codes "web.header.missing_hsts|web_origin:https://shop.test|class"
unfolding group_defs
origin_key = refl

finding_group_key-same_origin_example :
    finding_group_key unshown as_is (missing_header (codes "/cart")) []
    ≡ finding_group_key unshown as_is (missing_header (codes "/login")) []
unfolding group_defs
finding_group_key-same_origin_example =
    finding_group_key-same_origin unshown as_is (missing_header (codes "/cart"))
      (missing_header (codes "/login")) (page (codes "/cart")) (page (codes "/login")) [] refl refl
      refl (refl, (refl, (refl, (refl, (refl, (refl, (refl, tt)))))))
      (refl, (refl, (refl, (refl, tt))))
