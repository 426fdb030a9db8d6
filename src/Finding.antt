-- ===== src/Finding.antt =====
-- The keys that group findings: bywaf/finding/grouping.py, with validate_finding_class of
-- bywaf/finding/taxonomy.py.
pub mod Origin
use bywaf.Prelude.{
  ℕ, Bool, true, false, not, ◌&&◌, ◌||◌, ◌==◌, leb, if◌then◌else◌, Option, none, some, List, [],
  ◌∷◌, ◌++◌, all, is_empty, Text, text_eq, codes, mem_text, starts_with, strip, split_on,
  sort_texts,
}
use bywaf.Serial.{WideUpper, upper}
use bywaf.EventFilter.Payload.{
  Json, null, string, scalar, array, object, Items, no_items, item, Fields, no_fields, field,
  field_of,
}

-- FINDING_CLASS_RE: tokens of lower-case letters, digits, `_` and `-`, joined by dots; the first
-- character of a token is a letter or a digit.
abbrev pub is_class_start : ℕ → Bool
is_class_start c = (leb b'a' c && leb c b'z') || (leb b'0' c && leb c b'9')

abbrev pub is_class_token : Text → Bool
is_class_token [] = false
is_class_token (c ∷ s) = is_class_start c && all (λ d. is_class_start d || d == b'_' || d == b'-') s

unfoldable pub is_finding_class : Text → Bool
is_finding_class name = all is_class_token (split_on b'.' name)

-- Whether a value is true: neither missing nor empty nor zero.
abbrev zeros : List Text
zeros = codes "0" ∷ codes "0.0" ∷ codes "-0.0" ∷ codes "False" ∷ []

abbrev pub is_truthy : Option Json → Bool
is_truthy none = false
is_truthy (some null) = false
is_truthy (some (string s)) = not (is_empty s)
is_truthy (some (scalar s)) = not (mem_text s zeros)
is_truthy (some (array no_items)) = false
is_truthy (some (array (item v rest))) = true
is_truthy (some (object no_fields)) = false
is_truthy (some (object (field k v rest))) = true

-- A dictionary, where the value is one.
abbrev pub mapping_of : Option Json → Option Fields
mapping_of (some (object fields)) = some fields
mapping_of _ = none

unfoldable pub normalize_path : Text → Text
normalize_path value =
    if is_empty value
    then codes "/"
    else if starts_with (codes "/") value
    then value
    else b'/' ∷ value

pub record TargetScope : Type 0 where
  pub kind : Text
  pub value : Text

-- A scope with both parts, or None.
abbrev pub scope_or_none : Text → Text → Option TargetScope
scope_or_none kind value =
    if is_empty kind || is_empty value then none else some (record { kind = kind; value = value })

-- `value_str` is `str` of a list or a dictionary, and `wide` is upper case beyond ASCII.
module _ (value_str : Json → Text) (wide : WideUpper) where
  abbrev pub as_text : Json → Text
  as_text (string s) = s
  as_text (scalar s) = s
  as_text v = value_str v

  abbrev pub string_value : Option Json → Text
  string_value none = []
  string_value (some null) = []
  string_value (some v) = strip (as_text v)

  unfoldable pub first_string : Fields → List Text → Text → Text
  first_string target [] default = default
  first_string target (key ∷ keys) default =
      let later = first_string target keys default in
      let value = string_value (field_of target key) in if is_empty value then later else value

  abbrev pub host_keys : List Text
  host_keys = codes "ip" ∷ codes "host" ∷ codes "hostname" ∷ []

  unfoldable pub host_scope_value : Fields → Text
  host_scope_value target = first_string target host_keys []

  unfoldable pub host_port_scope_value : Fields → Text
  host_port_scope_value target =
      let host = first_string target host_keys [] in
      let port = first_string target (codes "port" ∷ []) [] in
      let protocol = first_string target (codes "protocol" ∷ []) (codes "tcp") in
      if is_empty host || is_empty port
      then []
      else host ++ codes ":" ++ port ++ codes "/" ++ protocol

  unfoldable pub service_scope_value : Fields → Text
  service_scope_value target =
      let scheme = first_string target (codes "scheme" ∷ []) [] in
      let base = host_port_scope_value target in
      if is_empty base || is_empty scheme then base else base ++ codes ":" ++ scheme

  unfoldable pub web_origin_scope_value : Fields → Text
  web_origin_scope_value target =
      let scheme = first_string target (codes "scheme" ∷ []) (codes "https") in
      let host = first_string target (codes "host" ∷ codes "hostname" ∷ []) [] in
      let port = first_string target (codes "port" ∷ []) [] in
      let origin = if is_empty host then [] else scheme ++ codes "://" ++ host in
      if is_empty port || mem_text port (codes "80" ∷ codes "443" ∷ [])
      then origin
      else origin ++ codes ":" ++ port

  unfoldable pub web_app_scope_value : Fields → Text
  web_app_scope_value target =
      let origin = web_origin_scope_value target in
      let path = first_string target (codes "path" ∷ []) [] in
      let app = first_string target (codes "app" ∷ codes "base_path" ∷ []) path in
      if is_empty origin then [] else origin ++ normalize_path app

  unfoldable pub web_route_scope_value : Fields → Text
  web_route_scope_value target =
      let origin = web_origin_scope_value target in
      let path = first_string target (codes "path" ∷ []) [] in
      if is_empty origin then [] else origin ++ normalize_path path

  unfoldable pub cloud_account_scope_value : Fields → Text
  cloud_account_scope_value target =
      let provider = first_string target (codes "provider" ∷ []) [] in
      let account =
        first_string target (codes "account" ∷ codes "account_id" ∷ codes "project" ∷ []) [] in
      if is_empty provider || is_empty account then [] else provider ++ codes ":" ++ account

  unfoldable pub cloud_resource_scope_value : Fields → Text
  cloud_resource_scope_value target =
      let provider = first_string target (codes "provider" ∷ []) [] in
      let resource =
        first_string target (codes "arn" ∷ codes "resource" ∷ codes "id" ∷ codes "name" ∷ []) [] in
      if is_empty provider || is_empty resource then resource else provider ++ codes ":" ++ resource

  unfoldable pub artifact_scope_value : Fields → Text
  artifact_scope_value target =
      let artifact =
        first_string target (codes "artifact" ∷ codes "artifact_id" ∷ codes "id" ∷ []) [] in
      if is_empty artifact then [] else codes "artifact:" ++ artifact

  -- TARGET_SCOPE_VALUE_HANDLERS
  unfoldable pub target_scope_value : Text → Fields → Text
  target_scope_value kind target =
      if text_eq kind (codes "artifact")
      then artifact_scope_value target
      else if text_eq kind (codes "cloud_account")
      then cloud_account_scope_value target
      else if text_eq kind (codes "cloud_resource")
      then cloud_resource_scope_value target
      else if text_eq kind (codes "host")
      then host_scope_value target
      else if text_eq kind (codes "host_port")
      then host_port_scope_value target
      else if text_eq kind (codes "service")
      then service_scope_value target
      else if text_eq kind (codes "web_app")
      then web_app_scope_value target
      else if text_eq kind (codes "web_origin")
      then web_origin_scope_value target
      else if text_eq kind (codes "web_route")
      then web_route_scope_value target
      else first_string target (codes "value" ∷ codes "id" ∷ codes "url" ∷ codes "host" ∷ []) []

  -- The scope that `target_scope` gives, and the one that `finding_scope` gives of the target.
  abbrev pub explicit_scope : Option Fields → Option TargetScope
  explicit_scope none = none
  explicit_scope (some scope) =
      scope_or_none (string_value (field_of scope (codes "kind")))
        (string_value (field_of scope (codes "value")))

  abbrev pub derived_scope : Text → Option Fields → Option TargetScope
  derived_scope finding_scope none = none
  derived_scope finding_scope (some target) =
      scope_or_none finding_scope (target_scope_value finding_scope target)

  unfoldable pub normalized_target_scope : Fields → Option TargetScope
  normalized_target_scope payload =
      elim (explicit_scope (mapping_of (field_of payload (codes "target_scope")))) [
        | some scope ↦ some scope
        | none ↦
            derived_scope (string_value (field_of payload (codes "finding_scope")))
              (mapping_of (field_of payload (codes "target")))
      ]

  -- The items of a list that are true, as texts.
  unfoldable pub item_texts : Items → List Text
  item_texts no_items = []
  item_texts (item v rest) =
      let others = item_texts rest in if is_truthy (some v) then as_text v ∷ others else others

  abbrev pub cased : Text → Text → Text
  cased key raw = if text_eq key (codes "cve") then upper wide raw else raw

  abbrev pub first_item : Text → List Text → Option (Text × Text)
  first_item key [] = none
  first_item key (first ∷ rest) = some (key, cased key first)

  abbrev pub identifier_of : Text → Option Json → Option (Text × Text)
  identifier_of key (some (string raw)) = if is_empty raw then none else some (key, cased key raw)
  identifier_of key (some (array items)) = first_item key (sort_texts (item_texts items))
  identifier_of key _ = none

  abbrev pub identifier_priority : List Text
  identifier_priority =
      codes "cve" ∷ codes "ghsa" ∷ codes "vendor" ∷ codes "cwe" ∷ codes "owasp" ∷ codes "capec" ∷ []

  -- The loop over the keys.
  unfoldable pub first_identifier : List Text → Fields → Option (Text × Text)
  first_identifier [] value = none
  first_identifier (key ∷ keys) value = elim (identifier_of key (field_of value key)) [
    | some found ↦ some found
    | none ↦ first_identifier keys value
  ]

  unfoldable pub primary_identifier : Option Json → Option (Text × Text)
  primary_identifier value = elim (mapping_of value) [
    | none ↦ none
    | some identifiers ↦ first_identifier identifier_priority identifiers
  ]

  -- payload.get("class") or payload.get("finding_class"), dropped where it is no class
  unfoldable pub class_of : Fields → Text
  class_of payload =
      let class = field_of payload (codes "class") in
      let name =
        string_value
          (if is_truthy class then class else field_of payload (codes "finding_class")) in
      if is_finding_class name then name else []

  abbrev pub identifier_part : Option (Text × Text) → Text
  identifier_part none = codes "class"
  identifier_part (some (key, value)) = key ++ codes ":" ++ value

  abbrev pub group_key_of : Text → TargetScope → Option (Text × Text) → Text
  group_key_of class scope identifier =
      class
      ++ codes "|"
      ++ scope.kind
      ++ codes ":"
      ++ scope.value
      ++ codes "|"
      ++ identifier_part identifier

  abbrev pub id_or_fallback : Text → Text → Text
  id_or_fallback finding_id fallback = if is_empty finding_id then fallback else finding_id

  unfoldable pub finding_group_key : Fields → Text → Text
  finding_group_key payload fallback =
      let explicit = string_value (field_of payload (codes "group_key")) in
      let class = class_of payload in
      let finding_id = string_value (field_of payload (codes "finding_id")) in
      if not (is_empty explicit) then explicit else elim (normalized_target_scope payload) [
        | none ↦ id_or_fallback finding_id fallback
        | some scope ↦
            if is_empty class
            then id_or_fallback finding_id fallback
            else group_key_of class scope
                (primary_identifier (field_of payload (codes "identifiers")))
      ]
