-- ===== src/EventFilter/Payload.antt =====
-- Event payloads, and the values in them that a filter reads: value_at_path and
-- payload_filter_values of bywaf/event/filters.py.
use bywaf.Prelude.{
  Bool, true, false, if◌then◌else◌, Option, none, some, List, [], ◌∷◌, ◌++◌, keep, Text, text_eq,
  codes, split_on,
}

mutual
  -- A value of a payload; `scalar` is a number or a Boolean, by its text.
  pub data Json : Type 0 where
    null : Json
    string scalar : Text → Json
    array : Items → Json
    object : Fields → Json

  pub data Items : Type 0 where
    no_items : Items
    item : Json → Items → Items

  pub data Fields : Type 0 where
    no_fields : Fields
    field : Text → Json → Fields → Fields

-- current[part], or none where the key is missing
unfoldable pub field_of : Fields → Text → Option Json
field_of no_fields name = none
field_of (field k v rest) name = if text_eq k name then some v else field_of rest name

unfoldable pub items_of : Items → List Json
items_of no_items = []
items_of (item v rest) = v ∷ items_of rest

-- The loop over the parts of the key.
unfoldable pub walk : List Text → Json → List Json
walk [] current = current ∷ []
walk (part ∷ rest) (object fields) = elim (field_of fields part) [
  | none ↦ []
  | some v ↦ walk rest v
]
walk (part ∷ rest) null = []
walk (part ∷ rest) (string s) = []
walk (part ∷ rest) (scalar s) = []
walk (part ∷ rest) (array items) = []

unfoldable pub value_at_path : Fields → Text → List Json
value_at_path payload key = walk (split_on b'.' key) (object payload)

abbrev pub is_value : Json → Bool
is_value null = false
is_value _ = true

-- What one value adds: the items of a list, or itself.
abbrev pub flattened : Json → List Json
flattened (array items) = items_of items
flattened v = v ∷ []

unfoldable pub flatten_values : List Json → List Json
flatten_values [] = []
flatten_values (v ∷ rest) = flattened v ++ flatten_values rest

unfoldable pub payload_filter_values : Fields → Text → List Json
payload_filter_values payload key =
    let values = value_at_path payload key in
    let nested =
      value_at_path payload (codes "target.host")
      ++ value_at_path payload (codes "source.host")
      ++ value_at_path payload (codes "endpoint.host") in
    keep is_value (flatten_values (if text_eq key (codes "host") then values ++ nested else values))
