-- ===== src/Arguments.antt =====
-- The arguments of a stage: bywaf/runner/stages/arguments.py.
pub mod Hiding
pub mod Actions
use bywaf.Prelude.{
  ℕ, Bool, true, false, not, ◌&&◌, ◌||◌, if◌then◌else◌, Option, none, some, List, [], ◌∷◌, ◌++◌,
  any, keep, is_empty, drop, Text, text_eq, codes, mem_text, contains_char, starts_with, strip,
  partition, Partition, Result, ok, err, ◌>>=◌, ◌>>◌, unknown_database_action,
}
use bywaf.Policy.{WideLower, lower}
use bywaf.Graph.Check.{replace}
use bywaf.SecretInput.State.{redacted_value}

-- A declared option, as far as the arguments read it.
pub record OptionSpec : Type 0 where
  pub name : Text
  pub secret : Bool

unfoldable pub valued_options : List OptionSpec → List Text
valued_options [] = []
valued_options (option ∷ rest) =
    let others = valued_options rest in
    if mem_text option.name (codes "listen" ∷ codes "silent" ∷ [])
    then others
    else option.name ∷ others

unfoldable pub normalize_arg : List Text → Text → List Text
normalize_arg valued arg =
    let parts = partition b'=' arg in
    if not parts.found || starts_with (codes "--") arg
    then arg ∷ []
    else if not (mem_text parts.before valued)
    then arg ∷ []
    else (codes "--" ++ parts.before) ∷ parts.after ∷ []

unfoldable pub normalize_each : List Text → List Text → List Text
normalize_each valued [] = []
normalize_each valued (arg ∷ rest) = normalize_arg valued arg ++ normalize_each valued rest

unfoldable pub normalize_valued_option_args : List OptionSpec → List Text → List Text
normalize_valued_option_args options args = normalize_each (valued_options options) args

-- How an argument names its option.
pub data Style : Type 0 where
  unnamed long long_equals key_equals : Style

pub record OptionArg : Type 0 where
  pub name : Option Text
  pub value : Option Text
  pub style : Style

-- What the audit event says of a secret argument.
pub record SecretMetadata : Type 0 where
  pub name : Text
  pub option : Text
  pub fingerprint : Text

-- A stored secret, by its value.
pub record SecretRef : Type 0 where
  pub name : Text
  pub fingerprint : Text

pub record Redacted : Type 0 where
  pub args : List Text
  pub secrets : List SecretMetadata

module _ (wide : WideLower) where
  -- name.strip().lower().replace("_", "-")
  unfoldable pub option_key : Text → Text
  option_key name = replace b'_' b'-' (lower wide (strip name))

  unfoldable pub secret_options_of : List OptionSpec → List Text
  secret_options_of [] = []
  secret_options_of (option ∷ rest) =
      let others = secret_options_of rest in
      if option.secret then option_key option.name ∷ others else others

  unfoldable pub split_long : Text → OptionArg
  split_long body =
      let parts = partition b'=' body in
      if parts.found
      then record {
        name = some (option_key parts.before);
        value = some parts.after;
        style = long_equals;
      }
      else record { name = some (option_key body); value = none; style = long }

  unfoldable pub split_key : Text → OptionArg
  split_key arg =
      let parts = partition b'=' arg in
      if parts.found
      then record {
        name = some (option_key parts.before);
        value = some parts.after;
        style = key_equals;
      }
      else record { name = none; value = none; style = unnamed }

  unfoldable pub split_option_arg : Text → OptionArg
  split_option_arg arg =
      if starts_with (codes "--") arg then split_long (drop 2 arg) else split_key arg

  -- The secret store, and the fingerprint of a value that it does not hold.
  module _ (metadata : Text → Option SecretRef) (fingerprint : Text → Text) where
    unfoldable pub secret_arg_metadata : Text → Text → SecretMetadata
    secret_arg_metadata name value = elim (metadata value) [
      | some found ↦ record { name = found.name; option = name; fingerprint = found.fingerprint }
      | none ↦ record { name = name; option = name; fingerprint = fingerprint value }
    ]

    -- f"--{name}={REDACTED_VALUE}" or f"{name}={REDACTED_VALUE}"
    abbrev pub redacted_text : Text → Style → Text
    redacted_text name long_equals = codes "--" ++ name ++ codes "=" ++ redacted_value
    redacted_text name _ = name ++ codes "=" ++ redacted_value

    abbrev pub and_then : List Text → List SecretMetadata → Redacted → Redacted
    and_then args secrets later = record {
      args = args ++ later.args;
      secrets = secrets ++ later.secrets;
    }

    -- What the loop does with one argument while no option waits for its value, and the option that
    -- waits afterwards.
    unfoldable pub redact_option : Text → Text → OptionArg → Redacted × Option Text
    redact_option arg name parsed = elim parsed.value [
      | none ↦ (record { args = (codes "--" ++ name) ∷ []; secrets = [] }, some name)
      | some value ↦ (
        record {
          args = redacted_text name parsed.style ∷ [];
          secrets = secret_arg_metadata name value ∷ [];
        },
        none,
      )
    ]

    abbrev pub plain_arg : Text → Redacted × Option Text
    plain_arg arg = (record { args = arg ∷ []; secrets = [] }, none)

    unfoldable pub redact_named : List Text → Text → OptionArg → Redacted × Option Text
    redact_named secret_options arg parsed = elim parsed.name [
      | none ↦ plain_arg arg
      | some name ↦
          if mem_text name secret_options then redact_option arg name parsed else plain_arg arg
    ]

    unfoldable pub redact_arg : List Text → Option Text → Text → Redacted × Option Text
    redact_arg secret_options (some pending) arg = (
      record { args = redacted_value ∷ []; secrets = secret_arg_metadata pending arg ∷ [] },
      none,
    )
    redact_arg secret_options none arg = redact_named secret_options arg (split_option_arg arg)

    -- The loop, with the option that waits for its value.
    unfoldable pub redact_args : List Text → Option Text → List Text → Redacted
    redact_args secret_options pending [] = record { args = []; secrets = [] }
    redact_args secret_options pending (arg ∷ rest) =
        let r = redact_arg secret_options pending arg in
        and_then r.0.args r.0.secrets (redact_args secret_options r.1 rest)

    unfoldable pub redact_commandlet_args : List OptionSpec → List Text → Redacted
    redact_commandlet_args options args =
        let secret_options = secret_options_of options in
        if is_empty secret_options
        then record { args = args; secrets = [] }
        else redact_args secret_options none args

abbrev pub is_known : (Text → Option SecretRef) → Text → Bool
is_known metadata value = elim (metadata value) [ none ↦ false | some found ↦ true ]

unfoldable pub redact_reference : (Text → Option SecretRef) → Text → Text
redact_reference metadata arg =
    let parts = partition b'=' arg in
    if is_known metadata arg
    then redacted_value
    else if parts.found && is_known metadata parts.after
    then parts.before ++ codes "=" ++ redacted_value
    else arg

unfoldable pub redact_secret_reference_args : (Text → Option SecretRef) → List Text → List Text
redact_secret_reference_args metadata [] = []
redact_secret_reference_args metadata (arg ∷ rest) =
    redact_reference metadata arg ∷ redact_secret_reference_args metadata rest
