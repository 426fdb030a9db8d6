-- ===== src/Arguments/Hiding.antt =====
-- What redact_commandlet_args of bywaf/runner/stages/arguments.py shows of secret arguments.
use bywaf.Prelude.{
  true, false, if◌then◌else◌, Option, none, some, List, [], ◌∷◌, ◌++◌, is_empty, ◌≡◌, refl, sym,
  ◌∙◌, ap, arith, Text, mem_text, subst,
}
use bywaf.Policy.{WideLower}
use bywaf.SecretInput.State.{redacted_value}
use bywaf.Arguments.{
  OptionSpec, Style, OptionArg, SecretRef, Redacted, secret_options_of, split_option_arg,
  redacted_text, redact_option, redact_named, redact_arg, redact_args, redact_commandlet_args,
}

module _ (wide : WideLower) (secret_options : List Text) where
  abbrev pub waits : OptionArg → Option Text
  waits parsed = elim parsed.name [
    | none ↦ none
    | some name ↦
        if mem_text name secret_options
        then (elim parsed.value [ none ↦ some name | some value ↦ none ])
        else none
  ]

  -- The argument names a secret option and gives its value.
  abbrev pub IsSecretValue : Text → Text → Style → Type 0
  IsSecretValue arg name style =
      ((split_option_arg wide arg).name ≡ some name)
      × (mem_text name secret_options ≡ true)
      × ((value : Text) × ((split_option_arg wide arg).value ≡ some value))
      × ((split_option_arg wide arg).style ≡ style)

  -- The option that waits for its value behind an argument: a secret one that is named without it.
  abbrev pub waits_after : Text → Option Text
  waits_after arg = waits (split_option_arg wide arg)

  -- Two argument lists that differ only in the values of secret options, with the option that waits
  -- for its value.
  pub data DifferInSecrets : Option Text → List Text → List Text → Type 0 where
    end : {pending : Option Text} → DifferInSecrets pending [] []
    waiting :
        {pending : Text} (a b : Text) {args others : List Text}
        → DifferInSecrets none args others
        → DifferInSecrets (some pending) (a ∷ args) (b ∷ others)
    unchanged :
        {a b : Text} {args others : List Text} (next : Option Text)
        → a ≡ b
        → next ≡ waits_after a
        → DifferInSecrets next args others
        → DifferInSecrets none (a ∷ args) (b ∷ others)
    hidden :
        {a b : Text} {args others : List Text} (name : Text) (style : Style)
        → IsSecretValue a name style
        → IsSecretValue b name style
        → DifferInSecrets none args others
        → DifferInSecrets none (a ∷ args) (b ∷ others)

  module _ (metadata : Text → Option SecretRef) (fingerprint : Text → Text) where
    abbrev redact : Option Text → List Text → Redacted
    redact pending args = redact_args wide metadata fingerprint secret_options pending args

    redact_named-waits :
        (arg : Text) (parsed : OptionArg)
        → (redact_named wide metadata fingerprint secret_options arg parsed).1 ≡ waits parsed
    unfolding redact_named redact_option
    redact_named-waits arg parsed = ground arith

    redact_named-value :
        (arg name : Text) (style : Style) (value : Text) (parsed : OptionArg)
        → parsed.name ≡ some name
        → mem_text name secret_options ≡ true
        → parsed.value ≡ some value
        → parsed.style ≡ style
        → ((redact_named wide metadata fingerprint secret_options arg parsed).0.args
            ≡ redacted_text wide metadata fingerprint name style ∷ [])
          × ((redact_named wide metadata fingerprint secret_options arg parsed).1 ≡ none)
    unfolding redact_named redact_option
    redact_named-value arg name style value parsed n m v t =
        (rw (n, m, v, t) refl, rw (n, m, v) refl)

    redact-cons :
        (a : Text) (args : List Text)
        → (redact none (a ∷ args)).args
          ≡ (redact_named wide metadata fingerprint secret_options a
              (split_option_arg wide a)).0.args
            ++ (redact (waits_after a) args).args
    unfolding redact_args redact_arg
    redact-cons a args =
        ap
          (λ o.
            (redact_named wide metadata fingerprint secret_options a
              (split_option_arg wide a)).0.args
            ++ (redact_args wide metadata fingerprint secret_options o args).args)
          (redact_named-waits a (split_option_arg wide a))

    redact-waiting :
        (pending a : Text) (args : List Text)
        → (redact (some pending) (a ∷ args)).args ≡ redacted_value ∷ (redact none args).args
    unfolding redact_args redact_arg
    redact-waiting pending a args = refl

    redact-hidden :
        (a name : Text) (style : Style) (args : List Text)
        → IsSecretValue a name style
        → (redact none (a ∷ args)).args
          ≡ redacted_text wide metadata fingerprint name style ∷ (redact none args).args
    unfolding redact_args redact_arg
    redact-hidden a name style args (n, m, (value, v), t) =
        let (same, next) =
          redact_named-value a name style value (split_option_arg wide a) n m v t in
        rw (same, next) refl

    redact-DifferInSecrets :
        (pending : Option Text) (args others : List Text)
        → DifferInSecrets pending args others
        → (redact pending args).args ≡ (redact pending others).args
    unfolding redact_args
    redact-DifferInSecrets pending [] [] end = refl
    redact-DifferInSecrets pending [] (b ∷ others) d = elim d [ ]
    redact-DifferInSecrets none (a ∷ args) [] d = elim d [ ]
    redact-DifferInSecrets (some pending) (a ∷ args) [] d = elim d [ ]
    redact-DifferInSecrets (some pending) (a ∷ args) (b ∷ others) (waiting _ _ d) =
        redact-waiting pending a args
        ∙ ap (λ (l : List Text). redacted_value ∷ l) (redact-DifferInSecrets none args others d)
        ∙ sym (redact-waiting pending b others)
    redact-DifferInSecrets none (a ∷ args) (b ∷ others) (unchanged next e w d) =
        redact-cons a args
        ∙ ap
            (λ (l : List Text).
              (redact_named wide metadata fingerprint secret_options a
                (split_option_arg wide a)).0.args
              ++ l)
            (subst (λ o. (redact o args).args ≡ (redact o others).args) w
              (redact-DifferInSecrets next args others d))
        ∙ sym (redact-cons a others)
        ∙ ap (λ x. (redact none (x ∷ others)).args) e
    redact-DifferInSecrets none (a ∷ args) (b ∷ others) (hidden name style ha hb d) =
        redact-hidden a name style args ha
        ∙ ap (λ (l : List Text). redacted_text wide metadata fingerprint name style ∷ l)
            (redact-DifferInSecrets none args others d)
        ∙ sym (redact-hidden b name style others hb)

-- For a commandlet with a secret option, two argument lists that differ only in the values of options
-- declared as secret, whether they stand behind the option or behind `=`, are redacted to the same
-- arguments.
pub redact_commandlet_args-DifferInSecrets :
    (wide : WideLower) (metadata : Text → Option SecretRef) (fingerprint : Text → Text)
    (options : List OptionSpec) (args others : List Text)
    → is_empty (secret_options_of wide options) ≡ false
    → DifferInSecrets wide (secret_options_of wide options) none args others
    → (redact_commandlet_args wide metadata fingerprint options args).args
      ≡ (redact_commandlet_args wide metadata fingerprint options others).args
unfolding redact_commandlet_args
redact_commandlet_args-DifferInSecrets wide metadata fingerprint options args others some_secret d =
    rw some_secret (
      redact-DifferInSecrets wide (secret_options_of wide options) metadata fingerprint none args
        others d)
