-- ===== src/Tests/Secrets.antt =====
-- bywaf/secret/input and bywaf/runner/stages/arguments.py at concrete inputs.
use bywaf.Prelude.{
  ℕ, ◌-◌, ◌&&◌, all, is_ok, is_some, true, false, none, some, List, [], ◌∷◌, ◌++◌, ◌≡◌, refl,
  is_empty, length, take, Text, codes, text_eq, mem_text, starts_with, partition, strip, lstrip,
  rstrip, is_space,
}
use bywaf.Policy.{lower}
use bywaf.Graph.Check.{replace}
use bywaf.SecretInput.State.{Editor, Prompt}
use bywaf.SecretInput.{typed, left, press_all}
use bywaf.SecretInput.Hiding.{same, secret, visible, press_all-visible}
use bywaf.Arguments.{
  OptionSpec, key_equals, option_key, secret_options_of, split_long, split_key, split_option_arg,
  redact_commandlet_args,
}
use bywaf.Arguments.Hiding.{
  DifferInSecrets, end, waiting, unchanged, hidden, redact_commandlet_args-DifferInSecrets,
}
use bywaf.Capability.{has_action, view}
use bywaf.Arguments.Actions.{
  named_action, has_effective, effective_database_actions, effective_database_actions_lem,
}

-- An editor that writes at the end of the text.
abbrev plain_editor : Editor
plain_editor = record {
  insert_text = λ t b. record { text = b.text ++ t; cursor = length (b.text ++ t) };
  set_text = λ t b. record b { text = t };
  set_cursor = λ n b. record b { cursor = n };
  cursor_left = λ b. record b { cursor = b.cursor - 1 };
  cursor_right = λ b. b;
  delete_before = λ b. record { text = take (b.cursor - 1) b.text; cursor = b.cursor - 1 };
  delete_at = λ b. b;
  validate_and_handle = λ b. b;
}

abbrev asking : Text → Prompt
asking value = record {
  span = some (record { name = codes "key"; start = 17; end = 27; value = value; focused = true });
  buffer = record { text = codes "set --secret key=[REDACTED]"; cursor = 17 };
}

press_all-visible_example :
    visible
      (press_all plain_editor (λ c. true) (typed (codes "a") (codes "a") ∷ left ∷ []) (asking []))
    ≡ visible (
        press_all plain_editor
          (λ c. true)
          (typed (codes "b") (codes "b") ∷ left ∷ [])
          (asking (codes "x")))
unfolding text_eq mem_text
press_all-visible_example =
    press_all-visible plain_editor (λ c. true) (typed (codes "a") (codes "a") ∷ left ∷ [])
      (typed (codes "b") (codes "b") ∷ left ∷ []) (asking []) (asking (codes "x"))
      (secret (codes "a") (codes "a") (codes "b") (codes "b") refl refl, (same left, tt)) refl

argument_defs : Unit {0}
unfolding text_eq mem_text starts_with partition strip rstrip lstrip is_space lower replace
    option_key secret_options_of split_long split_key split_option_arg
argument_defs = tt

abbrev login_options : List OptionSpec
login_options =
    record { name = codes "Pass_Word"; secret = true }
    ∷ record { name = codes "user"; secret = false }
    ∷ []

abbrev no_case : ℕ → Text
no_case c = c ∷ []

abbrev given : Text → Text → List Text
given behind with_equals =
    codes "host" ∷ codes "--pass-word" ∷ behind ∷ (codes "pass_word=" ++ with_equals) ∷ []

given-DifferInSecrets :
    DifferInSecrets no_case
      (secret_options_of no_case login_options)
      none
      (given (codes "one") (codes "two"))
      (given (codes "three") (codes "four"))
unfolding argument_defs
given-DifferInSecrets = unchanged none refl refl (
    unchanged (some (codes "pass-word")) refl refl (
      waiting (codes "one") (codes "three") (
        hidden (codes "pass-word") key_equals (refl, refl, (codes "two", refl), refl)
          (refl, refl, (codes "four", refl), refl) end)))

some_secret : is_empty (secret_options_of no_case login_options) ≡ false
unfolding argument_defs
some_secret = refl

redact_commandlet_args-DifferInSecrets_example :
    (redact_commandlet_args no_case
      (λ v. none)
      (λ v. [])
      login_options
      (given (codes "one") (codes "two"))).args
    ≡ (redact_commandlet_args no_case
        (λ v. none)
        (λ v. [])
        login_options
        (given (codes "three") (codes "four"))).args
redact_commandlet_args-DifferInSecrets_example =
    redact_commandlet_args-DifferInSecrets no_case (λ v. none) (λ v. []) login_options
      (given (codes "one") (codes "two")) (given (codes "three") (codes "four")) some_secret
      given-DifferInSecrets

abbrev named_twice : List Text
named_twice = codes "view" ∷ codes "manage" ∷ codes "view" ∷ []

effective_database_actions_lem_example :
    (is_ok (effective_database_actions named_twice)
      ≡ all (λ name. is_some (named_action name)) named_twice)
    × (has_effective view (effective_database_actions named_twice)
        ≡ (is_ok (effective_database_actions named_twice) && has_action view named_twice))
effective_database_actions_lem_example = effective_database_actions_lem named_twice view
