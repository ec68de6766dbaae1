-- ===== src/Warnings/Isolation.antt =====
-- lib/configWarningRules.ts: one broken rule does not take the others' warnings with it.
use vyos_client.Base.{
  String, Option, none, some, List, [], ◌∷◌, ◌++◌, ◌≡◌, refl, sym, ap, ◌∙◌, append_assoc,
}
use vyos_client.Json.{Value, arr, undefined, null, boolean, number, str, obj}
use vyos_client.Warnings.{ConfigWarningRule, rule_warnings, evaluate_config_warning_rules}

-- The query throws, or what it gives is no array.
abbrev pub IsBroken : Option Value → Type 0
IsBroken (some (arr items)) = ⊥
IsBroken _ = Unit

module _ (search : Value → String → Option Value) where
  broken-rule_warnings :
      (rule : ConfigWarningRule) (o : Option Value) → IsBroken o → rule_warnings search rule o ≡ []
  broken-rule_warnings rule none h = refl
  broken-rule_warnings rule (some (arr items)) h = absurd h
  broken-rule_warnings rule (some undefined) h = refl
  broken-rule_warnings rule (some null) h = refl
  broken-rule_warnings rule (some (boolean b)) h = refl
  broken-rule_warnings rule (some (number t)) h = refl
  broken-rule_warnings rule (some (str t)) h = refl
  broken-rule_warnings rule (some (obj fields)) h = refl

  -- A rule whose query throws or gives no array changes no other rule's warnings: the banner is that of
  -- the rules before and behind it.
  pub evaluate_config_warning_rules-isolated :
      (facts : Value) (before : List ConfigWarningRule) (rule : ConfigWarningRule)
      (behind : List ConfigWarningRule)
      → IsBroken (search facts rule.query)
      → evaluate_config_warning_rules search facts (before ++ rule ∷ behind)
        ≡ evaluate_config_warning_rules search facts before
          ++ evaluate_config_warning_rules search facts behind
  unfolding evaluate_config_warning_rules
  evaluate_config_warning_rules-isolated facts [] rule behind h =
      rw (broken-rule_warnings rule (search facts rule.query) h) refl
  evaluate_config_warning_rules-isolated facts (r ∷ before) rule behind h =
      ap (λ xs. rule_warnings search r (search facts r.query) ++ xs)
        (evaluate_config_warning_rules-isolated facts before rule behind h)
      ∙ sym (
          append_assoc (rule_warnings search r (search facts r.query))
            (evaluate_config_warning_rules search facts before)
            (evaluate_config_warning_rules search facts behind))
