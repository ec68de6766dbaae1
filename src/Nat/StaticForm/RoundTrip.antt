-- ===== src/Nat/StaticForm/RoundTrip.antt =====
-- Saving the form of a static NAT rule.
use vyos_client.Base.{
  String, true, Option, none, some, List, [], ◌∷◌, ◌++◌, ◌≡◌, ◌⊎◌, inl, inr, refl, sym, ap, subst,
  All, append-nil,
}
use vyos_client.Json.{Value, undefined, as_string, child, is_flag_present}
use vyos_client.Json.Paths.{get_path}
use vyos_client.Config.Router.{Router}
use vyos_client.Config.Router.Runs.{run_all}
use vyos_client.Config.Diff.{FlagField, diff_to_ops, scalar_ops, flag_ops, flag_field_ops}
use vyos_client.Config.Diff.Effect.{Saved, paths}
use vyos_client.Config.Diff.Saved.{diff_to_ops-Saved}
use vyos_client.Config.Diff.Shown.{saved_text, shown-edited, toggled-eq-new}
use vyos_client.Nat.Types.{NatStaticRule}
use vyos_client.Nat.Parse.{parse_static_rule, nat_static_rule_path}
use vyos_client.Nat.StaticForm.{
  NatStaticFormValues, blank_static_form_values, static_to_form_values, scalar_fields,
  before_values, static_form_to_ops,
}

-- What the form shows when the rule is opened again.
abbrev pub saved_values : NatStaticFormValues → NatStaticFormValues → NatStaticFormValues
saved_values before values = record {
  description = saved_text before.description values.description;
  destination_address = saved_text before.destination_address values.destination_address;
  interface_name = saved_text before.interface_name values.interface_name;
  translation_address = saved_text before.translation_address values.translation_address;
  log = values.log;
}

-- The step for the log flag, as a table of one row.
abbrev pub flag_fields : List (FlagField NatStaticFormValues)
flag_fields = record { get = λ v. v.log; segments = "log" ∷ [] } ∷ []

-- The form is the generic diff over the rule's node.
pub static_form_to_ops-diff :
    (n : String) (before : Option NatStaticRule) (values : NatStaticFormValues)
    → static_form_to_ops n before values
      ≡ diff_to_ops
          (nat_static_rule_path n [])
          scalar_fields
          flag_fields
          (before_values before)
          values
unfolding static_form_to_ops diff_to_ops flag_ops nat_static_rule_path
static_form_to_ops-diff n before values =
    ap
      (λ ops.
        scalar_ops (nat_static_rule_path n) scalar_fields (before_values before) values ++ ops)
      (sym (
        append-nil (
          flag_field_ops (nat_static_rule_path n ("log" ∷ [])) (before_values before).log
            values.log)))

abbrev form_of : String → Value → NatStaticFormValues
form_of n raw = static_to_form_values (parse_static_rule n raw)

parse-saved_values :
    (n : String) (raw raw' : Value) (before values : NatStaticFormValues)
    → before ≡ form_of n raw
    → Saved scalar_fields flag_fields before values raw raw'
    → form_of n raw' ≡ saved_values before values
unfolding parse_static_rule static_to_form_values
parse-saved_values n raw raw' before values h
      (
        (e_description, (e_destination_address, (e_interface_name, (e_translation_address, _)))),
        (e_log, _),
      ) =
    λ i. record {
      description =
          shown-edited _ _ _ (values.description) (ap (λ f. f.description) h) e_description i;
      destination_address =
          shown-edited _ _ _ (values.destination_address) (ap (λ f. f.destination_address) h)
            e_destination_address i;
      interface_name =
          shown-edited _ _ _ (values.interface_name) (ap (λ f. f.interface_name) h) e_interface_name
            i;
      translation_address =
          shown-edited _ _ _ (values.translation_address) (ap (λ f. f.translation_address) h)
            e_translation_address i;
      log = toggled-eq-new _ _ _ (values.log) (ap (λ f. f.log) h) e_log i;
    }

-- What the form was opened with: the rule as it was parsed, or nothing for a number with no rule.
abbrev pub IsOpened : String → Value → Option NatStaticRule → Type 0
IsOpened n raw before =
    (before ≡ some (parse_static_rule n raw)) ⊎ ((before ≡ none) × (raw ≡ undefined))

blank_form : (n : String) → blank_static_form_values ≡ form_of n undefined
unfolding parse_static_rule static_to_form_values child as_string is_flag_present
blank_form n = refl

before_values-form :
    (n : String) (raw : Value) (before : Option NatStaticRule)
    → IsOpened n raw before
    → before_values before ≡ form_of n raw
unfolding before_values
before_values-form n raw before (inl e) = rw e
before_values-form n raw before (inr (e, absent)) = rw (e, absent) (blank_form n)

module _ (r : Router) (s : r.State) (n : String) (before : Option NatStaticRule)
    (values : NatStaticFormValues) where
  abbrev rule_node : r.State → Value
  rule_node t = get_path (r.tree t) (nat_static_rule_path n [])

  -- After its commands have run, the static rule parsed at the form's number shows the log flag that
  -- was chosen and, in each text field, the text that was typed, trimmed where it was edited. The
  -- form was opened on the rule that was there, or on none, and each field's node holds one value.
  pub static_form_to_ops-round_trip :
      IsOpened n (rule_node s) before
      → All
          (λ p. r.single_valued (nat_static_rule_path n [] ++ p) ≡ true)
          (paths scalar_fields flag_fields)
      → static_to_form_values
          (parse_static_rule n (rule_node (run_all r s (static_form_to_ops n before values))))
        ≡ saved_values (before_values before) values
  static_form_to_ops-round_trip opened single =
      let base = nat_static_rule_path n [] in
      subst
        (λ ops.
          form_of n (get_path (r.tree (run_all r s ops)) base)
          ≡ saved_values (before_values before) values)
        (sym (static_form_to_ops-diff n before values))
        (parse-saved_values n (rule_node s) _ (before_values before) values
          (before_values-form n (rule_node s) before opened)
          (diff_to_ops-Saved r base scalar_fields flag_fields s (before_values before) values refl
            single))
