-- ===== src/Nat/RuleForm/RoundTrip.antt =====
-- Saving the form of a NAT rule: the rule that is parsed afterwards shows what the form held.
use vyos_client.Base.{
  String, true, Option, none, some, List, [], ◌∷◌, ◌++◌, ◌≡◌, refl, sym, ap, ◌∙◌, flat_map,
  append_assoc, append-nil, or_else,
}
use vyos_client.Json.{Value, undefined, as_string, child, is_flag_present}
use vyos_client.Json.Paths.{get_path}
use vyos_client.Config.Op.{ConfigOp}
use vyos_client.Config.Router.{Router}
use vyos_client.Config.Router.Runs.{run_all}
use vyos_client.Config.Diff.{ScalarField, scalar_round, diff_to_ops, scalar_ops, flag_ops}
use vyos_client.Config.Diff.Effect.{Saved, paths, edited}
use vyos_client.Config.Diff.Form.{Form, opened_values, IsOpened, HasSingleFields, form-round_trip}
use vyos_client.Config.Diff.Separate.{separate}
use vyos_client.Config.Diff.Shown.{saved_text, shown-edited, toggled-eq-new}
use vyos_client.Nat.RuleForm.Match.{saved_match, parse_match-saved}
use vyos_client.Nat.Types.{NatRuleKind, source, destination, NatRule}
use vyos_client.Nat.Parse.{
  parse_rule, parse_match, redirect_port_of, nat_rule_path, nat_rule_interface_path,
  interface_segment,
}
use vyos_client.Nat.RuleForm.{
  NatRuleFormValues, blank_rule_form_values, match_to_form_values, rule_to_form_values,
  scalar_fields, flag_fields, before_values, nat_rule_form_to_ops,
}

-- What the form shows when the rule is opened again.
abbrev pub saved_values : NatRuleFormValues → NatRuleFormValues → NatRuleFormValues
saved_values before values = record {
  description = saved_text before.description values.description;
  interface_name = saved_text before.interface_name values.interface_name;
  protocol = saved_text before.protocol values.protocol;
  source = saved_match before.source values.source;
  destination = saved_match before.destination values.destination;
  translation_address = saved_text before.translation_address values.translation_address;
  translation_port = saved_text before.translation_port values.translation_port;
  redirect_port = saved_text before.redirect_port values.redirect_port;
  disabled = values.disabled;
  exclude = values.exclude;
  log = values.log;
}

-- The loop's table with the interface's step as its last row.
abbrev pub all_fields : NatRuleKind → List (ScalarField NatRuleFormValues)
all_fields kind =
    scalar_fields
    ++ record { get = λ v. v.interface_name; segments = interface_segment kind ∷ "name" ∷ [] } ∷ []

pub all_fields-separate :
    (kind : NatRuleKind) → separate (paths (all_fields kind) flag_fields) ≡ true
unfolding interface_segment
all_fields-separate source = refl
all_fields-separate destination = refl

flat_map-snoc :
    {A : Type 0} (f : A → List ConfigOp) (xs : List A) (y : A)
    → flat_map f xs ++ f y ≡ flat_map f (xs ++ y ∷ [])
flat_map-snoc f [] y = sym (append-nil (f y))
flat_map-snoc f (x ∷ xs) y =
    append_assoc (f x) (flat_map f xs) (f y) ∙ ap (λ w. f x ++ w) (flat_map-snoc f xs y)

-- The form is the generic diff over the rule's node.
pub nat_rule_form_to_ops-diff :
    (kind : NatRuleKind) (n : String) (before : Option NatRule) (values : NatRuleFormValues)
    → nat_rule_form_to_ops kind n before values
      ≡ diff_to_ops
          (nat_rule_path kind n [])
          (all_fields kind)
          flag_fields
          (before_values before)
          values
unfolding nat_rule_form_to_ops diff_to_ops scalar_ops nat_rule_path nat_rule_interface_path
nat_rule_form_to_ops-diff kind n before values =
    ap (λ ops. ops ++ flag_ops (nat_rule_path kind n) flag_fields (before_values before) values)
      (flat_map-snoc (scalar_round (nat_rule_path kind n) (before_values before) values)
        scalar_fields
        (record { get = λ v. v.interface_name; segments = interface_segment kind ∷ "name" ∷ [] }))

abbrev pub form_of : NatRuleKind → String → Value → NatRuleFormValues
form_of kind n raw = rule_to_form_values (parse_rule kind n raw)

-- A source rule has no redirect port, and its form leaves the field empty.
abbrev pub IsShown : NatRuleKind → NatRuleFormValues → Type 0
IsShown source values = values.redirect_port ≡ ""
IsShown destination values = Unit

redirect-shown :
    (kind : NatRuleKind) (raw raw' : Value) (old_value : String) (values : NatRuleFormValues)
    → IsShown kind values
    → old_value ≡ or_else (redirect_port_of kind raw) ""
    → get_path raw' ("translation" ∷ "redirect" ∷ "port" ∷ [])
      ≡ edited old_value values.redirect_port
          (get_path raw ("translation" ∷ "redirect" ∷ "port" ∷ []))
    → or_else (redirect_port_of kind raw') "" ≡ saved_text old_value values.redirect_port
unfolding redirect_port_of
redirect-shown source raw raw' old_value values k h e = rw (h, k) refl
redirect-shown destination raw raw' old_value values k h e =
    shown-edited _ _ old_value values.redirect_port h e

-- From the leaves to the form.
pub parse-saved_values :
    (kind : NatRuleKind) (n : String) (raw raw' : Value) (before values : NatRuleFormValues)
    → IsShown kind values
    → before ≡ form_of kind n raw
    → Saved (all_fields kind) flag_fields before values raw raw'
    → form_of kind n raw' ≡ saved_values before values
unfolding parse_rule rule_to_form_values parse_match match_to_form_values
parse-saved_values kind n raw raw' before values k h
      (scalars, (e_disabled, (e_exclude, (e_log, _)))) =
    let (e_description, (e_protocol, (e_s_address, (e_s_port, more_1)))) = scalars in
    let (e_s_ag, (e_s_ng, (e_s_pg, (e_d_address, more_2)))) = more_1 in
    let (e_d_port, (e_d_ag, (e_d_ng, (e_d_pg, more_3)))) = more_2 in
    let (e_translation_address, (e_translation_port, (e_redirect_port, (e_interface_name, _)))) =
      more_3 in
    λ i. record {
      description =
          shown-edited _ _ _ (values.description) (ap (λ f. f.description) h) e_description i;
      interface_name =
          shown-edited _ _ _ (values.interface_name) (ap (λ f. f.interface_name) h) e_interface_name
            i;
      protocol = shown-edited _ _ _ (values.protocol) (ap (λ f. f.protocol) h) e_protocol i;
      source =
          parse_match-saved (child raw "source") _ before.source values.source
            (ap (λ f. f.source) h) (e_s_address, (e_s_port, (e_s_ag, (e_s_ng, e_s_pg)))) i;
      destination =
          parse_match-saved (child raw "destination") _ before.destination values.destination
            (ap (λ f. f.destination) h) (e_d_address, (e_d_port, (e_d_ag, (e_d_ng, e_d_pg)))) i;
      translation_address =
          shown-edited _ _ _ (values.translation_address) (ap (λ f. f.translation_address) h)
            e_translation_address i;
      translation_port =
          shown-edited _ _ _ (values.translation_port) (ap (λ f. f.translation_port) h)
            e_translation_port i;
      redirect_port =
          redirect-shown kind raw _ before.redirect_port values k (ap (λ f. f.redirect_port) h)
            e_redirect_port i;
      disabled = toggled-eq-new _ _ _ (values.disabled) (ap (λ f. f.disabled) h) e_disabled i;
      exclude = toggled-eq-new _ _ _ (values.exclude) (ap (λ f. f.exclude) h) e_exclude i;
      log = toggled-eq-new _ _ _ (values.log) (ap (λ f. f.log) h) e_log i;
    }

pub blank_form :
    (kind : NatRuleKind) (n : String) → blank_rule_form_values ≡ form_of kind n undefined
unfolding parse_rule rule_to_form_values parse_match match_to_form_values child as_string
    is_flag_present redirect_port_of
blank_form source n = refl
blank_form destination n = refl

abbrev pub form : NatRuleKind → String → Form NatRule NatRuleFormValues
form kind n = record {
  parse = λ raw. parse_rule kind n raw;
  to_values = rule_to_form_values;
  blank = blank_rule_form_values;
  scalar_fields = all_fields kind;
  flag_fields = flag_fields;
  saved = saved_values;
  IsAccepted = IsShown kind;
  is_separate = all_fields-separate kind;
  blank-parse = blank_form kind n;
  saved-parse = λ raw raw' before values h shown' saved.
      parse-saved_values kind n raw raw' before values shown' h saved;
}

before_values-opened :
    (kind : NatRuleKind) (n : String) (before : Option NatRule)
    → before_values before ≡ opened_values (form kind n) before
unfolding before_values
before_values-opened kind n none = refl
before_values-opened kind n (some rule) = refl

-- After its commands have run, the rule parsed at the form's number shows the flags that were
-- chosen and, in each text field, the text that was typed, trimmed where it was edited. The form
-- was opened on the rule that was there, or on none, with the redirect port left empty for a
-- source rule, and each field's node holds one value.
pub nat_rule_form_to_ops-round_trip :
    (r : Router) (s : r.State) (kind : NatRuleKind) (n : String) (before : Option NatRule)
    (values : NatRuleFormValues)
    → IsOpened (form kind n) (get_path (r.tree s) (nat_rule_path kind n [])) before
    → HasSingleFields (form kind n) r (nat_rule_path kind n [])
    → IsShown kind values
    → rule_to_form_values (
        parse_rule kind n (
          get_path
            (r.tree (run_all r s (nat_rule_form_to_ops kind n before values)))
            (nat_rule_path kind n [])))
      ≡ saved_values (opened_values (form kind n) before) values
nat_rule_form_to_ops-round_trip r s kind n before values opened single shown' =
    form-round_trip (form kind n) r s (nat_rule_path kind n []) before values _
      (nat_rule_form_to_ops-diff kind n before values
        ∙ ap
            (λ old_values.
              diff_to_ops (nat_rule_path kind n []) (all_fields kind) flag_fields old_values values)
            (before_values-opened kind n before))
      opened single shown'
