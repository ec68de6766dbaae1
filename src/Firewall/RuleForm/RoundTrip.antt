-- ===== src/Firewall/RuleForm/RoundTrip.antt =====
-- Saving the rule form: the rule that is parsed from the configuration afterwards shows what the
-- form held.
use vyos_client.Base.{
  String, true, Option, none, some, [], ◌∷◌, ◌++◌, ◌≡◌, ◌⊎◌, inl, inr, refl, sym, ap, ◌∙◌, subst,
  All,
}
use vyos_client.Json.{Value, undefined, as_string, child, is_flag_present, shown}
use vyos_client.Json.Paths.{get_path}
use vyos_client.Config.Router.{Router}
use vyos_client.Config.Router.Runs.{run_all}
use vyos_client.Config.Diff.{diff_to_ops, scalar_ops, flag_ops}
use vyos_client.Config.Diff.Effect.{Saved, paths}
use vyos_client.Config.Diff.Saved.{diff_to_ops-Saved, diff_to_ops-untouched}
use vyos_client.Config.Diff.Separate.{apart_all, separate}
use vyos_client.Config.Diff.Shown.{saved_text, shown-edited, toggled-eq-new}
use vyos_client.Firewall.RuleForm.Match.{saved_source, parse_match-saved}
use vyos_client.Firewall.Types.{FirewallFamily, ipv4, ipv6, FirewallRule, RulesetRef}
use vyos_client.Firewall.Parse.{parse_rule, parse_match, find_action, rule_path, icmp_node_name}
use vyos_client.Firewall.RuleForm.{
  RuleFormValues, blank_rule_form_values, match_to_form_values, rule_to_form_values, scalar_fields,
  flag_fields, before_values, rule_form_to_ops,
}
use vyos_client.Firewall.RuleForm.Action.{find_action-edited}
use vyos_client.Firewall.RuleForm.Paths.{rule_path-append}

-- What the form shows when the rule is opened again. The destination's MAC address has no row in
-- the table of fields, so it stays as it was.
abbrev pub saved_values : RuleFormValues → RuleFormValues → RuleFormValues
saved_values before values = record {
  action = values.action;
  jump_target = saved_text before.jump_target values.jump_target;
  protocol = saved_text before.protocol values.protocol;
  description = saved_text before.description values.description;
  disabled = values.disabled;
  log = values.log;
  source = saved_source before.source values.source;
  destination = record (saved_source before.destination values.destination) {
    mac_address = before.destination.mac_address;
  };
  inbound_interface = saved_text before.inbound_interface values.inbound_interface;
  outbound_interface = saved_text before.outbound_interface values.outbound_interface;
  icmp_type_name = saved_text before.icmp_type_name values.icmp_type_name;
}

scalar_fields-separate :
    (family : FirewallFamily) → separate (paths (scalar_fields family) flag_fields) ≡ true
unfolding icmp_node_name
scalar_fields-separate ipv4 = refl
scalar_fields-separate ipv6 = refl

destination_mac-apart :
    (family : FirewallFamily)
    → apart_all ("destination" ∷ "mac-address" ∷ []) (paths (scalar_fields family) flag_fields)
      ≡ true
unfolding icmp_node_name
destination_mac-apart ipv4 = refl
destination_mac-apart ipv6 = refl

abbrev form_of : FirewallFamily → String → Value → RuleFormValues
form_of family n raw = rule_to_form_values (parse_rule family n raw)

-- From the leaves to the form.
parse-saved_values :
    (family : FirewallFamily) (n : String) (raw raw' : Value) (before values : RuleFormValues)
    → before ≡ form_of family n raw
    → Saved (scalar_fields family) flag_fields before values raw raw'
    → get_path raw' ("destination" ∷ "mac-address" ∷ [])
      ≡ get_path raw ("destination" ∷ "mac-address" ∷ [])
    → form_of family n raw' ≡ saved_values before values
unfolding parse_rule rule_to_form_values parse_match match_to_form_values
parse-saved_values family n raw raw' before values h (scalars, (e_disable, (e_log, _))) e_d_mac =
    let (e_action, (e_jump, (e_protocol, (e_description, more_1)))) = scalars in
    let (e_s_address, (e_s_port, (e_s_mac, (e_s_ag, more_2)))) = more_1 in
    let (e_s_ng, (e_s_pg, (e_s_mg, (e_s_dg, more_3)))) = more_2 in
    let (e_d_address, (e_d_port, (e_d_ag, (e_d_ng, more_4)))) = more_3 in
    let (e_d_pg, (e_d_mg, (e_d_dg, (e_in, more_5)))) = more_4 in
    let (e_out, (e_icmp, _)) = more_5 in
    λ i. record {
      action = find_action-edited _ _ _ values.action (ap (λ f. f.action) h) e_action i;
      jump_target = shown-edited _ _ _ (values.jump_target) (ap (λ f. f.jump_target) h) e_jump i;
      protocol = shown-edited _ _ _ (values.protocol) (ap (λ f. f.protocol) h) e_protocol i;
      description =
          shown-edited _ _ _ (values.description) (ap (λ f. f.description) h) e_description i;
      disabled = toggled-eq-new _ _ _ values.disabled (ap (λ f. f.disabled) h) e_disable i;
      log = toggled-eq-new _ _ _ values.log (ap (λ f. f.log) h) e_log i;
      source =
          parse_match-saved (child raw "source") _ before.source values.source
            (saved_text before.source.mac_address values.source.mac_address) (ap (λ f. f.source) h)
            (shown-edited _ _ _ values.source.mac_address (ap (λ f. f.source.mac_address) h)
              e_s_mac)
            (e_s_address, (e_s_port, (e_s_ag, (e_s_ng, (e_s_pg, (e_s_mg, e_s_dg)))))) i;
      destination =
          parse_match-saved (child raw "destination") _ before.destination values.destination
            (before.destination.mac_address) (ap (λ f. f.destination) h)
            (ap shown e_d_mac ∙ sym (ap (λ f. f.destination.mac_address) h))
            (e_d_address, (e_d_port, (e_d_ag, (e_d_ng, (e_d_pg, (e_d_mg, e_d_dg)))))) i;
      inbound_interface =
          shown-edited _ _ _ (values.inbound_interface) (ap (λ f. f.inbound_interface) h) e_in i;
      outbound_interface =
          shown-edited _ _ _ (values.outbound_interface) (ap (λ f. f.outbound_interface) h) e_out i;
      icmp_type_name =
          shown-edited _ _ _ (values.icmp_type_name) (ap (λ f. f.icmp_type_name) h) e_icmp i;
    }

-- The form is the generic diff over the rule's node.
pub rule_form_to_ops-diff :
    (ref : RulesetRef) (n : String) (before : Option FirewallRule) (values : RuleFormValues)
    → rule_form_to_ops ref n before values
      ≡ diff_to_ops
          (rule_path ref n [])
          (scalar_fields ref.family)
          flag_fields
          (before_values before)
          values
unfolding rule_form_to_ops diff_to_ops
rule_form_to_ops-diff ref n before values =
    ap
      (λ path.
        scalar_ops path (scalar_fields ref.family) (before_values before) values
        ++ flag_ops path flag_fields (before_values before) values)
      (rule_path-append ref n)

-- What the form was opened with: the rule as it was parsed, or nothing for a number with no rule.
abbrev pub IsOpened : FirewallFamily → String → Value → Option FirewallRule → Type 0
IsOpened family n raw before =
    (before ≡ some (parse_rule family n raw)) ⊎ ((before ≡ none) × (raw ≡ undefined))

blank_form :
    (family : FirewallFamily) (n : String) → blank_rule_form_values ≡ form_of family n undefined
unfolding parse_rule rule_to_form_values parse_match match_to_form_values child as_string
    find_action is_flag_present
blank_form family n = refl

before_values-form :
    (family : FirewallFamily) (n : String) (raw : Value) (before : Option FirewallRule)
    → IsOpened family n raw before
    → before_values before ≡ form_of family n raw
unfolding before_values
before_values-form family n raw before (inl e) = rw e
before_values-form family n raw before (inr (e, absent)) = rw (e, absent) (blank_form family n)

module _ (r : Router) (s : r.State) (ref : RulesetRef) (n : String) (before : Option FirewallRule)
    (values : RuleFormValues) where
  abbrev rule_node : r.State → Value
  rule_node t = get_path (r.tree t) (rule_path ref n [])

  abbrev saved_state : r.State
  saved_state = run_all r s (rule_form_to_ops ref n before values)

  -- After its commands have run, the rule parsed at the form's number shows the action and the flags
  -- that were chosen and, in each text field, the text that was typed, trimmed where it was edited;
  -- only the destination's MAC address is not taken from the form. The form was opened on the rule
  -- that was there, or on none, and each field's node holds one value.
  pub rule_form_to_ops-round_trip :
      IsOpened ref.family n (rule_node s) before
      → All
          (λ p. r.single_valued (rule_path ref n [] ++ p) ≡ true)
          (paths (scalar_fields ref.family) flag_fields)
      → rule_to_form_values (parse_rule ref.family n (rule_node saved_state))
        ≡ saved_values (before_values before) values
  rule_form_to_ops-round_trip opened single =
      let base = rule_path ref n [] in
      let fields = scalar_fields ref.family in
      let separate' = scalar_fields-separate ref.family in
      subst
        (λ ops.
          form_of ref.family n (get_path (r.tree (run_all r s ops)) base)
          ≡ saved_values (before_values before) values)
        (sym (rule_form_to_ops-diff ref n before values))
        (parse-saved_values ref.family n (rule_node s) _ (before_values before) values
          (before_values-form ref.family n (rule_node s) before opened)
          (diff_to_ops-Saved r base fields flag_fields s (before_values before) values separate'
            single)
          (diff_to_ops-untouched r base fields flag_fields s (before_values before) values
            ("destination" ∷ "mac-address" ∷ []) (destination_mac-apart ref.family)))
