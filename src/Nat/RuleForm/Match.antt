-- ===== src/Nat/RuleForm/Match.antt =====
-- Saving the source or the destination of a NAT rule: lib/natRuleForm.ts.
use vyos_client.Base.{String, List, [], ◌∷◌, ◌≡◌, ap}
use vyos_client.Json.{Value}
use vyos_client.Json.Paths.{get_path}
use vyos_client.Config.Diff.Effect.{edited}
use vyos_client.Config.Diff.Shown.{saved_text, shown-edited}
use vyos_client.Nat.Parse.{parse_match}
use vyos_client.Nat.RuleForm.{NatMatchFormValues, match_to_form_values}

-- What the form shows of a match when the rule is opened again.
abbrev pub saved_match : NatMatchFormValues → NatMatchFormValues → NatMatchFormValues
saved_match before values = record {
  address = saved_text before.address values.address;
  port = saved_text before.port values.port;
  address_group = saved_text before.address_group values.address_group;
  network_group = saved_text before.network_group values.network_group;
  port_group = saved_text before.port_group values.port_group;
}

-- The leaves of a match before and after the save.
abbrev pub IsMatchSaved : Value → Value → NatMatchFormValues → NatMatchFormValues → Type 0
IsMatchSaved m m' before values =
    let leaf = λ (p : List String) (old_value new_value : String).
      get_path m' p ≡ edited old_value new_value (get_path m p) in
    leaf ("address" ∷ []) before.address values.address
    × (leaf ("port" ∷ []) before.port values.port
        × (leaf ("group" ∷ "address-group" ∷ []) before.address_group values.address_group
            × (leaf ("group" ∷ "network-group" ∷ []) before.network_group values.network_group
                × leaf ("group" ∷ "port-group" ∷ []) before.port_group values.port_group)))

pub parse_match-saved :
    (m m' : Value) (before values : NatMatchFormValues)
    → before ≡ match_to_form_values (parse_match m)
    → IsMatchSaved m m' before values
    → match_to_form_values (parse_match m') ≡ saved_match before values
unfolding parse_match match_to_form_values
parse_match-saved m m' before values h
      (e_address, (e_port, (e_address_group, (e_network_group, e_port_group)))) =
    λ i. record {
      address = shown-edited _ _ _ values.address (ap (λ f. f.address) h) e_address i;
      port = shown-edited _ _ _ values.port (ap (λ f. f.port) h) e_port i;
      address_group =
          shown-edited _ _ _ values.address_group (ap (λ f. f.address_group) h) e_address_group i;
      network_group =
          shown-edited _ _ _ values.network_group (ap (λ f. f.network_group) h) e_network_group i;
      port_group = shown-edited _ _ _ values.port_group (ap (λ f. f.port_group) h) e_port_group i;
    }
