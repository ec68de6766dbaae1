-- ===== src/Firewall/RuleForm/Match.antt =====
-- Saving the source or the destination of a firewall rule: lib/firewallRuleForm.ts.
use vyos_client.Base.{String, List, [], ◌∷◌, ◌≡◌, ap}
use vyos_client.Json.{Value, child, shown}
use vyos_client.Json.Paths.{get_path}
use vyos_client.Config.Diff.Effect.{edited}
use vyos_client.Config.Diff.Shown.{saved_text, shown-edited}
use vyos_client.Firewall.Parse.{parse_match}
use vyos_client.Firewall.RuleForm.{MatchFormValues, match_to_form_values}

-- What the form shows of a match when the rule is opened again.
abbrev pub saved_source : MatchFormValues → MatchFormValues → MatchFormValues
saved_source old_match new_match = record {
  address = saved_text old_match.address new_match.address;
  port = saved_text old_match.port new_match.port;
  mac_address = saved_text old_match.mac_address new_match.mac_address;
  address_group = saved_text old_match.address_group new_match.address_group;
  network_group = saved_text old_match.network_group new_match.network_group;
  port_group = saved_text old_match.port_group new_match.port_group;
  mac_group = saved_text old_match.mac_group new_match.mac_group;
  domain_group = saved_text old_match.domain_group new_match.domain_group;
}

-- The leaves of a match before and after the save, its MAC address left aside.
abbrev pub IsMatchSaved : Value → Value → MatchFormValues → MatchFormValues → Type 0
IsMatchSaved m m' before values =
    let leaf = λ (p : List String) (old_value new_value : String).
      get_path m' p ≡ edited old_value new_value (get_path m p) in
    leaf ("address" ∷ []) before.address values.address
    × (leaf ("port" ∷ []) before.port values.port
        × (leaf ("group" ∷ "address-group" ∷ []) before.address_group values.address_group
            × (leaf ("group" ∷ "network-group" ∷ []) before.network_group values.network_group
                × (leaf ("group" ∷ "port-group" ∷ []) before.port_group values.port_group
                    × (leaf ("group" ∷ "mac-group" ∷ []) before.mac_group values.mac_group
                        × leaf ("group" ∷ "domain-group" ∷ []) before.domain_group
                            values.domain_group)))))

pub parse_match-saved :
    (m m' : Value) (before values : MatchFormValues) (mac : String)
    → before ≡ match_to_form_values (parse_match m)
    → shown (child m' "mac-address") ≡ mac
    → IsMatchSaved m m' before values
    → match_to_form_values (parse_match m')
      ≡ record (saved_source before values) { mac_address = mac }
unfolding parse_match match_to_form_values
parse_match-saved m m' before values mac h e_mac
      (e_address, (e_port, (e_ag, (e_ng, (e_pg, (e_mg, e_dg)))))) =
    λ i. record {
      address = shown-edited _ _ _ values.address (ap (λ f. f.address) h) e_address i;
      port = shown-edited _ _ _ values.port (ap (λ f. f.port) h) e_port i;
      mac_address = e_mac i;
      address_group = shown-edited _ _ _ values.address_group (ap (λ f. f.address_group) h) e_ag i;
      network_group = shown-edited _ _ _ values.network_group (ap (λ f. f.network_group) h) e_ng i;
      port_group = shown-edited _ _ _ values.port_group (ap (λ f. f.port_group) h) e_pg i;
      mac_group = shown-edited _ _ _ values.mac_group (ap (λ f. f.mac_group) h) e_mg i;
      domain_group = shown-edited _ _ _ values.domain_group (ap (λ f. f.domain_group) h) e_dg i;
    }
