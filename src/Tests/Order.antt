-- ===== src/Tests/Order.antt =====
-- Parsing rules that come in the order of their texts.
use vyos_client.Base.{[], ◌∷◌, ◌≡◌, refl, map}
use vyos_client.Base.Sorting.{sort_by}
use vyos_client.Json.{Value, obj, field, empty_obj, child}
use vyos_client.Firewall.Types.{FirewallFamily}
use vyos_client.Firewall.Parse.{parse_rules, record_entries, parse_rule}

-- Ten stands before nine.
abbrev by_text : Value
by_text = obj (
    field "rule" (obj (field "10" (obj empty_obj) (field "9" (obj empty_obj) empty_obj))) empty_obj)

sorts : map (λ r. r.number) (parse_rules FirewallFamily.ipv4 by_text) ≡ "9" ∷ "10" ∷ []
unfolding parse_rules parse_rule record_entries child sort_by
sorts = refl
