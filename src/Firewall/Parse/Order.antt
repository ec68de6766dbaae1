-- ===== src/Firewall/Parse/Order.antt =====
-- The rules are parsed in the order in which the router evaluates them.
use vyos_client.Base.{String, List, [], ◌∷◌, map, All}
use vyos_client.Base.Sorting.Ascending.{Ascending, IsNumber, number_of, sort_by-tags}
use vyos_client.Json.{Value, child}
use vyos_client.Firewall.Types.{FirewallFamily}
use vyos_client.Firewall.Parse.{parse_rule, parse_rules, record_entries}

parsed-IsNumber :
    (k : FirewallFamily) (es : List (String × Value))
    → All (λ e. IsNumber e.0) es
    → All (λ r. IsNumber r.number) (map (λ e. parse_rule k e.0 e.1) es)
unfolding parse_rule
parsed-IsNumber k [] h = tt
parsed-IsNumber k (e ∷ es) (p, h) = (p, parsed-IsNumber k es h)

-- Where every key below `rule` is a number, the firewall rules come out in ascending order of their numbers.
pub parse_rules-Ascending :
    (k : FirewallFamily) (raw : Value)
    → All (λ e. IsNumber e.0) (record_entries (child raw "rule"))
    → Ascending (λ r. number_of r.number) (parse_rules k raw)
unfolding parse_rules
parse_rules-Ascending k raw h =
    sort_by-tags (λ r. r.number) _ (parsed-IsNumber k (record_entries (child raw "rule")) h)
