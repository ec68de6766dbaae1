-- ===== src/Firewall/RuleForm/Paths.antt =====
-- A rule's fields lie below the rule's own node.
use vyos_client.Base.{String, List, [], ◌∷◌, ◌++◌, ◌≡◌, refl}
use mathlib.Core.Path.{fun_ext}
use vyos_client.Firewall.Types.{RulesetRef, RulesetKind, base, custom, FirewallFamily}
use vyos_client.Firewall.Parse.{kind_path, rule_path}

kind_path-append :
    (kind : RulesetKind) (id : String) (family : FirewallFamily) (p q : List String)
    → kind_path kind id family (p ++ q) ≡ kind_path kind id family p ++ q
unfolding kind_path
kind_path-append base id family p q = refl
kind_path-append custom id family p q = refl

pub rule_path-append :
    (ref : RulesetRef) (n : String) → rule_path ref n ≡ (λ rest. rule_path ref n [] ++ rest)
unfolding rule_path
rule_path-append ref n =
    fun_ext (λ rest. kind_path-append ref.kind ref.id ref.family ("rule" ∷ n ∷ []) rest)
