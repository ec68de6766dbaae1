-- ===== src/Nat/RuleForm.antt =====
-- lib/natRuleForm.ts: the form of a source or destination rule and its diff.
pub mod Match
pub mod RoundTrip
use vyos_client.Base.{String, Bool, true, false, Option, none, some, List, [], ◌∷◌, ◌++◌, or_else}
use vyos_client.Config.Op.{ConfigOp, delete_node}
use vyos_client.Config.Diff.{ScalarField, FlagField, scalar_ops, flag_ops, scalar_field_ops}
use vyos_client.Nat.Types.{NatRuleKind, NatMatch, NatRule}
use vyos_client.Nat.Parse.{nat_rule_path, nat_rule_interface_path}

pub record NatMatchFormValues : Type 0 where
  pub address : String
  pub port : String
  pub address_group : String
  pub network_group : String
  pub port_group : String

pub record NatRuleFormValues : Type 0 where
  pub description : String
  pub interface_name : String
  pub protocol : String
  pub source : NatMatchFormValues
  pub destination : NatMatchFormValues
  pub translation_address : String
  pub translation_port : String
  pub redirect_port : String
  pub disabled : Bool
  pub exclude : Bool
  pub log : Bool

abbrev pub blank_match : NatMatchFormValues
blank_match = record {
  address = "";
  port = "";
  address_group = "";
  network_group = "";
  port_group = "";
}

abbrev pub blank_rule_form_values : NatRuleFormValues
blank_rule_form_values = record {
  description = "";
  interface_name = "";
  protocol = "";
  source = blank_match;
  destination = blank_match;
  translation_address = "";
  translation_port = "";
  redirect_port = "";
  disabled = false;
  exclude = false;
  log = false;
}

unfoldable pub match_to_form_values : NatMatch → NatMatchFormValues
match_to_form_values m = record {
  address = or_else m.address "";
  port = or_else m.port "";
  address_group = or_else m.address_group "";
  network_group = or_else m.network_group "";
  port_group = or_else m.port_group "";
}

unfoldable pub rule_to_form_values : NatRule → NatRuleFormValues
unfolding match_to_form_values
rule_to_form_values rule = record {
  description = or_else rule.description "";
  interface_name = or_else rule.interface_name "";
  protocol = or_else rule.protocol "";
  source = match_to_form_values rule.source;
  destination = match_to_form_values rule.destination;
  translation_address = or_else rule.translation_address "";
  translation_port = or_else rule.translation_port "";
  redirect_port = or_else rule.redirect_port "";
  disabled = rule.disabled;
  exclude = rule.exclude;
  log = rule.log;
}

abbrev pub scalar_fields : List (ScalarField NatRuleFormValues)
scalar_fields =
    record { get = λ v. v.description; segments = "description" ∷ [] }
    ∷ record { get = λ v. v.protocol; segments = "protocol" ∷ [] }
    ∷ record { get = λ v. v.source.address; segments = "source" ∷ "address" ∷ [] }
    ∷ record { get = λ v. v.source.port; segments = "source" ∷ "port" ∷ [] }
    ∷ record {
      get = λ v. v.source.address_group;
      segments = "source" ∷ "group" ∷ "address-group" ∷ [];
    }
    ∷ record {
      get = λ v. v.source.network_group;
      segments = "source" ∷ "group" ∷ "network-group" ∷ [];
    }
    ∷ record { get = λ v. v.source.port_group; segments = "source" ∷ "group" ∷ "port-group" ∷ [] }
    ∷ record { get = λ v. v.destination.address; segments = "destination" ∷ "address" ∷ [] }
    ∷ record { get = λ v. v.destination.port; segments = "destination" ∷ "port" ∷ [] }
    ∷ record {
      get = λ v. v.destination.address_group;
      segments = "destination" ∷ "group" ∷ "address-group" ∷ [];
    }
    ∷ record {
      get = λ v. v.destination.network_group;
      segments = "destination" ∷ "group" ∷ "network-group" ∷ [];
    }
    ∷ record {
      get = λ v. v.destination.port_group;
      segments = "destination" ∷ "group" ∷ "port-group" ∷ [];
    }
    ∷ record { get = λ v. v.translation_address; segments = "translation" ∷ "address" ∷ [] }
    ∷ record { get = λ v. v.translation_port; segments = "translation" ∷ "port" ∷ [] }
    ∷ record { get = λ v. v.redirect_port; segments = "translation" ∷ "redirect" ∷ "port" ∷ [] }
    ∷ []

abbrev pub flag_fields : List (FlagField NatRuleFormValues)
flag_fields =
    record { get = λ v. v.disabled; segments = "disable" ∷ [] }
    ∷ record { get = λ v. v.exclude; segments = "exclude" ∷ [] }
    ∷ record { get = λ v. v.log; segments = "log" ∷ [] }
    ∷ []

-- `before ? ruleToFormValues(before) : blankRuleFormValues()`
unfoldable pub before_values : Option NatRule → NatRuleFormValues
unfolding rule_to_form_values
before_values none = blank_rule_form_values
before_values (some rule) = rule_to_form_values rule

-- The interface has a step of its own between the two loops.
unfoldable pub nat_rule_form_to_ops :
    NatRuleKind → String → Option NatRule → NatRuleFormValues → List ConfigOp
nat_rule_form_to_ops kind rule_number before values =
    let before' = before_values before in
    scalar_ops (nat_rule_path kind rule_number) scalar_fields before' values
    ++ scalar_field_ops (nat_rule_interface_path kind rule_number ("name" ∷ []))
        before'.interface_name values.interface_name
    ++ flag_ops (nat_rule_path kind rule_number) flag_fields before' values

unfoldable pub delete_rule_op : NatRuleKind → String → ConfigOp
unfolding nat_rule_path
delete_rule_op kind rule_number = delete_node (nat_rule_path kind rule_number [])
