-- ===== src/Dhcp/Form.antt =====
-- lib/dhcpConfigForm.ts: the forms of a shared network, of a subnet and of a static mapping. The
-- fields that an interface gets by `extends` are its field `options`.
pub mod NetworkRoundTrip
pub mod SubnetRoundTrip
pub mod MappingRoundTrip
use vyos_client.Base.{
  ℕ, String, Bool, true, false, Option, none, some, List, [], ◌∷◌, ◌++◌, or_else,
}
use vyos_client.Base.Number.{show}
use vyos_client.Config.Op.{ConfigOp}
use vyos_client.Config.Diff.{ScalarField, FlagField, diff_to_ops}
use vyos_client.Dhcp.Types.{DhcpOptions, DhcpStaticMapping, DhcpSubnet, DhcpSharedNetwork}
use vyos_client.Dhcp.Parse.{shared_network_path, subnet_path, static_mapping_path}

pub record DhcpOptionsFormValues : Type 0 where
  pub default_router : String
  pub domain_name : String

abbrev pub blank_options_form_values : DhcpOptionsFormValues
blank_options_form_values = record { default_router = ""; domain_name = "" }

unfoldable pub options_to_form_values : DhcpOptions → DhcpOptionsFormValues
options_to_form_values options = record {
  default_router = or_else options.default_router "";
  domain_name = or_else options.domain_name "";
}

-- The same table for each of the forms that extend the options.
abbrev pub options_scalar_fields : (V : Type 0) → (V → DhcpOptionsFormValues) → List (ScalarField V)
options_scalar_fields V options =
    record { get = λ v. (options v).default_router; segments = "option" ∷ "default-router" ∷ [] }
    ∷ record { get = λ v. (options v).domain_name; segments = "option" ∷ "domain-name" ∷ [] }
    ∷ []

pub record SharedNetworkFormValues : Type 0 where
  pub options : DhcpOptionsFormValues
  pub authoritative : Bool

abbrev pub blank_shared_network_form_values : SharedNetworkFormValues
blank_shared_network_form_values = record {
  options = blank_options_form_values;
  authoritative = false;
}

unfoldable pub shared_network_to_form_values : DhcpSharedNetwork → SharedNetworkFormValues
unfolding options_to_form_values
shared_network_to_form_values network = record {
  options = options_to_form_values network.options;
  authoritative = network.authoritative;
}

abbrev pub shared_network_flag_fields : List (FlagField SharedNetworkFormValues)
shared_network_flag_fields =
    record { get = λ v. v.authoritative; segments = "authoritative" ∷ [] } ∷ []

-- The values of the form as it was opened.
unfoldable pub shared_network_before : Option DhcpSharedNetwork → SharedNetworkFormValues
unfolding shared_network_to_form_values
shared_network_before none = blank_shared_network_form_values
shared_network_before (some before) = shared_network_to_form_values before

unfoldable pub shared_network_form_to_ops :
    String → Option DhcpSharedNetwork → SharedNetworkFormValues → List ConfigOp
shared_network_form_to_ops name before values =
    diff_to_ops (shared_network_path name [])
      (options_scalar_fields SharedNetworkFormValues (λ v. v.options)) shared_network_flag_fields
      (shared_network_before before) values

pub record SubnetFormValues : Type 0 where
  pub options : DhcpOptionsFormValues
  pub subnet_id : String
  pub lease : String

abbrev pub blank_subnet_form_values : SubnetFormValues
blank_subnet_form_values = record {
  options = blank_options_form_values;
  subnet_id = "";
  lease = "";
}

-- `subnet.lease !== undefined ? String(subnet.lease) : ''`
unfoldable pub lease_text : Option ℕ → String
lease_text none = ""
lease_text (some n) = show n

unfoldable pub subnet_to_form_values : DhcpSubnet → SubnetFormValues
unfolding lease_text options_to_form_values
subnet_to_form_values subnet = record {
  options = options_to_form_values subnet.options;
  subnet_id = or_else subnet.subnet_id "";
  lease = lease_text subnet.lease;
}

abbrev pub subnet_scalar_fields : List (ScalarField SubnetFormValues)
subnet_scalar_fields =
    options_scalar_fields SubnetFormValues (λ v. v.options)
    ++ record { get = λ v. v.subnet_id; segments = "subnet-id" ∷ [] }
      ∷ record { get = λ v. v.lease; segments = "lease" ∷ [] }
      ∷ []

-- The values of the form as it was opened.
unfoldable pub subnet_before : Option DhcpSubnet → SubnetFormValues
unfolding subnet_to_form_values
subnet_before none = blank_subnet_form_values
subnet_before (some before) = subnet_to_form_values before

unfoldable pub subnet_form_to_ops :
    String → String → Option DhcpSubnet → SubnetFormValues → List ConfigOp
subnet_form_to_ops network_name cidr before values =
    diff_to_ops (subnet_path network_name cidr []) subnet_scalar_fields [] (subnet_before before)
      values

pub record StaticMappingFormValues : Type 0 where
  pub mac : String
  pub duid : String
  pub ip_address : String

abbrev pub blank_static_mapping_form_values : StaticMappingFormValues
blank_static_mapping_form_values = record { mac = ""; duid = ""; ip_address = "" }

unfoldable pub static_mapping_to_form_values : DhcpStaticMapping → StaticMappingFormValues
static_mapping_to_form_values mapping = record {
  mac = or_else mapping.mac "";
  duid = or_else mapping.duid "";
  ip_address = or_else mapping.ip_address "";
}

abbrev pub static_mapping_scalar_fields : List (ScalarField StaticMappingFormValues)
static_mapping_scalar_fields =
    record { get = λ v. v.mac; segments = "mac" ∷ [] }
    ∷ record { get = λ v. v.duid; segments = "duid" ∷ [] }
    ∷ record { get = λ v. v.ip_address; segments = "ip-address" ∷ [] }
    ∷ []

-- The values of the form as it was opened.
unfoldable pub static_mapping_before : Option DhcpStaticMapping → StaticMappingFormValues
unfolding static_mapping_to_form_values
static_mapping_before none = blank_static_mapping_form_values
static_mapping_before (some before) = static_mapping_to_form_values before

unfoldable pub static_mapping_form_to_ops :
    String → String → String → Option DhcpStaticMapping → StaticMappingFormValues → List ConfigOp
static_mapping_form_to_ops network_name cidr mapping_name before values =
    diff_to_ops (static_mapping_path network_name cidr mapping_name []) static_mapping_scalar_fields
      [] (static_mapping_before before) values
