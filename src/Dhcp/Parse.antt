-- ===== src/Dhcp/Parse.antt =====
-- lib/dhcpConfigParse.ts: from the JSON tree of `service dhcp-server` to the shared networks, and the
-- paths of their nodes. `localeCompare`, without options and with `numeric`, is an argument.
use vyos_client.Base.{ℕ, String, Bool, Option, none, some, List, ◌∷◌, map}
use vyos_client.Base.Number.{to_number}
use vyos_client.Base.Sorting.{sort_by}
use vyos_client.Json.{Value, as_string, as_array, child, is_flag_present}
use vyos_client.Firewall.Parse.{record_entries}
use vyos_client.Dhcp.Types.{
  DhcpOptions, DhcpRange, DhcpStaticMapping, DhcpSubnet, DhcpSharedNetwork,
}

-- A number of the configuration is a text of digits. It is exact here, where JavaScript rounds numbers
-- above 2^53.
unfoldable pub as_number : Value → Option ℕ
as_number v = elim (as_string v) [ none ↦ none | some s ↦ to_number s ]

unfoldable pub parse_options : Value → DhcpOptions
parse_options raw =
    let root = child raw "option" in
    record {
      default_router = as_string (child root "default-router");
      name_servers = as_array (child root "name-server");
      domain_name = as_string (child root "domain-name");
      ntp_servers = as_array (child root "ntp-server");
      domain_search = as_array (child root "domain-search");
    }

parse_range : String → Value → DhcpRange
parse_range id raw = record {
  id = id;
  start = as_string (child raw "start");
  stop = as_string (child raw "stop");
}

unfoldable pub parse_static_mapping : String → Value → DhcpStaticMapping
parse_static_mapping name raw = record {
  name = name;
  mac = as_string (child raw "mac");
  duid = as_string (child raw "duid");
  ip_address = as_string (child raw "ip-address");
}

module _ (locale_before numeric_before : String → String → Bool) where
  unfoldable pub parse_ranges : Value → List DhcpRange
  unfolding parse_range record_entries
  parse_ranges subnet_raw =
      sort_by (λ a b. numeric_before a.id b.id)
        (map (λ e. parse_range e.0 e.1) (record_entries (child subnet_raw "range")))

  unfoldable pub parse_static_mappings : Value → List DhcpStaticMapping
  unfolding parse_static_mapping record_entries
  parse_static_mappings subnet_raw =
      sort_by (λ a b. locale_before a.name b.name)
        (map (λ e. parse_static_mapping e.0 e.1)
          (record_entries (child subnet_raw "static-mapping")))

  -- One entry of `parseSubnets`.
  unfoldable pub parse_subnet : String → Value → DhcpSubnet
  unfolding as_number parse_options parse_ranges parse_static_mappings
  parse_subnet cidr raw = record {
    cidr = cidr;
    subnet_id = as_string (child raw "subnet-id");
    lease = as_number (child raw "lease");
    options = parse_options raw;
    ranges = parse_ranges raw;
    excludes = as_array (child raw "exclude");
    static_mappings = parse_static_mappings raw;
  }

  unfoldable pub parse_subnets : Value → List DhcpSubnet
  unfolding parse_subnet record_entries
  parse_subnets network_raw =
      sort_by (λ a b. locale_before a.cidr b.cidr)
        (map (λ e. parse_subnet e.0 e.1) (record_entries (child network_raw "subnet")))

  -- One entry of `parseSharedNetworks`.
  unfoldable pub parse_shared_network : String → Value → DhcpSharedNetwork
  unfolding parse_options parse_subnets
  parse_shared_network name raw = record {
    name = name;
    authoritative = is_flag_present raw "authoritative";
    options = parse_options raw;
    subnets = parse_subnets raw;
  }

  unfoldable pub parse_shared_networks : Value → List DhcpSharedNetwork
  unfolding parse_shared_network record_entries
  parse_shared_networks dhcp_server =
      sort_by (λ a b. locale_before a.name b.name)
        (map (λ e. parse_shared_network e.0 e.1)
          (record_entries (child dhcp_server "shared-network-name")))

unfoldable pub shared_network_path : String → List String → List String
shared_network_path name rest = "service" ∷ "dhcp-server" ∷ "shared-network-name" ∷ name ∷ rest

unfoldable pub subnet_path : String → String → List String → List String
unfolding shared_network_path
subnet_path network_name cidr rest = shared_network_path network_name ("subnet" ∷ cidr ∷ rest)

unfoldable pub range_path : String → String → String → List String → List String
unfolding subnet_path
range_path network_name cidr range_id rest =
    subnet_path network_name cidr ("range" ∷ range_id ∷ rest)

unfoldable pub static_mapping_path : String → String → String → List String → List String
unfolding subnet_path
static_mapping_path network_name cidr mapping_name rest =
    subnet_path network_name cidr ("static-mapping" ∷ mapping_name ∷ rest)
