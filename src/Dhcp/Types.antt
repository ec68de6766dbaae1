-- ===== src/Dhcp/Types.antt =====
-- lib/dhcpConfigTypes.ts. An optional field is an `Option`.
use vyos_client.Base.{ℕ, String, Bool, Option, List}

pub record DhcpOptions : Type 0 where
  pub default_router : Option String
  pub name_servers : List String
  pub domain_name : Option String
  pub ntp_servers : List String
  pub domain_search : List String

pub record DhcpRange : Type 0 where
  pub id : String
  pub start : Option String
  pub stop : Option String

pub record DhcpStaticMapping : Type 0 where
  pub name : String
  pub mac : Option String
  pub duid : Option String
  pub ip_address : Option String

pub record DhcpSubnet : Type 0 where
  pub cidr : String
  pub subnet_id : Option String
  pub lease : Option ℕ
  pub options : DhcpOptions
  pub ranges : List DhcpRange
  pub excludes : List String
  pub static_mappings : List DhcpStaticMapping

pub record DhcpSharedNetwork : Type 0 where
  pub name : String
  pub authoritative : Bool
  pub options : DhcpOptions
  pub subnets : List DhcpSubnet
