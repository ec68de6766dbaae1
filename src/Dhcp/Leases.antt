-- ===== src/Dhcp/Leases.antt =====
-- lib/dhcpLeases.ts and lib/vyosIdentifier.ts: leases and the static mappings that they correspond to.
-- A `Map` is the list of its entries in the order of insertion.

use Prim.Native.Char.{Char, code}
pub mod Keys
pub mod Index
use vyos_client.Base.{
  ℕ, ◌+◌, ◌-◌, ◌*◌, ◌/◌, min, String, Bool, true, false, not, ◌&&◌, ◌||◌, Option, none, some, List,
  [], ◌∷◌, ◌++◌, map, any, find, select, flat_map, length, leb, ltb, eqb, ◌==◌, if◌then◌else◌,
}
use vyos_client.Base.Text.{trim, to_lower, join}
use vyos_client.Base.Sorting.{sort_by}
use vyos_client.Dhcp.Types.{DhcpSharedNetwork, DhcpSubnet, DhcpStaticMapping, DhcpRange}

pub record DhcpLease : Type 0 where
  pub ip_address : String
  pub mac_address : String
  pub state : String
  pub lease_start : String
  pub lease_end : String
  pub remaining : String
  pub pool : String
  pub hostname : String
  pub origin : String
  pub subnet : Option String

abbrev is_alphanumeric : ℕ → Bool
is_alphanumeric c =
    (leb b'A' c && leb c b'Z') || (leb b'a' c && leb c b'z') || (leb b'0' c && leb c b'9')

abbrev is_identifier_tail : String → Bool
is_identifier_tail String.[] = true
is_identifier_tail (String.◌∷◌ c s) =
    (is_alphanumeric (code c) || eqb (code c) b'_' || eqb (code c) b'-') && is_identifier_tail s

-- `/^[A-Za-z0-9][A-Za-z0-9_-]*$/`
unfoldable pub is_valid_vyos_identifier : String → Bool
is_valid_vyos_identifier String.[] = false
is_valid_vyos_identifier (String.◌∷◌ c s) = is_alphanumeric (code c) && is_identifier_tail s

-- An absent subnet, like the empty one, is not resolved.
abbrev pub resolved : Option String → Option String
resolved none = none
resolved (some cidr) = if cidr == "" then none else some cidr

abbrev pub subnet_in : String → Option DhcpSharedNetwork → Option DhcpSubnet
subnet_in cidr none = none
subnet_in cidr (some network) = find (λ s. s.cidr == cidr) network.subnets

abbrev pub subnet_at : String → List DhcpSharedNetwork → Option String → Option DhcpSubnet
subnet_at pool shared_networks none = none
subnet_at pool shared_networks (some cidr) =
    subnet_in cidr (find (λ n. n.name == pool) shared_networks)

unfoldable pub subnet_for_lease : DhcpLease → List DhcpSharedNetwork → Option DhcpSubnet
subnet_for_lease lease shared_networks =
    subnet_at lease.pool shared_networks (resolved lease.subnet)

abbrev is_hex : ℕ → Bool
is_hex c = (leb b'0' c && leb c b'9') || (leb b'a' c && leb c b'f') || (leb b'A' c && leb c b'F')

-- `s.replace(/[^0-9a-fA-F]/g, '')`
unfoldable pub hex_digits : String → String
hex_digits String.[] = ""
hex_digits (String.◌∷◌ c s) =
    let rest = hex_digits s in if is_hex (code c) then String.◌∷◌ c rest else rest

unfoldable pub suggest_static_mapping_name : DhcpLease → String
unfolding trim to_lower join is_valid_vyos_identifier hex_digits
suggest_static_mapping_name lease =
    let hostname = trim lease.hostname in
    if not (hostname == "") && not (hostname == "-") && is_valid_vyos_identifier hostname
    then hostname
    else join "" ("device-" ∷ to_lower (hex_digits lease.mac_address) ∷ [])

abbrev mapping_names : Option DhcpSubnet → List String
mapping_names none = []
mapping_names (some subnet) = map (λ m. m.name) subnet.static_mappings

unfoldable pub existing_static_mapping_names : DhcpLease → List DhcpSharedNetwork → List String
unfolding subnet_for_lease
existing_static_mapping_names lease shared_networks =
    mapping_names (subnet_for_lease lease shared_networks)

-- `mac.trim().toLowerCase()`
unfoldable pub normal_mac : String → String
unfolding trim to_lower
normal_mac mac = to_lower (trim mac)

-- `m.mac?.trim().toLowerCase() === mac`
abbrev pub has_mac : String → Option String → Bool
has_mac mac none = false
has_mac mac (some m) = normal_mac m == mac

abbrev pub mapping_in : String → Option DhcpSubnet → Option DhcpStaticMapping
mapping_in mac none = none
mapping_in mac (some subnet) = find (λ m. has_mac mac m.mac) subnet.static_mappings

unfoldable pub find_static_mapping : DhcpLease → List DhcpSharedNetwork → Option DhcpStaticMapping
unfolding subnet_for_lease normal_mac
find_static_mapping lease shared_networks =
    if normal_mac lease.mac_address == ""
    then none
    else mapping_in (normal_mac lease.mac_address) (subnet_for_lease lease shared_networks)

unfoldable pub static_mapping_index_key : String → String → String → String
unfolding join
static_mapping_index_key pool_name cidr mac = join "\0" (pool_name ∷ cidr ∷ mac ∷ [])

-- `map.set(key, value)`: an entry with the key keeps its place.
abbrev pub set_entry {ℓ} : {A : Type ℓ} → String → A → List (String × A) → List (String × A)
set_entry key a [] = (key, a) ∷ []
set_entry key a ((k, b) ∷ entries) =
    let rest = set_entry key a entries in if k == key then (k, a) ∷ entries else (k, b) ∷ rest

-- `map.get(key)`
abbrev pub get_entry {ℓ} : {A : Type ℓ} → String → List (String × A) → Option A
get_entry key [] = none
get_entry key ((k, b) ∷ entries) =
    let rest = get_entry key entries in if k == key then some b else rest

abbrev pub Index : Type 0
Index = List (String × DhcpStaticMapping)

-- The body of the innermost loop, by `mapping.mac`.
abbrev pub index_mac : String → String → DhcpStaticMapping → Option String → Index → Index
index_mac name cidr m none index = index
index_mac name cidr m (some mac) index =
    if normal_mac mac == ""
    then index
    else set_entry (static_mapping_index_key name cidr (normal_mac mac)) m index

abbrev pub index_mappings : String → String → List DhcpStaticMapping → Index → Index
index_mappings name cidr [] index = index
index_mappings name cidr (m ∷ mappings) index =
    index_mappings name cidr mappings (index_mac name cidr m m.mac index)

abbrev pub index_subnets : String → List DhcpSubnet → Index → Index
index_subnets name [] index = index
index_subnets name (s ∷ subnets) index =
    index_subnets name subnets (index_mappings name s.cidr s.static_mappings index)

abbrev pub index_networks : List DhcpSharedNetwork → Index → Index
index_networks [] index = index
index_networks (n ∷ networks) index = index_networks networks (index_subnets n.name n.subnets index)

unfoldable pub build_static_mapping_index : List DhcpSharedNetwork → Index
unfolding static_mapping_index_key normal_mac
build_static_mapping_index shared_networks = index_networks shared_networks []

abbrev pub indexed_at : String → String → Option String → Index → Option DhcpStaticMapping
indexed_at mac pool none index = none
indexed_at mac pool (some cidr) index =
    if mac == "" || pool == ""
    then none
    else get_entry (static_mapping_index_key pool cidr mac) index

unfoldable pub find_static_mapping_indexed : DhcpLease → Index → Option DhcpStaticMapping
unfolding static_mapping_index_key normal_mac
find_static_mapping_indexed lease index =
    indexed_at (normal_mac lease.mac_address) lease.pool (resolved lease.subnet) index

abbrev pub unknown_pool_label : String
unknown_pool_label = "Unknown"

pub record DhcpLeaseGroup : Type 0 where
  pub pool : String
  pub leases : List DhcpLease

-- `lease.pool.trim() || UNKNOWN_POOL_LABEL`
abbrev pool_label : String → String
pool_label pool = if trim pool == "" then unknown_pool_label else trim pool

-- The lease goes to its pool's group, or to a new one behind the others.
abbrev add_to_group : String → DhcpLease → List DhcpLeaseGroup → List DhcpLeaseGroup
add_to_group label lease [] = record { pool = label; leases = lease ∷ [] } ∷ []
add_to_group label lease (g ∷ groups) =
    let rest = add_to_group label lease groups in
    if g.pool == label
    then record { pool = g.pool; leases = g.leases ++ lease ∷ [] } ∷ groups
    else g ∷ rest

abbrev collect : List DhcpLease → List DhcpLeaseGroup → List DhcpLeaseGroup
collect [] groups = groups
collect (lease ∷ leases) groups = collect leases (add_to_group (pool_label lease.pool) lease groups)

-- `locale_before` says that `a.localeCompare(b)` is negative, in the browser's language.
unfoldable pub group_leases_by_pool :
    (String → String → Bool) → List DhcpLease → List DhcpLeaseGroup
unfolding sort_by trim
group_leases_by_pool locale_before leases =
    sort_by (λ (g h : DhcpLeaseGroup). locale_before g.pool h.pool) (collect leases [])
