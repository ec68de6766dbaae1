-- ===== src/Tests/Lookups.antt =====
-- Log lines and static mappings at concrete values.
use vyos_client.Base.{
  ℕ, ◌-◌, String, false, none, some, List, [], ◌∷◌, ◌++◌, ◌≡◌, refl, arith, length, take, eqb,
  if◌then◌else◌,
}
use vyos_client.Logs.{Entry, longest_suffix_prefix_overlap, merge_log_lines, fall_back, fill, zeros}
use vyos_client.Logs.Fill.{Covers, Stops, Filled, fall_back-Stops, fill-Filled, Filled-zeros}
use vyos_client.Logs.Overlap.{IsLongest, overlap-IsLongest, merge_log_lines-IsLongest}
use vyos_client.Dhcp.Types.{DhcpSharedNetwork, DhcpSubnet, DhcpStaticMapping, DhcpOptions}
use vyos_client.Dhcp.Leases.{
  DhcpLease, find_static_mapping, find_static_mapping_indexed, build_static_mapping_index,
}
use vyos_client.Dhcp.Leases.Index.{IsNetwork, indexed-find_static_mapping}
use vyos_client.Dhcp.Leases.Keys.{HasNoNul}

abbrev shown : List String
shown = "a" ∷ "b" ∷ "a" ∷ "b" ∷ []

abbrev fetched : List String
fetched = "a" ∷ "b" ∷ "c" ∷ []

overlap-IsLongest_example : IsLongest shown fetched (longest_suffix_prefix_overlap shown fetched)
overlap-IsLongest_example = overlap-IsLongest shown fetched

merge_log_lines-IsLongest_example :
    (k : ℕ) × IsLongest shown fetched k
    × (merge_log_lines shown fetched
        ≡ (if eqb k 0 then fetched else take (length shown - k) shown ++ fetched))
merge_log_lines-IsLongest_example = merge_log_lines-IsLongest shown fetched

abbrev entries : List Entry
entries = some "a" ∷ some "a" ∷ some "b" ∷ []

-- The array after the first round.
unfoldable array : List ℕ
unfolding fill
array = fill 1 entries 1 (zeros 3)

array-Filled : Filled entries array 2
unfolding array
array-Filled =
    fill-Filled entries 1 (zeros 3) 1 (omega arith) (omega arith)
      (Filled-zeros entries 3 (omega arith))

array-Covers : Covers entries 2 1
unfolding array
array-Covers = let (b, longest) = array-Filled 1 (omega arith) in (b, λ k bk e. longest k bk)

fall_back-Stops_example :
    Covers entries 2 (fall_back 1 entries array 2 1)
    × Stops entries 2 (fall_back 1 entries array 2 1)
fall_back-Stops_example =
    fall_back-Stops entries 1 array 2 1 (omega arith) array-Filled array-Covers

abbrev printer : DhcpStaticMapping
printer = record {
  name = "printer";
  mac = some "00:11:22:33:44:AA";
  duid = none;
  ip_address = some "10.0.0.5";
}

abbrev no_options : DhcpOptions
no_options = record {
  default_router = none;
  name_servers = [];
  domain_name = none;
  ntp_servers = [];
  domain_search = [];
}

abbrev office : DhcpSubnet
office = record {
  cidr = "10.0.0.0/24";
  subnet_id = none;
  lease = none;
  options = no_options;
  ranges = [];
  excludes = [];
  static_mappings = printer ∷ [];
}

abbrev lan : DhcpSharedNetwork
lan = record { name = "LAN"; authoritative = false; options = no_options; subnets = office ∷ [] }

abbrev lease : DhcpLease
lease = record {
  ip_address = "10.0.0.5";
  mac_address = "00:11:22:33:44:aa";
  state = "active";
  lease_start = "";
  lease_end = "";
  remaining = "";
  pool = "LAN";
  hostname = "-";
  origin = "local";
  subnet = some "10.0.0.0/24";
}

finds_printer : find_static_mapping lease (lan ∷ []) ≡ some printer
unfolding find_static_mapping
finds_printer = refl

lan_no_nul : HasNoNul "LAN"
lan_no_nul = (refl, (refl, (refl, tt)))

cidr_no_nul : HasNoNul "10.0.0.0/24"
cidr_no_nul =
    (refl, (refl, (refl, (refl, (refl, (refl, (refl, (refl, (refl, (refl, (refl, tt)))))))))))

lan-IsNetwork : IsNetwork lan
lan-IsNetwork = record {
  named = refl;
  name_has_no_nul = lan_no_nul;
  distinct_cidrs = (refl, tt);
  subnets = ((cidr_no_nul, (refl, tt)), tt);
}

indexed-find_static_mapping_example :
    find_static_mapping_indexed lease (build_static_mapping_index (lan ∷ []))
    ≡ find_static_mapping lease (lan ∷ [])
indexed-find_static_mapping_example =
    indexed-find_static_mapping lease (lan ∷ []) (refl, tt) (lan-IsNetwork, tt) lan_no_nul
      cidr_no_nul
