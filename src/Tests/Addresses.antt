-- ===== src/Tests/Addresses.antt =====
-- Addresses and ranges of the DHCP server.
use vyos_client.Base.{ℕ, ◌+◌, ◌<◌, true, none, some, ◌≡◌, ◌↔◌, refl}
use vyos_client.Dhcp.Ipv4.{ipv4_to_int, is_ipv4_in_range, ipv4_range_size}
use vyos_client.Dhcp.Ipv4.Ranges.{is_ipv4_in_range-size}

parses : ipv4_to_int " 10.0.0.255" ≡ some 167772415
unfolding ipv4_to_int
parses = refl

refuses_octet : ipv4_to_int "10.0.0.256" ≡ none
unfolding ipv4_to_int
refuses_octet = refl

refuses_blank : ipv4_to_int "10.0..1" ≡ none
unfolding ipv4_to_int
refuses_blank = refl

counts : ipv4_range_size "10.0.0.10" "10.0.0.19" ≡ 10
unfolding ipv4_range_size
counts = refl

is_ipv4_in_range-size_example : (is_ipv4_in_range "10.0.0.12" "10.0.0.10" "10.0.0.19" ≡ true) ↔ (
    (k : ℕ) × (ipv4_to_int "10.0.0.12" ≡ some (167772170 + k))
    × (k < ipv4_range_size "10.0.0.10" "10.0.0.19"))
unfolding ipv4_to_int
is_ipv4_in_range-size_example =
    is_ipv4_in_range-size "10.0.0.12" "10.0.0.10" "10.0.0.19" 167772170 refl
