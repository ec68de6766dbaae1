-- ===== src/Dhcp/Ipv4.antt =====
-- lib/ipv4.ts: dotted-quad addresses as numbers, and lib/dhcpPoolUtilization.ts: the size of a pool,
-- what is left of it, and whether an address lies in a dynamic range. The percentage of the bar is
-- computed on floating point numbers and is left out.
pub mod Ranges
use Prim.Native.Char.{Char, code}
use Prim.Native.String.{[], ◌∷◌}
use vyos_client.Base.{
  ℕ, suc, ◌+◌, ◌-◌, ◌*◌, String, Bool, true, false, not, ◌&&◌, Option, none, some, List, map, ◌==◌,
  if◌then◌else◌, ltb, leb, eqb, any, length, select, flat_map,
}
use vyos_client.Base.Text.{trim}
use vyos_client.Base.Number.{to_number}
use vyos_client.Dhcp.Types.{DhcpRange, DhcpSubnet, DhcpSharedNetwork}

-- `s.split('.')`
push : Char → List String → List String
push c List.[] = List.◌∷◌ (c ∷ []) List.[]
push c (List.◌∷◌ p ps) = List.◌∷◌ (c ∷ p) ps

unfoldable pub split_dots : String → List String
unfolding push
split_dots [] = List.◌∷◌ [] List.[]
split_dots (c ∷ s) =
    let rest = split_dots s in if eqb (code c) b'.' then List.◌∷◌ [] rest else push c rest

text_length : String → ℕ
text_length [] = 0
text_length (c ∷ s) = suc (text_length s)

all_digits : String → Bool
all_digits [] = true
all_digits (c ∷ s) = leb b'0' (code c) && leb (code c) b'9' && all_digits s

-- `/^\d{1,3}$/`
unfoldable pub is_octet_text : String → Bool
unfolding text_length all_digits
is_octet_text s = leb 1 (text_length s) && leb (text_length s) 3 && all_digits s

-- One round of the loop; the result so far, or the early return.
unfoldable pub add_octet : ℕ → String → Option ℕ
unfolding is_octet_text to_number
add_octet result part = if not (is_octet_text part) then none else elim (to_number part) [
  | none ↦ none
  | some octet ↦ if ltb 255 octet then none else some (result * 256 + octet)
]

unfoldable pub octets : ℕ → List String → Option ℕ
unfolding add_octet
octets result List.[] = some result
octets result (List.◌∷◌ part parts) = elim (add_octet result part) [
  | none ↦ none
  | some more ↦ octets more parts
]

unfoldable pub ipv4_to_int : String → Option ℕ
unfolding split_dots octets trim
ipv4_to_int address =
    if eqb (length (split_dots (trim address))) 4
    then octets 0 (split_dots (trim address))
    else none

range_size : Option ℕ → Option ℕ → ℕ
range_size (some start) (some stop) = if ltb stop start then 0 else stop - start + 1
range_size _ _ = 0

unfoldable pub ipv4_range_size : String → String → ℕ
unfolding range_size ipv4_to_int
ipv4_range_size start stop = range_size (ipv4_to_int start) (ipv4_to_int stop)

is_some : Option ℕ → Bool
is_some none = false
is_some (some n) = true

unfoldable pub is_valid_ipv4 : String → Bool
unfolding is_some ipv4_to_int
is_valid_ipv4 address = is_some (ipv4_to_int address)

in_range : Option ℕ → Option ℕ → Option ℕ → Bool
in_range (some addr) (some start) (some stop) = leb start addr && leb addr stop
in_range _ _ _ = false

unfoldable pub is_ipv4_in_range : String → String → String → Bool
unfolding in_range ipv4_to_int
is_ipv4_in_range address start stop =
    in_range (ipv4_to_int address) (ipv4_to_int start) (ipv4_to_int stop)

-- `range.start && range.stop ? ipv4RangeSize(range.start, range.stop) : 0`
size_of_range : Option String → Option String → ℕ
unfolding ipv4_range_size
size_of_range (some start) (some stop) =
    if start == "" then 0 else if stop == "" then 0 else ipv4_range_size start stop
size_of_range _ _ = 0

abbrev sum : List ℕ → ℕ
sum List.[] = 0
sum (List.◌∷◌ n ns) = n + sum ns

unfoldable pub pool_size : DhcpSharedNetwork → ℕ
unfolding size_of_range
pool_size network =
    sum (map (λ r. size_of_range r.start r.stop) (flat_map (λ s. s.ranges) network.subnets))

-- The pools of the leases are what the count reads.
unfoldable pub leased_count : DhcpSharedNetwork → List String → ℕ
leased_count network pools = length (select (λ pool. pool == network.name) pools)

-- `Math.max(size - leased, 0)`, which the subtraction of natural numbers is
unfoldable pub available_count : DhcpSharedNetwork → List String → ℕ
unfolding pool_size leased_count
available_count network pools = pool_size network - leased_count network pools

covers : String → Option String → Option String → Bool
unfolding is_ipv4_in_range
covers address (some start) (some stop) = is_ipv4_in_range address start stop
covers address _ _ = false

unfoldable pub is_address_in_dynamic_range : String → List DhcpRange → List String → Bool
unfolding covers trim
is_address_in_dynamic_range address ranges excludes =
    let trimmed = trim address in
    if trimmed == ""
    then false
    else if any (λ ex. trim ex == trimmed) excludes
    then false
    else any (λ r. covers trimmed r.start r.stop) ranges
