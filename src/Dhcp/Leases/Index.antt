-- ===== src/Dhcp/Leases/Index.antt =====
-- lib/dhcpLeases.ts: the index gives what the scan finds.
use vyos_client.Base.{
  String, Bool, true, false, ◌&&◌, ◌≡◌, refl, sym, ap, ◌∙◌, List, [], ◌∷◌, Option, none, some, any,
  find, All, eq_iff, arith, ◌==◌, Bool-cases, inl, inr, if◌then◌else◌, or_else, subst,
}
use vyos_client.Dhcp.Types.{DhcpSharedNetwork, DhcpSubnet, DhcpStaticMapping}
use vyos_client.Dhcp.Leases.{
  DhcpLease, normal_mac, has_mac, mapping_in, subnet_in, subnet_at, subnet_for_lease, resolved,
  static_mapping_index_key, set_entry, get_entry, Index, index_mac, index_mappings, index_subnets,
  index_networks, indexed_at, build_static_mapping_index, find_static_mapping,
  find_static_mapping_indexed,
}
use vyos_client.Dhcp.Leases.Keys.{HasNoNul, key-test}

-- The keys of a configuration's nodes differ, and neither a name nor a prefix has a NUL.
abbrev pub Distinct {ℓ} : {A : Type ℓ} → (A → String) → List A → Type 0
Distinct key [] = Unit
Distinct key (x ∷ xs) = (any (λ y. key y == key x) xs ≡ false) × Distinct key xs

-- No mapping has the MAC address of another in its subnet.
abbrev pub MacIsLast : List DhcpStaticMapping → Option String → Type 0
MacIsLast mappings none = Unit
MacIsLast mappings (some mac) = any (λ m. has_mac (normal_mac mac) m.mac) mappings ≡ false

abbrev pub HasDistinctMacs : List DhcpStaticMapping → Type 0
HasDistinctMacs [] = Unit
HasDistinctMacs (m ∷ mappings) = MacIsLast mappings m.mac × HasDistinctMacs mappings

abbrev pub IsSubnet : DhcpSubnet → Type 0
IsSubnet s = HasNoNul s.cidr × HasDistinctMacs s.static_mappings

pub record IsNetwork (n : DhcpSharedNetwork) : Type 0 where
  pub named : (n.name == "") ≡ false
  pub name_has_no_nul : HasNoNul n.name
  pub distinct_cidrs : Distinct (λ (s : DhcpSubnet). s.cidr) n.subnets
  pub subnets : All IsSubnet n.subnets

-- The first of two, where there is one.
abbrev or_none {ℓ} : {A : Type ℓ} → Option A → Option A → Option A
or_none none other = other
or_none (some a) other = some a

or_none-none {ℓ} : {A : Type ℓ} (o : Option A) → or_none o none ≡ o
or_none-none none = refl
or_none-none (some a) = refl

find-none {ℓ} : {A : Type ℓ} (p : A → Bool) (xs : List A) → any p xs ≡ false → find p xs ≡ none
find-none p [] h = refl
find-none p (x ∷ xs) h = elim (Bool-cases (p x)) [
  | inl e ↦ absurd (ground arith)
  | inr e ↦ rw e (find-none p xs (ground arith))
]

if_if {ℓ} :
    {A : Type ℓ} (c : Bool) (x y z : A)
    → (if c then x else y) ≡ (if c then x else if c then z else y)
if_if true x y z = refl
if_if false x y z = refl

get-set {ℓ} :
    {A : Type ℓ} (key other : String) (a : A) (entries : List (String × A))
    → get_entry key (set_entry other a entries)
      ≡ (if other == key then some a else get_entry key entries)
get-set key other a [] = refl
get-set key other a ((k, b) ∷ entries) = elim (Bool-cases (k == other)) [
  | inl e ↦
      let same : k ≡ other = (eq_iff k other).0 e in
      rw (e, same) (if_if (other == key) (some a) (get_entry key entries) (some b))
  | inr e ↦ rw e (elim (Bool-cases (k == key)) [
    | inl f ↦
        let apart : (other == key) ≡ false =
          ground (arith, eq_iff k other, eq_iff k key, eq_iff other key) in
        rw (f, apart) refl
    | inr f ↦ rw f (get-set key other a entries)
  ])
]

if_either {ℓ} : {A : Type ℓ} (c : Bool) (x : A) → x ≡ (if c then x else x)
if_either true x = refl
if_either false x = refl

-- A mapping that is set last, where no later one has its address.
one_more :
    (a b h : Bool) (m : DhcpStaticMapping) (f g : Option DhcpStaticMapping)
    → (h ≡ true → f ≡ none)
    → (if a && b
        then or_none f (if a && b && h then some m else g)
        else if a && b && h
        then some m
        else g)
      ≡ (if a && b then or_none (if h then some m else f) g else g)
one_more true true true m f g k = rw (k refl) refl
one_more true true false m f g k = refl
one_more true false h m f g k = refl
one_more false b h m f g k = refl

module _ (pool cidr mac : String) (pool_ok : HasNoNul pool) (cidr_ok : HasNoNul cidr)
    (has_text : (mac == "") ≡ false) where
  -- One mapping of one subnet.
  get-index_mac :
      (name c : String) (m : DhcpStaticMapping) (o : Option String) (index : Index)
      → HasNoNul name
      → HasNoNul c
      → get_entry (static_mapping_index_key pool cidr mac) (index_mac name c m o index) ≡ (
          if (name == pool) && (c == cidr) && has_mac mac o
          then some m
          else get_entry (static_mapping_index_key pool cidr mac) index)
  get-index_mac name c m none index h k =
      let e : ((name == pool) && (c == cidr) && false) ≡ false = ground arith in rw e refl
  get-index_mac name c m (some a) index h k = elim (Bool-cases (normal_mac a == "")) [
    | inl e ↦
        let n : (normal_mac a == mac) ≡ false =
          ground (arith, eq_iff (normal_mac a) "", eq_iff (normal_mac a) mac, eq_iff mac "") in
        let f : ((name == pool) && (c == cidr) && false) ≡ false = ground arith in rw (e, n, f) refl
    | inr e ↦
        rw
          (
            e,
            get-set (static_mapping_index_key pool cidr mac)
                (static_mapping_index_key name c (normal_mac a)) m index,
            key-test name pool c cidr (normal_mac a) mac h pool_ok k cidr_ok,
          )
          refl
  ]

  last-find :
      (mappings : List DhcpStaticMapping) (o : Option String)
      → MacIsLast mappings o
      → has_mac mac o ≡ true
      → find (λ m. has_mac mac m.mac) mappings ≡ none
  last-find mappings none h k = cc
  last-find mappings (some a) h k =
      let same : normal_mac a ≡ mac = (eq_iff (normal_mac a) mac).0 k in
      find-none (λ m. has_mac mac m.mac) mappings (rw same at h)

  -- All the mappings of one subnet.
  get-index_mappings :
      (name c : String) (mappings : List DhcpStaticMapping) (index : Index)
      → HasNoNul name
      → HasNoNul c
      → HasDistinctMacs mappings
      → get_entry (static_mapping_index_key pool cidr mac) (index_mappings name c mappings index)
        ≡ (if (name == pool) && (c == cidr)
            then or_none
                (find (λ m. has_mac mac m.mac) mappings)
                (get_entry (static_mapping_index_key pool cidr mac) index)
            else get_entry (static_mapping_index_key pool cidr mac) index)
  get-index_mappings name c [] index h k d = if_either ((name == pool) && (c == cidr)) _
  get-index_mappings name c (m ∷ mappings) index h k (l, d) =
      get-index_mappings name c mappings (index_mac name c m m.mac index) h k d
      ∙ rw (get-index_mac name c m m.mac index h k) (
          one_more (name == pool) (c == cidr) (has_mac mac m.mac) m
            (find (λ n. has_mac mac n.mac) mappings)
            (get_entry (static_mapping_index_key pool cidr mac) index) (last-find mappings m.mac l))

  one_subnet :
      (a b : Bool) (s : DhcpSubnet) (f : Option DhcpSubnet) (g : Option DhcpStaticMapping)
      → (b ≡ true → f ≡ none)
      → (if a
          then or_none
              (mapping_in mac f)
              (if a && b then or_none (mapping_in mac (some s)) g else g)
          else if a && b
          then or_none (mapping_in mac (some s)) g
          else g)
        ≡ (if a then or_none (mapping_in mac (if b then some s else f)) g else g)
  one_subnet true true s f g k = rw (k refl) refl
  one_subnet true false s f g k = refl
  one_subnet false b s f g k = refl

  -- All the subnets of one network.
  get-index_subnets :
      (name : String) (subnets : List DhcpSubnet) (index : Index)
      → HasNoNul name
      → Distinct (λ (s : DhcpSubnet). s.cidr) subnets
      → All IsSubnet subnets
      → get_entry (static_mapping_index_key pool cidr mac) (index_subnets name subnets index) ≡ (
          if name == pool
          then or_none
              (mapping_in mac (find (λ s. s.cidr == cidr) subnets))
              (get_entry (static_mapping_index_key pool cidr mac) index)
          else get_entry (static_mapping_index_key pool cidr mac) index)
  get-index_subnets name [] index h d a = if_either (name == pool) _
  get-index_subnets name (s ∷ subnets) index h (l, d) ((k, m), a) =
      get-index_subnets name subnets (index_mappings name s.cidr s.static_mappings index) h d a
      ∙ rw (get-index_mappings name s.cidr s.static_mappings index h k m) (
          one_subnet (name == pool) (s.cidr == cidr) s (find (λ t. t.cidr == cidr) subnets)
            (get_entry (static_mapping_index_key pool cidr mac) index)
            (λ e. find-none (λ t. t.cidr == cidr) subnets (rw ((eq_iff s.cidr cidr).0 e) at l)))

  -- All the networks.
  get-index_networks :
      (networks : List DhcpSharedNetwork) (index : Index)
      → Distinct (λ (n : DhcpSharedNetwork). n.name) networks
      → All IsNetwork networks
      → get_entry (static_mapping_index_key pool cidr mac) (index_networks networks index)
        ≡ or_none
            (mapping_in mac (subnet_in cidr (find (λ n. n.name == pool) networks)))
            (get_entry (static_mapping_index_key pool cidr mac) index)
  get-index_networks [] index d a = refl
  get-index_networks (n ∷ networks) index (l, d) (w, a) =
      get-index_networks networks (index_subnets n.name n.subnets index) d a
      ∙ rw (get-index_subnets n.name n.subnets index w.name_has_no_nul w.distinct_cidrs w.subnets) (
          one_network (n.name == pool) n (find (λ k. k.name == pool) networks)
            (get_entry (static_mapping_index_key pool cidr mac) index)
            (λ e. find-none (λ k. k.name == pool) networks (rw ((eq_iff n.name pool).0 e) at l)))
    where
      one_network :
          (b : Bool) (n : DhcpSharedNetwork) (f : Option DhcpSharedNetwork)
          (g : Option DhcpStaticMapping)
          → (b ≡ true → f ≡ none)
          → or_none
              (mapping_in mac (subnet_in cidr f))
              (if b then or_none (mapping_in mac (find (λ s. s.cidr == cidr) n.subnets)) g else g)
            ≡ or_none (mapping_in mac (subnet_in cidr (if b then some n else f))) g
      one_network true n f g h = rw (h refl) refl
      one_network false n f g h = refl

resolved-HasNoNul :
    (o : Option String)
    → HasNoNul (or_else o "")
    → (cidr : String) → resolved o ≡ some cidr
    → HasNoNul cidr
resolved-HasNoNul none h cidr e = cc
resolved-HasNoNul (some c) h cidr e = elim (Bool-cases (c == "")) [
  | inl z ↦ let k : ◌≡◌ {A = Option String} none (some cidr) = rw z at e in cc
  | inr z ↦
      let k : ◌≡◌ {A = Option String} (some c) (some cidr) = rw z at e in
      let same : c ≡ cidr = cc in subst HasNoNul same h
]

-- A pool that is not known has no network.
unnamed-find :
    (networks : List DhcpSharedNetwork)
    → All IsNetwork networks
    → find (λ n. n.name == "") networks ≡ none
unnamed-find [] a = refl
unnamed-find (n ∷ networks) (w, a) = rw (w.named) (unnamed-find networks a)

lookups_agree :
    (networks : List DhcpSharedNetwork) (pool mac : String) (o : Option String)
    → Distinct (λ (n : DhcpSharedNetwork). n.name) networks
    → All IsNetwork networks
    → HasNoNul pool
    → ((cidr : String) → o ≡ some cidr → HasNoNul cidr)
    → indexed_at mac pool o (build_static_mapping_index networks)
      ≡ (if mac == "" then none else mapping_in mac (subnet_at pool networks o))
unfolding build_static_mapping_index
lookups_agree networks pool mac none d a p c = if_either (mac == "") none
lookups_agree networks pool mac (some cidr) d a p c = elim (Bool-cases (mac == "")) [
  | inl z ↦ rw z refl
  | inr m ↦ elim (Bool-cases (pool == "")) [
    | inl z ↦
        let same : pool ≡ "" = (eq_iff pool "").0 z in
        rw (z, m, same)
          (ap (λ n. mapping_in mac (subnet_in cidr n)) (sym (unnamed-find networks a)))
    | inr q ↦
        rw (m, q)
          (get-index_networks pool cidr mac p (c cidr refl) m networks [] d a
            ∙ or_none-none (mapping_in mac (subnet_in cidr (find (λ n. n.name == pool) networks))))
  ]
]

-- Where names, prefixes and, in each subnet, MAC addresses differ, as the configuration's keys do, the
-- lookup in the precomputed index finds the static mapping that the scan finds, for every lease.
pub indexed-find_static_mapping :
    (lease : DhcpLease) (networks : List DhcpSharedNetwork)
    → Distinct (λ (n : DhcpSharedNetwork). n.name) networks
    → All IsNetwork networks
    → HasNoNul lease.pool
    → HasNoNul (or_else lease.subnet "")
    → find_static_mapping_indexed lease (build_static_mapping_index networks)
      ≡ find_static_mapping lease networks
unfolding find_static_mapping_indexed build_static_mapping_index find_static_mapping
    subnet_for_lease
indexed-find_static_mapping lease networks d a p c =
    lookups_agree networks lease.pool (normal_mac lease.mac_address) (resolved lease.subnet) d a p
      (resolved-HasNoNul lease.subnet c)
