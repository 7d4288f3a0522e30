-- ===== src/Discovery/Wire.antt =====
-- The way of an affiliate through the discovery service, and back.
use talemu.Prelude.{
  ℕ, zero, suc, ◌≤◌, ◌<◌, ◌^◌, Text, ◌==◌, Bool, true, false, List, [], ◌∷◌, map, length, Option,
  none, some, if◌then◌else◌, ◌≡◌, refl, ap, ◌∙◌, ◌⊎◌, inl, inr, arith,
}
use talemu.Image.{is_empty}
use talemu.Affiliates.{AddrPort, Prefix, KubeSpan, AffiliateSpec}
use talemu.Discovery.{
  unmarshal_addr, bits_of, bit_len, take, prefix_from, pb_prefix, pb_endpoint, pb_affiliate,
  pb_endpoints, spec_addresses, spec_prefixes, spec_endpoints, spec_affiliate, no_kube_span, uint16,
  uint32, from_control_plane, to_plane, keep, elements, endpoints_or_nil, pb_kube_span,
  spec_kube_span,
}

-- The binary form of an address.
abbrev pub IsAddr : Text → Type 0
IsAddr b = unmarshal_addr b ≡ some b

abbrev pub AreAddrs : List Text → Type 0
AreAddrs [] = Unit
AreAddrs (b ∷ bs) = IsAddr b × AreAddrs bs

-- A prefix that netip can build: of an address without a zone, with no more bits than it has.
abbrev pub IsPrefix : Prefix → Type 0
IsPrefix p =
    IsAddr p.addr
    × (length p.addr ≤ 16)
    × ((p.bits ≡ none)
        ⊎ ((n : ℕ) × (p.bits ≡ some n) × ((length p.addr == 0) ≡ false) × (n ≤ bit_len p.addr)))

abbrev pub ArePrefixes : List Prefix → Type 0
ArePrefixes [] = Unit
ArePrefixes (p ∷ ps) = IsPrefix p × ArePrefixes ps

abbrev pub AreEndpoints : List AddrPort → Type 0
AreEndpoints [] = Unit
AreEndpoints (e ∷ es) = (IsAddr e.addr × (e.port < 2 ^ 16)) × AreEndpoints es

-- What the types of Go make sure of: the addresses are addresses, and the port of the API server,
-- an int, is one of 32 bits.
abbrev pub IsTyped : AffiliateSpec → Type 0
IsTyped a =
    AreAddrs a.addresses
    × IsAddr a.kube_span.address
    × ArePrefixes a.kube_span.additional_addresses
    × AreEndpoints a.kube_span.endpoints
    × ((p : ℕ) → a.control_plane ≡ some p → p < 2 ^ 32)

take_all : (n : ℕ) (xs : Text) → length xs ≤ n → take n xs ≡ xs
take_all zero [] h = refl
take_all (suc n) [] h = refl
take_all zero (x ∷ xs) h = absurd (omega arith)
take_all (suc n) (x ∷ xs) h = ap (λ t. x ∷ t) (take_all n xs (omega arith))

bit_len_le : (ip : Text) → bit_len ip ≤ 128
bit_len_le ip = ground arith

keep_lem :
    {A : Type 0} (o : Option Text) (b : Text) (f : Text → A) (x : A) (xs ys : List A)
    → o ≡ some b
    → f b ≡ x
    → xs ≡ ys
    → keep o f xs ≡ x ∷ ys
keep_lem none b f x xs ys h e r = cc
keep_lem (some c) b f x xs ys h e r = cc

prefix_eq :
    (p : Prefix) (a : Text) (b : Option ℕ)
    → a ≡ p.addr
    → b ≡ p.bits
    → record { addr = a; bits = b } ≡ p
prefix_eq p a b e f = cc

prefix_bits : (p : Prefix) → IsPrefix p → (prefix_from p.addr (bits_of p.bits)).bits ≡ p.bits
prefix_bits p (a, l, b) = elim b [
  | inl n ↦ ground (arith, bit_len_le p.addr)
  | inr (n, s, z, w) ↦ ground (arith, bit_len_le p.addr)
]

prefix_from-bits_of : (p : Prefix) → IsPrefix p → prefix_from p.addr (bits_of p.bits) ≡ p
prefix_from-bits_of p h =
    prefix_eq p (take 16 p.addr) (prefix_from p.addr (bits_of p.bits)).bits (take_all 16 p.addr h.1)
      (prefix_bits p h)

endpoint_eq :
    (e : AddrPort) → e.port < 2 ^ 16 → record { addr = e.addr; port = uint16 (uint32 e.port) } ≡ e
endpoint_eq e h = ap (λ n. record { addr = e.addr; port = n }) (omega arith)

spec_addresses_lem : (bs : List Text) → AreAddrs bs → spec_addresses bs ≡ bs
spec_addresses_lem [] h = refl
spec_addresses_lem (b ∷ bs) h =
    keep_lem (unmarshal_addr b) b (λ ip. ip) b (spec_addresses bs) bs h.0 refl
      (spec_addresses_lem bs h.1)

spec_prefixes_lem : (ps : List Prefix) → ArePrefixes ps → spec_prefixes (map pb_prefix ps) ≡ ps
spec_prefixes_lem [] h = refl
spec_prefixes_lem (p ∷ ps) h =
    keep_lem (unmarshal_addr p.addr) p.addr (λ ip. prefix_from ip (bits_of p.bits)) p
      (spec_prefixes (map pb_prefix ps)) ps h.0.0 (prefix_from-bits_of p h.0)
      (spec_prefixes_lem ps h.1)

spec_endpoints_lem :
    (es : List AddrPort) → AreEndpoints es → spec_endpoints (map pb_endpoint es) ≡ es
spec_endpoints_lem [] h = refl
spec_endpoints_lem (e ∷ es) h =
    keep_lem (unmarshal_addr e.addr) e.addr
      (λ ip. record { addr = ip; port = uint16 (uint32 e.port) }) e
      (spec_endpoints (map pb_endpoint es)) es h.0.0 (endpoint_eq e h.0.1)
      (spec_endpoints_lem es h.1)

from-to_plane :
    (p : Option ℕ) → ((n : ℕ) → p ≡ some n → n < 2 ^ 32) → from_control_plane (to_plane p) ≡ p
from-to_plane none h = refl
from-to_plane (some n) h = let small : n < 2 ^ 32 = h n refl in ap (λ k. some k) (omega arith)

-- What is left of the part of KubeSpan.
abbrev pub carried : KubeSpan → KubeSpan
carried k = if is_empty k.public_key then no_kube_span else k

elements-endpoints_or_nil :
    (es : List AddrPort) → elements (endpoints_or_nil es) ≡ map pb_endpoint es
elements-endpoints_or_nil [] = refl
elements-endpoints_or_nil (e ∷ es) = refl

kube_span_eq :
    (k : KubeSpan) (a : Text) (ps : List Prefix) (es : List AddrPort)
    → a ≡ k.address
    → ps ≡ k.additional_addresses
    → es ≡ k.endpoints
    → record { public_key = k.public_key; address = a; additional_addresses = ps; endpoints = es }
      ≡ k
kube_span_eq k a ps es e f g = cc

address_lem : (o : Option Text) (b : Text) → o ≡ some b → (elim o [ none ↦ [] | some ip ↦ ip ]) ≡ b
address_lem none b h = cc
address_lem (some c) b h = cc

spec_kube_span_lem :
    (k : KubeSpan)
    → IsAddr k.address
    → ArePrefixes k.additional_addresses
    → AreEndpoints k.endpoints
    → (b : Bool)
    → spec_kube_span
        (if b then none else some (pb_kube_span k))
        (if b then none else endpoints_or_nil k.endpoints)
      ≡ (if b then no_kube_span else k)
spec_kube_span_lem k a ps es true = refl
spec_kube_span_lem k a ps es false =
    kube_span_eq k (elim (unmarshal_addr k.address) [ none ↦ [] | some ip ↦ ip ])
      (spec_prefixes (map pb_prefix k.additional_addresses))
      (spec_endpoints (elements (endpoints_or_nil k.endpoints)))
      (address_lem (unmarshal_addr k.address) k.address a)
      (spec_prefixes_lem k.additional_addresses ps)
      (ap spec_endpoints (elements-endpoints_or_nil k.endpoints)
        ∙ spec_endpoints_lem k.endpoints es)

affiliate_eq :
    (a : AffiliateSpec) (as' : List Text) (t : Text) (k k' : KubeSpan) (c : Option ℕ)
    → as' ≡ a.addresses
    → t ≡ a.machine_type
    → k ≡ k'
    → c ≡ a.control_plane
    → record {
      node_id = a.node_id;
      addresses = as';
      hostname = a.hostname;
      nodename = a.nodename;
      operating_system = a.operating_system;
      machine_type = t;
      kube_span = k;
      control_plane = c;
    }
      ≡ record a { kube_span = k' }
affiliate_eq a as' t k k' c e f g h = cc

-- What a machine sends of its affiliate is read by the others as the same affiliate, less the
-- addresses and endpoints of KubeSpan where the public key is empty.  This assumes that the
-- affiliate has the ranges of its Go types, a port of 32 bits, and a type of machine whose name is
-- read back.
pub spec_affiliate-pb_affiliate :
    (parse_type : Text → Text) (a : AffiliateSpec)
    → IsTyped a
    → parse_type a.machine_type ≡ a.machine_type
    → spec_affiliate parse_type (pb_affiliate a) (pb_endpoints a)
      ≡ record a { kube_span = carried a.kube_span }
unfolding spec_affiliate pb_affiliate pb_endpoints
spec_affiliate-pb_affiliate parse_type a (as', k, ps, es, c) t =
    affiliate_eq a (spec_addresses a.addresses) (parse_type a.machine_type)
      (spec_kube_span
        (if is_empty a.kube_span.public_key then none else some (pb_kube_span a.kube_span))
        (if is_empty a.kube_span.public_key then none else endpoints_or_nil a.kube_span.endpoints))
      (carried a.kube_span) (from_control_plane (to_plane a.control_plane))
      (spec_addresses_lem a.addresses as') t
      (spec_kube_span_lem a.kube_span k ps es (is_empty a.kube_span.public_key))
      (from-to_plane a.control_plane c)
