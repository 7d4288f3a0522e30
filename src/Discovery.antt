-- ===== src/Discovery.antt =====
-- What the discovery service carries of an affiliate: pbAffiliate, pbEndpoints, pbOtherEndpoints and
-- specAffiliate of internal/pkg/machine/controllers/discovery_service.go, and the comparisons of
-- what was sent. Types of machine are known by their names; that the name of one is read, and
-- equality of messages, are dependencies. A slice that may be nil is an Option.

pub mod Wire
pub mod Sessions
pub mod Equality
pub mod Connecting
pub mod Published
use talemu.Prelude.{
  ℕ, zero, suc, ◌*◌, ◌^◌, ◌%◌, ◌-◌, Text, text_eq, leb, ◌==◌, Bool, true, false, not, ◌&&◌, ◌||◌,
  List, [], ◌∷◌, map, length, Option, none, some, if◌then◌else◌,
}
use talemu.Image.{is_empty}
use talemu.Affiliates.{AddrPort, Prefix, KubeSpan, AffiliateSpec}

-- pb.Endpoint, pb.IPPrefix, pb.KubeSpan and pb.Affiliate
pub record PbEndpoint : Type 0 where
  pub ip : Text
  pub port : ℕ

pub record PbPrefix : Type 0 where
  pub ip : Text
  pub bits : ℕ

pub record PbKubeSpan : Type 0 where
  pub public_key : Text
  pub address : Text
  pub additional_addresses : List PbPrefix

pub record PbAffiliate : Type 0 where
  pub node_id : Text
  pub addresses : List Text
  pub hostname : Text
  pub nodename : Text
  pub machine_type : Text
  pub operating_system : Text
  pub kube_span : Option PbKubeSpan
  pub control_plane : Option ℕ

-- kubespan.EndpointSpec, and discoveryclient.Endpoint
pub record KubeSpanEndpoint : Type 0 where
  pub affiliate_id : Text
  pub endpoint : AddrPort

pub record OtherEndpoint : Type 0 where
  pub affiliate_id : Text
  pub endpoints : Option (List PbEndpoint)

-- uint16 and uint32
abbrev pub uint16 : ℕ → ℕ
uint16 n = n % 2 ^ 16

abbrev pub uint32 : ℕ → ℕ
uint32 n = n % 2 ^ 32

-- netip.Addr.UnmarshalBinary: none, IPv4, IPv6, or IPv6 with a zone.
abbrev pub unmarshal_addr : Text → Option Text
unmarshal_addr b =
    let n = length b in
    if n == 0 then some b else if n == 4 then some b else if leb 16 n then some b else none

-- netip.Prefix.Bits: -1 of an invalid prefix, as an uint32
abbrev pub bits_of : Option ℕ → ℕ
bits_of none = 2 ^ 32 - 1
bits_of (some n) = uint32 n

abbrev pub bit_len : Text → ℕ
bit_len ip = if length ip == 0 then 0 else if length ip == 4 then 32 else 128

abbrev pub take : ℕ → Text → Text
take zero xs = []
take (suc n) [] = []
take (suc n) (x ∷ xs) = x ∷ take n xs

-- netip.PrefixFrom
abbrev pub prefix_from : Text → ℕ → Prefix
prefix_from ip n = record {
  addr = take 16 ip;
  bits = if length ip == 0 then none else if leb n (bit_len ip) then some n else none;
}

-- toPlane, fromControlPlane
abbrev pub to_plane : Option ℕ → Option ℕ
to_plane none = none
to_plane (some port) = some (uint32 port)

abbrev pub from_control_plane : Option ℕ → Option ℕ
from_control_plane none = none
from_control_plane (some port) = some port

abbrev pub pb_prefix : Prefix → PbPrefix
pb_prefix p = record { ip = p.addr; bits = bits_of p.bits }

abbrev pub pb_endpoint : AddrPort → PbEndpoint
pb_endpoint e = record { ip = e.addr; port = uint32 e.port }

-- pbAffiliate: its part of KubeSpan
abbrev pub pb_kube_span : KubeSpan → PbKubeSpan
pb_kube_span k = record {
  public_key = k.public_key;
  address = k.address;
  additional_addresses = map pb_prefix k.additional_addresses;
}

-- pbAffiliate
unfoldable pub pb_affiliate : AffiliateSpec → PbAffiliate
pb_affiliate a = record {
  node_id = a.node_id;
  addresses = a.addresses;
  hostname = a.hostname;
  nodename = a.nodename;
  machine_type = a.machine_type;
  operating_system = a.operating_system;
  kube_span = if is_empty a.kube_span.public_key then none else some (pb_kube_span a.kube_span);
  control_plane = to_plane a.control_plane;
}

-- pbEndpoints: `nil` for no endpoints
abbrev pub endpoints_or_nil : List AddrPort → Option (List PbEndpoint)
endpoints_or_nil [] = none
endpoints_or_nil (e ∷ es) = some (map pb_endpoint (e ∷ es))

-- pbEndpoints
unfoldable pub pb_endpoints : AffiliateSpec → Option (List PbEndpoint)
pb_endpoints a =
    if is_empty a.kube_span.public_key then none else endpoints_or_nil a.kube_span.endpoints

-- pbOtherEndpoints
unfoldable pub pb_other_endpoints : List KubeSpanEndpoint → Option (List OtherEndpoint)
pb_other_endpoints [] = none
pb_other_endpoints (e ∷ es) = some (
    map
      (λ x. record {
        affiliate_id = x.affiliate_id;
        endpoints = some (pb_endpoint x.endpoint ∷ []);
      })
      (e ∷ es))

-- The loops of specAffiliate, which pass over what is no address.
abbrev pub keep : {A : Type 0} → Option Text → (Text → A) → List A → List A
keep none f rest = rest
keep (some ip) f rest = f ip ∷ rest

abbrev pub spec_addresses : List Text → List Text
spec_addresses [] = []
spec_addresses (b ∷ bs) = keep (unmarshal_addr b) (λ ip. ip) (spec_addresses bs)

abbrev pub spec_prefixes : List PbPrefix → List Prefix
spec_prefixes [] = []
spec_prefixes (p ∷ ps) = keep (unmarshal_addr p.ip) (λ ip. prefix_from ip p.bits) (spec_prefixes ps)

abbrev pub spec_endpoints : List PbEndpoint → List AddrPort
spec_endpoints [] = []
spec_endpoints (e ∷ es) =
    keep (unmarshal_addr e.ip) (λ ip. record { addr = ip; port = uint16 e.port })
      (spec_endpoints es)

abbrev pub no_kube_span : KubeSpan
no_kube_span = record { public_key = []; address = []; additional_addresses = []; endpoints = [] }

abbrev pub elements : {A : Type 0} → Option (List A) → List A
elements none = []
elements (some xs) = xs

-- specAffiliate: its part of KubeSpan
abbrev pub spec_kube_span : Option PbKubeSpan → Option (List PbEndpoint) → KubeSpan
spec_kube_span none endpoints = no_kube_span
spec_kube_span (some k) endpoints = record {
  public_key = k.public_key;
  address = elim (unmarshal_addr k.address) [ none ↦ [] | some ip ↦ ip ];
  additional_addresses = spec_prefixes k.additional_addresses;
  endpoints = spec_endpoints (elements endpoints);
}

-- specAffiliate, where `parse_type` is machine.ParseType without its error
unfoldable pub spec_affiliate :
    (parse_type : Text → Text) → PbAffiliate → Option (List PbEndpoint) → AffiliateSpec
spec_affiliate parse_type a endpoints = record {
  node_id = a.node_id;
  addresses = spec_addresses a.addresses;
  hostname = a.hostname;
  nodename = a.nodename;
  operating_system = a.operating_system;
  machine_type = parse_type a.machine_type;
  kube_span = spec_kube_span a.kube_span endpoints;
  control_plane = from_control_plane a.control_plane;
}

-- proto.Equal
pub record ProtoEqual : Type 0 where
  pub endpoint : PbEndpoint → PbEndpoint → Bool
  pub affiliate : PbAffiliate → Option PbAffiliate → Bool

module _ (same : ProtoEqual) where
  -- equalEndpoints: its loop, with the comparison of the lengths
  abbrev pub all_endpoints : List PbEndpoint → List PbEndpoint → Bool
  all_endpoints [] [] = true
  all_endpoints (a ∷ more) (b ∷ others) = same.endpoint a b && all_endpoints more others
  all_endpoints _ _ = false

  -- equalEndpoints
  unfoldable pub equal_endpoints : Option (List PbEndpoint) → Option (List PbEndpoint) → Bool
  equal_endpoints none none = true
  equal_endpoints (some a) (some b) = all_endpoints a b
  equal_endpoints _ _ = false

  -- equalOtherEndpoints: its loop, with the comparison of the lengths
  abbrev pub all_others : List OtherEndpoint → List OtherEndpoint → Bool
  all_others [] [] = true
  all_others (a ∷ more) (b ∷ others) =
      text_eq a.affiliate_id b.affiliate_id
      && equal_endpoints a.endpoints b.endpoints
      && all_others more others
  all_others _ _ = false

  -- equalOtherEndpoints
  unfoldable pub equal_other_endpoints :
      Option (List OtherEndpoint) → Option (List OtherEndpoint) → Bool
  equal_other_endpoints none none = true
  equal_other_endpoints (some a) (some b) = all_others a b
  equal_other_endpoints _ _ = false
