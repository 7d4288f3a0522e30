-- ===== src/Siderolink.antt =====
-- The SideroLink manager: internal/pkg/machine/controllers/siderolink.go. Reads of a round, the
-- provisioning service, the parsers of addresses and the constants of SideroLink are arguments;
-- logging is left out.
pub mod Rounds
pub mod Endpoints
pub mod Link
use talemu.Prelude.{
  ℕ, Text, codes, text_eq, Bool, true, false, not, List, [], ◌∷◌, Option, none, some, leb, ◌==◌,
  if◌then◌else◌,
}
use talemu.Image.{is_empty}
use talemu.Cosi.{Phase, StateError, Outcome, ok, err, Resource, State, is_not_found}
use talemu.Wireguard.{Peer, WireguardSpec}
use talemu.Links.{LinkSpec, kind_wireguard}

-- provisionData
pub record ProvisionData : Type 0 where
  pub node_uuid : Text
  pub api_endpoint : Text
  pub server_address : Text
  pub server_public_key : Text
  pub node_address_prefix : Text
  pub grpc_peer : Text
  pub endpoints : List Text

abbrev pub no_data : ProvisionData
no_data = record {
  node_uuid = [];
  api_endpoint = [];
  server_address = [];
  server_public_key = [];
  node_address_prefix = [];
  grpc_peer = [];
  endpoints = [];
}

-- siderolink.ConfigSpec, pb.ProvisionRequest and pb.ProvisionResponse
pub record SiderolinkConfig : Type 0 where
  pub host : Text
  pub api_endpoint : Text
  pub join_token : Text
  pub tunnel : Bool

pub record Request : Type 0 where
  pub node_uuid : Text
  pub node_public_key : Text
  pub wireguard_over_grpc : Option Bool
  pub node_unique_token : Option Text
  pub join_token : Option Text

pub record Response : Type 0 where
  pub server_address : Text
  pub server_public_key : Text
  pub node_address_prefix : Text
  pub grpc_peer : Text
  pub endpoints : List Text

-- What a round reads, and the provisioning service as it answers then.
pub record Reads : Type 0 where
  pub config : Outcome SiderolinkConfig
  pub system_uuid : Outcome Text
  pub unique_token : Outcome Text
  pub provision : Text → Request → Option Response

-- What does not change between rounds: the key of the node, its interface, the constants
-- wireguard.LinkMTU, constants.SideroLinkDefaultPeerKeepalive and nethelpers.LinkNone, the parsers
-- of package netip, and the IDs of the resources.
pub record Env : Type 0 where
  pub private_key : Text
  pub public_key : Text
  pub interface : Text
  pub link_mtu : ℕ
  pub keepalive : ℕ
  pub link_none : ℕ
  pub parse_address : Text → Option Text
  pub parse_prefix : Text → Option Text
  pub parse_addr_port : Text → Option Text
  pub host_prefix : Text → Text  -- netip.PrefixFrom(addr, addr.BitLen())
  pub link_id : Text
  pub address_id : Text → Text
  pub tunnel_id : Text

-- network.AddressSpecSpec and siderolink.TunnelSpec, as far as the manager sets them
pub record AddressSpec : Type 0 where
  pub address : Text
  pub link_name : Text

pub record Tunnel : Type 0 where
  pub api_endpoint : Text
  pub link_name : Text
  pub mtu : ℕ
  pub node_address : Text

-- A spec with the owner of its resource.
pub record Owned (A : Type 0) : Type 0 where
  pub owner : Text
  pub spec : A

pub record World (s : State) : Type 0 where
  pub links : s.Coll (Owned LinkSpec)
  pub addresses : s.Coll (Owned AddressSpec)
  pub tunnels : s.Coll Tunnel

-- Name
abbrev pub controller_name : Text
controller_name = codes "siderolink.ManagerController"

-- provisionData.IsEmpty
unfoldable pub is_unprovisioned : ProvisionData → Bool
is_unprovisioned d = is_empty d.endpoints

-- TakeEndpoint
unfoldable pub take_endpoint : ProvisionData → Option (Text × ProvisionData)
take_endpoint d = elim d.endpoints [
  | [] ↦ none
  | ep ∷ eps ↦ some (ep, record d { endpoints = eps })
]

-- PeekNextEndpoint
unfoldable pub peek_next_endpoint : ProvisionData → Text
peek_next_endpoint d = elim d.endpoints [ [] ↦ [] | ep ∷ eps ↦ ep ]

-- nodeUUIDChanged: `none` is an error.
unfoldable pub node_uuid_changed : ProvisionData → Reads → Option Bool
unfolding is_unprovisioned
node_uuid_changed d reads = if is_unprovisioned d then some false else elim reads.system_uuid [
  | ok uuid ↦ some (not (text_eq uuid d.node_uuid))
  | err e ↦ if is_not_found e then some false else none
]

abbrev pub non_empty : Text → Option Text
non_empty [] = none
non_empty (c ∷ t) = some (c ∷ t)

-- provision: the request
abbrev pub request_of : Env → SiderolinkConfig → Text → Option Text → Request
request_of env cfg uuid token = record {
  node_uuid = uuid;
  node_public_key = env.public_key;
  wireguard_over_grpc = if cfg.tunnel then some true else none;
  node_unique_token = token;
  join_token = non_empty cfg.join_token;
}

-- provision: the closure that asks the service
unfoldable pub ask : Env → Reads → SiderolinkConfig → Text → Option Response
ask env reads cfg uuid = elim reads.unique_token [
  | ok token ↦ reads.provision cfg.host (request_of env cfg uuid (some token))
  | err e ↦ if is_not_found e then reads.provision cfg.host (request_of env cfg uuid none) else none
]

abbrev pub data_of : SiderolinkConfig → Text → Response → ProvisionData
data_of cfg uuid r = record {
  node_uuid = uuid;
  api_endpoint = cfg.api_endpoint;
  server_address = r.server_address;
  server_public_key = r.server_public_key;
  node_address_prefix = r.node_address_prefix;
  grpc_peer = r.grpc_peer;
  endpoints = r.endpoints;
}

abbrev member : Text → List Text → Bool
member i [] = false
member i (j ∷ js) = if text_eq i j then true else member i js

-- An error that is not state.IsNotFoundError
abbrev pub fails : Outcome (Unit {0}) → Bool
fails (ok u) = false
fails (err e) = not (is_not_found e)

-- The cleanups: a result of false is an error.
module _ (s : State) where
  -- cleanupLinkSpecs: the loop
  unfoldable pub destroy_links :
      List Text
      → List (Resource (Owned LinkSpec))
      → s.Coll (Owned LinkSpec)
      → Bool × s.Coll (Owned LinkSpec)
  destroy_links keep [] c = (true, c)
  destroy_links keep (r ∷ rs) c =
      let (result, c') = s.destroy c r.id in
      let skipped = destroy_links keep rs c in
      let destroyed = destroy_links keep rs c' in
      if not (text_eq r.value.owner controller_name)
      then skipped
      else if member r.id keep
      then skipped
      else if fails result
      then (false, c')
      else destroyed

  -- cleanupLinkSpecs
  unfoldable pub cleanup_link_specs : List Text → World s → Bool × World s
  unfolding destroy_links
  cleanup_link_specs keep w = elim (s.list w.links) [
    | err e ↦ (false, w)
    | ok rs ↦ let (b, c) = destroy_links keep rs w.links in (b, record w { links = c })
  ]

  -- cleanupAddressSpecs: the loop
  unfoldable pub destroy_addresses :
      List Text
      → List (Resource (Owned AddressSpec))
      → s.Coll (Owned AddressSpec)
      → Bool × s.Coll (Owned AddressSpec)
  destroy_addresses keep [] c = (true, c)
  destroy_addresses keep (r ∷ rs) c =
      let (torn, c1) = s.teardown c r.id in
      let (result, c2) = s.destroy c1 r.id in
      let skipped = destroy_addresses keep rs c in
      let waiting = destroy_addresses keep rs c1 in
      let destroyed = destroy_addresses keep rs c2 in
      if not (text_eq r.value.owner controller_name)
      then skipped
      else if member r.id keep
      then skipped
      else elim torn [
        | ok ready ↦ if ready then (if fails result then (false, c2) else destroyed) else waiting
        | err e ↦ if is_not_found e then waiting else (false, c1)
      ]

  -- cleanupAddressSpecs
  unfoldable pub cleanup_address_specs : List Text → World s → Bool × World s
  unfolding destroy_addresses
  cleanup_address_specs keep w = elim (s.list w.addresses) [
    | err e ↦ (false, w)
    | ok rs ↦ let (b, c) = destroy_addresses keep rs w.addresses in (b, record w { addresses = c })
  ]

  -- cleanup
  unfoldable pub cleanup : List Text → List Text → World s → Bool × World s
  unfolding cleanup_link_specs cleanup_address_specs
  cleanup links addresses w =
      let (b, w') = cleanup_link_specs links w in
      if b then cleanup_address_specs addresses w' else (false, w')
