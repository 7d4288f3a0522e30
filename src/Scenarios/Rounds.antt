-- ===== src/Scenarios/Rounds.antt =====
-- The SideroLink manager of a machine with two endpoints.
use talemu.Prelude.{
  ◌++◌, Text, codes, text_eq, true, false, [], ◌∷◌, none, some, ◌≡◌, ◌≢◌, refl, inl, inr, arith,
  ◌==◌, ◌⊎◌,
}
use talemu.Cosi.{ok, err, not_found}
use talemu.Cosi.InMemory.{in_memory}
use talemu.Links.{LinkMessage, kind_wireguard, find_link, is_up, run_round}
use talemu.Siderolink.{ProvisionData, SiderolinkConfig, Response, Reads, Env, World, data_of}
use talemu.Siderolink.Rounds.{link_spec}
use talemu.Siderolink.Endpoints.{selections, selections_in_order, selections_provision}
use talemu.Siderolink.Link.{IsReadable, siderolink_comes_up}
use talemu.Scenarios.{empty}
use talemu.Scenarios.Kernel.{slots, plain, plain_codec, shown, slots-IsWorking, plain-IsSound}
use talemu.Scenarios.Links.{two_slots}

abbrev env : Env
env = record {
  private_key = codes "own";
  public_key = codes "own-public";
  interface = codes "siderolink";
  link_mtu = 1280;
  keepalive = 25;
  link_none = 65534;
  parse_address = some;
  parse_prefix = some;
  parse_addr_port = some;
  host_prefix = λ a. a ++ codes "/128";
  link_id = codes "operator/siderolink";
  address_id = λ a. a;
  tunnel_id = codes "tunnel";
}

abbrev config : SiderolinkConfig
config = record {
  host = codes "omni";
  api_endpoint = codes "https://omni";
  join_token = codes "join";
  tunnel = false;
}

abbrev answer : Response
answer = record {
  server_address = codes "fd00::1";
  server_public_key = codes "omni";
  node_address_prefix = codes "fd00::2/64";
  grpc_peer = [];
  endpoints = codes "10.0.0.1:50180" ∷ codes "10.0.0.2:50180" ∷ [];
}

abbrev uuid : Text
uuid = codes "c0ffee"

abbrev reads : Reads
reads = record {
  config = ok config;
  system_uuid = ok uuid;
  unique_token = ok (codes "unique");
  provision = λ host r. some answer;
}

abbrev provisioned : ProvisionData
provisioned = data_of config uuid answer

abbrev world : World in_memory
world = record { links = empty _; addresses = empty _; tunnels = empty _ }

selections_in_order_example :
    selections in_memory env
      (reads ∷ record reads { system_uuid = err not_found } ∷ [])
      provisioned
      world
    ≡ (answer.endpoints, record provisioned { endpoints = [] }, world)
selections_in_order_example =
    selections_in_order in_memory env answer.endpoints
      (reads ∷ record reads { system_uuid = err not_found } ∷ []) provisioned world
      (codes "fd00::1") (codes "fd00::2/64") refl refl (inl refl, (inr refl, tt)) refl refl

-- The machine was provisioned under another UUID.
abbrev renamed : ProvisionData
renamed = record provisioned { node_uuid = codes "dead"; server_address = codes "fd00::9" }

renamed-uuid : uuid ≢ renamed.node_uuid
renamed-uuid h = ground arith

selections_provision_example :
    selections in_memory env
      (reads ∷ record reads { system_uuid = err not_found } ∷ [])
      renamed
      world
    ≡ (answer.endpoints, record provisioned { endpoints = [] }, world)
selections_provision_example =
    selections_provision in_memory env reads (record reads { system_uuid = err not_found } ∷ [])
      renamed world config uuid (codes "unique") (codes "fd00::1") (codes "fd00::2/64")
      (codes "10.0.0.1:50180") (codes "10.0.0.2:50180" ∷ []) answer (inr renamed-uuid) refl refl
      refl refl refl refl refl (inr refl, tt) refl

readable : IsReadable plain env provisioned (codes "fd00::1") (codes "10.0.0.1:50180")
unfolding plain_codec
readable = record { key = refl; server_key = refl; endpoint = refl; sorts = refl }

has_kind : (m : LinkMessage) → find_link env.interface (shown two_slots) ≡ some m → m.info ≢ none
unfolding text_eq find_link
has_kind m e f = ground arith

siderolink_comes_up_example :
    let end =
      run_round slots plain
        (link_spec env provisioned (codes "fd00::1") (codes "10.0.0.1:50180") ∷ [])
        two_slots in
    (end.1 ≡ true)
    × ((m : LinkMessage) × (find_link env.interface (shown end.0) ≡ some m)
        × (m.info ≡ some kind_wireguard)
        × (is_up m ≡ true)
        × (((env.link_mtu == 0) ≡ true) ⊎ (m.mtu ≡ env.link_mtu)))
    × ((n : Text)
        → text_eq env.interface n ≡ false
        → find_link n (shown end.0) ≡ find_link n (shown two_slots))
siderolink_comes_up_example =
    siderolink_comes_up slots plain shown slots-IsWorking plain-IsSound env provisioned
      (codes "fd00::1") (codes "10.0.0.1:50180") two_slots refl readable has_kind
