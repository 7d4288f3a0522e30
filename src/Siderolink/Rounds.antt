-- ===== src/Siderolink/Rounds.antt =====
-- Run of internal/pkg/machine/controllers/siderolink.go: provisioning, the choice of the endpoint,
-- and what a round writes.
use talemu.Prelude.{
  ℕ, Text, text_eq, Bool, true, false, not, List, [], ◌∷◌, Option, none, some, leb, if◌then◌else◌,
}
use talemu.Cosi.{Phase, Outcome, ok, err, State, is_not_found}
use talemu.Links.{LinkSpec, kind_wireguard, empty_spec}
use talemu.Siderolink.{
  ProvisionData, no_data, Reads, Env, AddressSpec, Tunnel, Owned, World, controller_name,
  is_unprovisioned, take_endpoint, node_uuid_changed, ask, data_of, cleanup, fails,
}

-- wgctrl.Client.Device: no device, an error, or the times since the handshakes of its peers.
pub data DeviceRead : Type 0 where
  missing : DeviceRead
  unreadable : DeviceRead
  device : List ℕ → DeviceRead

-- shouldReconnect: `none` is an error.
unfoldable pub should_reconnect : ℕ → DeviceRead → Option Bool
should_reconnect down_interval missing = some false
should_reconnect down_interval unreadable = none
should_reconnect down_interval (device []) = none
should_reconnect down_interval (device (since ∷ [])) = some (leb down_interval since)
should_reconnect down_interval (device (since ∷ other ∷ more)) = none

-- What a step of a round comes to: an error, the end of the round, or more to do.
pub data Step (A : Type 0) : Type 0 where
  refused : Step A
  waits : Step A
  goes : A → Step A

-- The link spec that a round writes.
abbrev pub link_spec : Env → ProvisionData → Text → Text → LinkSpec
link_spec env d server endpoint = record {
  id = env.link_id;
  phase = Phase.running;
  name = env.interface;
  logical = text_eq d.grpc_peer [];
  up = true;
  mtu = env.link_mtu;
  kind = kind_wireguard;
  link_type = env.link_none;
  wireguard = record {
    private_key = env.private_key;
    public_key = [];
    listen_port = 0;
    firewall_mark = 0;
    peers =
        record {
          public_key = d.server_public_key;
          preshared_key = [];
          endpoint = endpoint;
          keepalive = env.keepalive;
          allowed_ips = env.host_prefix server ∷ [];
        }
        ∷ [];
  };
}

-- The addresses and the endpoint of a round.
pub record Selection : Type 0 where
  pub server : Text
  pub node : Text
  pub endpoint : Text

abbrev no_link : Owned LinkSpec
no_link = record {
  owner = [];
  spec = record {
    id = [];
    phase = Phase.running;
    name = [];
    logical = false;
    up = false;
    mtu = 0;
    kind = [];
    link_type = 0;
    wireguard = empty_spec;
  };
}

abbrev no_address : Owned AddressSpec
no_address = record { owner = []; spec = record { address = []; link_name = [] } }

module _ (s : State) where
  -- provision
  unfoldable pub provision : Env → Reads → World s → Step ProvisionData × World s
  provision env reads w = elim reads.config [
    | err e ↦
        let (b, w') = cleanup s [] [] w in
        if is_not_found e then (if b then (waits, w') else (refused, w')) else (refused, w)
    | ok cfg ↦ elim reads.system_uuid [
      | err e ↦ if is_not_found e then (waits, w) else (refused, w)
      | ok uuid ↦ elim (ask env reads cfg uuid) [
        | none ↦ (refused, w)
        | some response ↦ (goes (data_of cfg uuid response), w)
      ]
    ]
  ]

  -- Run: the provision data of the round; what is kept of them stands beside the result.
  unfoldable pub ensure_provisioned :
      Env → Reads → ProvisionData → World s → Step (Unit {0}) × ProvisionData × World s
  unfolding provision
  ensure_provisioned env reads d w =
      let (step, w') = provision env reads w in
      if is_unprovisioned d
      then elim step [
        | refused ↦ (refused, d, w')
        | waits ↦ (waits, d, w')
        | goes d' ↦ (goes tt, d', w')
      ]
      else (goes tt, d, w)

  -- Run: the two addresses and the endpoint that is taken
  unfoldable pub pick_endpoint : Env → ProvisionData → Step Selection × ProvisionData
  pick_endpoint env d = elim (env.parse_address d.server_address) [
    | none ↦ (refused, d)
    | some server ↦ elim (env.parse_prefix d.node_address_prefix) [
      | none ↦ (refused, d)
      | some node ↦ elim (take_endpoint d) [
        | none ↦ (refused, d)
        | some taken ↦ (goes (record { server = server; node = node; endpoint = taken.0 }), taken.1)
      ]
    ]
  ]

  -- Run: from the test of the UUID to the endpoint
  unfoldable pub select :
      Env → Reads → ProvisionData → World s → Step Selection × ProvisionData × World s
  unfolding ensure_provisioned
  select env reads d w = elim (node_uuid_changed d reads) [
    | none ↦ (refused, d, w)
    | some changed ↦
        let (step, d', w') = ensure_provisioned env reads (if changed then no_data else d) w in
        elim step [
          | refused ↦ (refused, d', w')
          | waits ↦ (waits, d', w')
          | goes u ↦ let (picked, d'') = pick_endpoint env d' in (picked, d'', w')
        ]
  ]

  abbrev pub succeeds : {A : Type 0} → Outcome A → Bool
  succeeds (ok a) = true
  succeeds (err e) = false

  -- Run: the link spec
  unfoldable pub write_link : Env → ProvisionData → Selection → World s → Bool × World s
  write_link env d x w =
      let spec : Owned LinkSpec = record {
        owner = controller_name;
        spec = link_spec env d x.server x.endpoint;
      } in
      let (r, c) = s.modify w.links env.link_id no_link (λ old. (spec, tt)) in
      (succeeds r, record w { links = c })

  -- Run: the address spec
  unfoldable pub write_address : Env → ProvisionData → Selection → World s → Bool × World s
  write_address env d x w =
      let spec : Owned AddressSpec = record {
        owner = controller_name;
        spec = record { address = x.node; link_name = env.interface };
      } in
      let (r, c) = s.modify w.addresses (env.address_id x.node) no_address (λ old. (spec, tt)) in
      (succeeds r, record w { addresses = c })

  -- Run: the tunnel
  unfoldable pub write_tunnel : Env → ProvisionData → World s → Bool × World s
  write_tunnel env d w =
      if text_eq d.grpc_peer []
      then (
        not (fails (s.destroy w.tunnels env.tunnel_id).0),
        record w { tunnels = (s.destroy w.tunnels env.tunnel_id).1 },
      )
      else elim (env.parse_addr_port d.grpc_peer) [
        | none ↦ (false, w)
        | some our_address ↦
            let tunnel : Tunnel = record {
              api_endpoint = d.api_endpoint;
              link_name = env.interface;
              mtu = env.link_mtu;
              node_address = our_address;
            } in
            let (r, c) = s.modify w.tunnels env.tunnel_id tunnel (λ old. (tunnel, tt)) in
            (succeeds r, record w { tunnels = c })
      ]

  -- Run: what a round writes, each step only where there was no error
  unfoldable pub write_specs : Env → ProvisionData → Selection → World s → Bool × World s
  unfolding write_link write_address write_tunnel
  write_specs env d x w =
      let (b1, w1) = write_link env d x w in
      let (b2, w2) = write_address env d x w1 in
      let (b3, w3) = write_tunnel env d w2 in
      if not b1
      then (false, w1)
      else if not b2
      then (false, w2)
      else if not b3
      then (false, w3)
      else cleanup s (env.link_id ∷ []) (env.address_id x.node ∷ []) w3

  -- Run: one round
  unfoldable pub round :
      Env → Reads → ProvisionData → World s → Step (Unit {0}) × ProvisionData × World s
  unfolding select write_specs
  round env reads d w =
      let (step, d', w') = select env reads d w in
      elim step [
        | refused ↦ (refused, d', w')
        | waits ↦ (waits, d', w')
        | goes x ↦
            let (b, w'') = write_specs env d' x w' in (if b then goes tt else refused, d', w'')
      ]
