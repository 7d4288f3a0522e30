-- ===== src/Siderolink/Endpoints.antt =====
-- The endpoint of each round, and when the provisioning service is asked again.
use talemu.Prelude.{
  Text, text_eq, text_eq_iff, text_eq_refl, true, false, List, [], ◌∷◌, none, some, if◌then◌else◌,
  ◌≢◌, length, ◌≡◌, refl, ◌⊎◌, inl, inr, arith, Bool-cases,
}
use talemu.Image.{is_empty}
use talemu.Cosi.{ok, err, not_found, State}
use talemu.Siderolink.{
  ProvisionData, Reads, Response, SiderolinkConfig, Env, World, is_unprovisioned, take_endpoint,
  node_uuid_changed, non_empty, request_of, ask, data_of,
}
use talemu.Siderolink.Rounds.{
  refused, waits, goes, provision, ensure_provisioned, pick_endpoint, select,
}

-- The endpoints of a sequence of rounds, until one does not come to an endpoint.
unfoldable pub selections :
    (s : State) → Env → List Reads → ProvisionData → World s → List Text × ProvisionData × World s
selections s env [] d w = ([], d, w)
selections s env (r ∷ rs) d w =
    let (step, d', w') = select s env r d w in
    let (eps, d'', w'') = selections s env rs d' w' in
    elim step [
      | refused ↦ ([], d', w')
      | waits ↦ ([], d', w')
      | goes x ↦ (x.endpoint ∷ eps, d'', w'')
    ]

-- In each round the system information is missing or has the UUID.
abbrev pub AreSteady : Text → List Reads → Type 0
AreSteady uuid [] = Unit
AreSteady uuid (r ∷ rs) =
    ((r.system_uuid ≡ ok uuid) ⊎ (r.system_uuid ≡ err not_found)) × AreSteady uuid rs

non_empty_lem : (t : Text) → non_empty t ≡ (if is_empty t then none else some t)
non_empty_lem [] = refl
non_empty_lem (c ∷ t) = refl

request_lem :
    (env : Env) (cfg : SiderolinkConfig) (uuid token : Text)
    → request_of env cfg uuid (some token) ≡ record {
      node_uuid = uuid;
      node_public_key = env.public_key;
      wireguard_over_grpc = if cfg.tunnel then some true else none;
      node_unique_token = some token;
      join_token = if is_empty cfg.join_token then none else some cfg.join_token;
    }
request_lem env cfg uuid token = rw (non_empty_lem cfg.join_token) refl

stale_lem :
    (d : ProvisionData) (uuid : Text)
    → (d.endpoints ≡ []) ⊎ (uuid ≢ d.node_uuid)
    → (is_unprovisioned d ≡ true) ⊎ (text_eq uuid d.node_uuid ≡ false)
unfolding is_unprovisioned
stale_lem d uuid (inl h) = inl (rw h refl)
stale_lem d uuid (inr h) = elim (Bool-cases (text_eq uuid d.node_uuid)) [
  | inl e ↦ absurd (h ((text_eq_iff uuid d.node_uuid).0 e))
  | inr e ↦ inr e
]

module _ (s : State) (env : Env) where
  -- A round of a machine that has endpoints left takes the first.
  select_steady :
      (r : Reads) (d : ProvisionData) (w : World s) (server node ep : Text) (eps : List Text)
      → env.parse_address d.server_address ≡ some server
      → env.parse_prefix d.node_address_prefix ≡ some node
      → (r.system_uuid ≡ ok d.node_uuid) ⊎ (r.system_uuid ≡ err not_found)
      → d.endpoints ≡ ep ∷ eps
      → select s env r d w ≡ (
        goes (record { server = server; node = node; endpoint = ep }),
        record d { endpoints = eps },
        w,
      )
  unfolding select node_uuid_changed is_unprovisioned ensure_provisioned pick_endpoint take_endpoint
  select_steady r d w server node ep eps p q (inl h) e = ground (arith, text_eq_refl d.node_uuid)
  select_steady r d w server node ep eps p q (inr h) e = ground arith

  -- A machine that is provisioned takes the endpoints of its provision data in their order, one in a
  -- round, until none is left, and changes neither its other data nor a resource while it selects
  -- them.  This assumes as many rounds as there are endpoints, addresses that can be parsed, and
  -- that in each round the system information is missing or has the UUID of the provision data.
  pub selections_in_order :
      (eps : List Text) (reads : List Reads) (d : ProvisionData) (w : World s) (server node : Text)
      → env.parse_address d.server_address ≡ some server
      → env.parse_prefix d.node_address_prefix ≡ some node
      → AreSteady d.node_uuid reads
      → d.endpoints ≡ eps
      → length reads ≡ length eps
      → selections s env reads d w ≡ (eps, record d { endpoints = [] }, w)
  unfolding selections
  selections_in_order [] [] d w server node p q h e l = ground arith
  selections_in_order (ep ∷ eps) [] d w server node p q h e l = ground arith
  selections_in_order [] (r ∷ rs) d w server node p q h e l = ground arith
  selections_in_order (ep ∷ eps) (r ∷ rs) d w server node p q h e l =
      let rest =
        selections_in_order eps rs (record d { endpoints = eps }) w server node p q h.1 refl
          (ground arith) in
      let one = select_steady r d w server node ep eps p q h.0 e in ground (arith, one, rest)

  select_provisions :
      (r : Reads) (d : ProvisionData) (w : World s) (cfg : SiderolinkConfig)
      (uuid token server node ep : Text) (eps : List Text) (response : Response)
      → (is_unprovisioned d ≡ true) ⊎ (text_eq uuid d.node_uuid ≡ false)
      → r.config ≡ ok cfg
      → r.system_uuid ≡ ok uuid
      → r.unique_token ≡ ok token
      → r.provision cfg.host (request_of env cfg uuid (some token)) ≡ some response
      → response.endpoints ≡ ep ∷ eps
      → env.parse_address response.server_address ≡ some server
      → env.parse_prefix response.node_address_prefix ≡ some node
      → select s env r d w ≡ (
        goes (record { server = server; node = node; endpoint = ep }),
        record (data_of cfg uuid response) { endpoints = eps },
        w,
      )
  unfolding select node_uuid_changed is_unprovisioned ensure_provisioned provision pick_endpoint
      take_endpoint ask
  select_provisions r d w cfg uuid token server node ep eps response (inl n) c u t a e p q =
      ground arith
  select_provisions r d w cfg uuid token server node ep eps response (inr n) c u t a e p q =
      elim (Bool-cases (is_empty d.endpoints)) [ inl y ↦ ground arith | inr y ↦ ground arith ]

  -- A machine that has no endpoint left, or whose UUID is not that of its provision data, asks the
  -- provisioning service with its UUID, its public key, the tunnel flag if the configuration sets
  -- it, its unique token, and the join token of the configuration if that is not empty; the rounds
  -- take the endpoints of the answer in their order, the round that asked the first, until none is
  -- left. The provision data are then those of the answer, under that UUID and with no endpoint, and
  -- no resource is changed.  This assumes that the configuration, the system information and the
  -- unique token exist in the first round, that the service answers this request with an endpoint,
  -- as many rounds as endpoints, addresses that can be parsed, and that in each later round the
  -- system information is missing or has the UUID.
  pub selections_provision :
      (r : Reads) (reads : List Reads) (d : ProvisionData) (w : World s) (cfg : SiderolinkConfig)
      (uuid token server node ep : Text) (eps : List Text) (response : Response)
      → (d.endpoints ≡ []) ⊎ (uuid ≢ d.node_uuid)
      → r.config ≡ ok cfg
      → r.system_uuid ≡ ok uuid
      → r.unique_token ≡ ok token
      → r.provision cfg.host (record {
        node_uuid = uuid;
        node_public_key = env.public_key;
        wireguard_over_grpc = if cfg.tunnel then some true else none;
        node_unique_token = some token;
        join_token = if is_empty cfg.join_token then none else some cfg.join_token;
      })
        ≡ some response
      → response.endpoints ≡ ep ∷ eps
      → env.parse_address response.server_address ≡ some server
      → env.parse_prefix response.node_address_prefix ≡ some node
      → AreSteady uuid reads
      → length reads ≡ length eps
      → selections s env (r ∷ reads) d w ≡ (
        ep ∷ eps,
        record {
          node_uuid = uuid;
          api_endpoint = cfg.api_endpoint;
          server_address = response.server_address;
          server_public_key = response.server_public_key;
          node_address_prefix = response.node_address_prefix;
          grpc_peer = response.grpc_peer;
          endpoints = [];
        },
        w,
      )
  unfolding selections
  selections_provision r reads d w cfg uuid token server node ep eps response stale c u t a e p q
        steady enough =
      let asked : r.provision cfg.host (request_of env cfg uuid (some token)) ≡ some response =
        rw (request_lem env cfg uuid token) a in
      let first =
        select_provisions r d w cfg uuid token server node ep eps response (stale_lem d uuid stale)
          c u t asked e p q in
      let later =
        selections_in_order eps reads (record (data_of cfg uuid response) { endpoints = eps }) w
          server node p q steady refl enough in
      ground (arith, first, later)
