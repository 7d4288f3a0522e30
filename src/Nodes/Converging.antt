-- ===== src/Nodes/Converging.antt =====
-- One round of the node controller after another.
use talemu.Prelude.{
  ℕ, Text, text_eq, text_eq_iff, text_eq_refl, Bool, true, false, [], ◌∷◌, Option, none, some,
  if◌then◌else◌, ◌≡◌, ◌≢◌, refl, ap, sym, ◌∙◌, ◌⊎◌, inl, inr, arith, Bool-cases, Option-cases,
}
use talemu.Cosi.{ok}
use talemu.Image.{is_empty}
use talemu.Nodes.{
  Labels, input_version_label, NodeConfig, VersionSpec, NodeSpec, NodeStatus, if_found,
  compute_node_status,
}
use talemu.Nodes.Rounds.{
  Node, Api, Nodename, NodeReads, has_label, World, kubeconfig, get_client, register, node_labels,
  join, node_round,
}
use talemu.Nodes.Registered.{IsApi, IsRegistered, register_new, register_again}

-- What a round of the node controller reads where every read succeeds and the machine stays.
pub record Joins (api : Api) (reads : NodeReads) : Type 0 where
  pub config : NodeConfig
  pub nodename : Nodename
  pub kubeconfig_read : Text
  pub client : api.Client
  pub hostname : Option Text
  pub version : Option VersionSpec
  pub status : NodeStatus
  pub reads_config : reads.config ≡ ok config
  pub stays : config.is_torn_down ≡ false
  pub reads_nodename : reads.nodename ≡ ok nodename
  pub is_named : is_empty nodename.name ≡ false
  pub reads_kubeconfig : kubeconfig api reads config ≡ ok kubeconfig_read
  pub builds : api.build kubeconfig_read ≡ some client
  pub adds : reads.adds_finalizer ≡ true
  pub reads_hostname : if_found reads.hostname ≡ some hostname
  pub reads_version : if_found reads.version ≡ some version
  pub computes : compute_node_status reads.hardware config hostname version ≡ some status

abbrev labels_in : Labels → Option Node → Labels
labels_in d none = d
labels_in d (some x) = x.labels

abbrev status_or : NodeStatus → Option Node → NodeStatus
status_or d none = d
status_or d (some x) = x.status

module _ (api : Api) (view : api.State → Text → Option Node) (laws : IsApi api view) where
  -- The client that is kept is that of the kubeconfig that is kept.
  abbrev pub IsCached : World api → Type 0
  IsCached w = (cl : api.Client) → w.client ≡ some cl → api.build w.config ≡ some cl

  -- The client that a round uses is that of the kubeconfig that it reads.
  get_client_lem :
      (reads : NodeReads) (c : NodeConfig) (k : Text) (built : api.Client) (w : World api)
      → IsCached w
      → kubeconfig api reads c ≡ ok k
      → api.build k ≡ some built
      → (w' : World api) × (get_client api reads c w ≡ (w', ok built))
        × (w'.nodes ≡ w.nodes)
        × (w'.client ≡ some built)
        × IsCached w'
  unfolding get_client
  get_client_lem reads c k built w h e b = elim (Option-cases w.client) [
    | inl n ↦ (
      record w { client = some built; config = k },
      ground (arith, e, b, n),
      refl,
      refl,
      λ cl q. b ∙ q,
    )
    | inr (cl, q) ↦ elim (Bool-cases (text_eq w.config k)) [
      | inl y ↦
          let same : some cl ≡ some built =
            sym (h cl q) ∙ ap (λ t. api.build t) ((text_eq_iff w.config k).0 y) ∙ b in
          (w, ground (arith, e, b, q, y, same), refl, q ∙ same, h)
      | inr y ↦ (
        record w { client = some built; config = k },
        ground (arith, e, b, q, y),
        refl,
        refl,
        λ cl' q'. b ∙ q',
      )
    ]
  ]

  abbrev pub labels_of : (machine : Text) {reads : NodeReads} → Joins api reads → Labels
  labels_of machine j = node_labels api machine j.nodename j.config j.hostname j.version

  round_registers :
      (machine : Text) (reads : NodeReads) (j : Joins api reads) (w : World api)
      → IsCached w
      → (w' : World api) × (node_round api machine reads w
          ≡ register api machine j.nodename
              (record {
                pod_cidr = j.config.pod_cidr;
                pod_cidrs = j.config.pod_cidr ∷ j.config.pod_cidrs;
              })
              j.status
              (labels_of machine j)
              j.client
              w')
        × (w'.nodes ≡ w.nodes)
        × IsCached w'
  unfolding node_round join
  round_registers machine reads j w h =
      let (w', e, n, c, k) =
        get_client_lem reads j.config j.kubeconfig_read j.client w h j.reads_kubeconfig j.builds in
      (
        record w' { has_finalizer = true },
        ground (
          arith, j.reads_config, j.reads_nodename, e, j.stays, j.adds, j.reads_hostname,
          j.reads_version, j.computes,
        ),
        n,
        k,
      )

  -- A round registers the node, or fails after it has updated the status.
  abbrev Registers :
      Text → {reads : NodeReads} → Joins api reads → World api → World api × Bool → Type 0
  Registers machine j w (w', b) =
      ((b ≡ true) × IsRegistered (view w'.nodes) machine j.nodename j.status (labels_of machine j))
      ⊎ ((b ≡ false)
          × ((y : Node) × (view w.nodes j.nodename.name ≡ some y)
              × (y.status ≢ j.status)
              × ((v : Option ℕ) × ((i : Text)
                    → view w'.nodes i ≡ (
                        if text_eq j.nodename.name i
                        then some (record y { status = j.status; version = v })
                        else view w.nodes i)))))

  has_input_version :
      (machine : Text) (reads : NodeReads) (j : Joins api reads)
      → has_label input_version_label j.nodename.version (labels_of machine j) ≡ true
  unfolding text_eq
  has_input_version machine reads j = text_eq_refl j.nodename.version

  one_round :
      (machine : Text) (reads : NodeReads) (j : Joins api reads) (w : World api)
      → IsCached w
      → (w' : World api) × (b : Bool) × (node_round api machine reads w ≡ (w', b))
        × IsCached w'
        × Registers machine j w (w', b)
        × ((y : Node) → view w.nodes j.nodename.name ≡ some y → y.status ≢ j.status → b ≡ false)
  one_round machine reads j w h =
      let (u, eq, same, k) = round_registers machine reads j w h in
      let spec : NodeSpec = record {
        pod_cidr = j.config.pod_cidr;
        pod_cidrs = j.config.pod_cidr ∷ j.config.pod_cidrs;
      } in
      let there : view u.nodes j.nodename.name ≡ view w.nodes j.nodename.name =
        ap (λ s. view s j.nodename.name) same in
      elim (Option-cases (view w.nodes j.nodename.name)) [
        | inl n ↦
            let (s, e, r) =
              register_new api view laws machine j.nodename spec j.status (labels_of machine j)
                j.client u (there ∙ n) (has_input_version machine reads j) in
            (record u { nodes = s }, true, eq ∙ e, k, inl (refl, r), λ y f d. cc)
        | inr (y, n) ↦
            elim (register_again api view laws machine j.nodename spec j.status
              (labels_of machine j) j.client u y (there ∙ n) j.is_named
              (has_input_version machine reads j)) [
                | inl (s, e, r, d) ↦ (
                  record u { nodes = s },
                  true,
                  eq ∙ e,
                  k,
                  inl (refl, r),
                  λ y' f q. sym (d (λ p. q (ap (λ o. status_or j.status o) (sym f ∙ n) ∙ p))),
                )
                | inr (d, (s, e, (v, now))) ↦ (
                  record u { nodes = s },
                  false,
                  eq ∙ e,
                  k,
                  inr (
                    refl,
                    (
                      y,
                      n,
                      d,
                      (
                        v,
                        λ i.
                            now i
                            ∙ ap
                                (λ t.
                                  if text_eq j.nodename.name i
                                  then some (record y { status = j.status; version = v })
                                  else view t i)
                                same,
                      ),
                    ),
                  ),
                  λ y' f q. refl,
                )
              ]
      ]

  -- After a round the node has the status, whether the round failed or not.
  status_settled :
      (machine : Text) (reads : NodeReads) (j : Joins api reads) (w u : World api) (b : Bool)
      → Registers machine j w (u, b)
      → (x : Node) × (view u.nodes j.nodename.name ≡ some x) × (x.status ≡ j.status)
  status_settled machine reads j w u b r = elim r [
    | inl (t, ((x, e, p, q), others)) ↦ (x, e, p)
    | inr (f, (y, n, d, (v, now))) ↦ (
      record y { status = j.status; version = v },
      ground (arith, now j.nodename.name, text_eq_refl j.nodename.name),
      refl,
    )
  ]

  -- Where the configuration is not torn down, every read succeeds and no call fails but by a conflict,
  -- two rounds with the same reads leave the node registered, whatever there was: it has the status
  -- and the labels that were computed, and no node of the machine is left that another version of the
  -- node name has brought about.  This assumes a node name that is not empty, and a kept client that
  -- is that of the kept kubeconfig.
  pub node_round_twice :
      (machine : Text) (reads : NodeReads) (j : Joins api reads) (w : World api)
      → IsCached w
      → let w' = (node_round api machine reads w).0 in
        let end = node_round api machine reads w' in
        (end.1 ≡ true)
        × IsRegistered (view end.0.nodes) machine j.nodename j.status (labels_of machine j)
  node_round_twice machine reads j w h =
      let (u, b, e, k, r, c) = one_round machine reads j w h in
      let (u', b', e', k', r', c') = one_round machine reads j u k in
      let (x, there, settled) = status_settled machine reads j w u b r in
      rw (e, e')
        (elim r' [
          | inl q ↦ q
          | inr (f, (y, n, d, more)) ↦
              absurd (d ((ap (λ o. status_or j.status o) (sym n ∙ there) ∙ settled)))
        ])

  -- Where the configuration is not torn down, every read succeeds and no call fails but by a conflict,
  -- a round that finds the node with another status than the one that it computes ends with an
  -- error, as the second update has the version from before the first: the node has the new status,
  -- but its old labels, and every other node is left as it was.  This assumes a node name that is
  -- not empty, and a kept client that is that of the kept kubeconfig.
  pub node_round-conflict :
      (machine : Text) (reads : NodeReads) (j : Joins api reads) (w : World api) (y : Node)
      → IsCached w
      → view w.nodes j.nodename.name ≡ some y
      → y.status ≢ j.status
      → let end = node_round api machine reads w in
        (end.1 ≡ false)
        × ((x : Node) × (view end.0.nodes j.nodename.name ≡ some x)
            × (x.status ≡ j.status)
            × (x.labels ≡ y.labels))
        × ((i : Text) → text_eq j.nodename.name i ≡ false → view end.0.nodes i ≡ view w.nodes i)
  node_round-conflict machine reads j w y h e d =
      let (u, b, eq, k, r, c) = one_round machine reads j w h in
      let failed : b ≡ false = c y e d in
      rw eq (elim r [
        | inl (t, q) ↦ cc
        | inr (f, (y', n, q, (v, now))) ↦ (
          failed,
          (
            record y' { status = j.status; version = v },
            ground (arith, now j.nodename.name, text_eq_refl j.nodename.name),
            refl,
            ap (λ o. labels_in [] o) (sym n ∙ e),
          ),
          λ i apart. ground (arith, now i, apart),
        )
      ])
