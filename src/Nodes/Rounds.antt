-- ===== src/Nodes/Rounds.antt =====
-- KubernetesNodeController.Run with getClient and removeNode, of
-- internal/pkg/machine/controllers/kubernetes_node.go. The API of Kubernetes is a dependency, the
-- record `Api`; the reads of a round are its argument.
use talemu.Prelude.{
  ℕ, Text, text_eq, Bool, true, false, not, ◌&&◌, ◌∷◌, Option, none, some, if◌then◌else◌,
}
use talemu.Cosi.{Outcome, ok, err, failed, is_not_found}
use talemu.Image.{is_empty}
use talemu.Nodes.{
  Labels, label, put, machine_id_label, input_version_label, NodeConfig, VersionSpec, NodeSpec,
  NodeStatus, Hardware, if_found, compute_node_labels, compute_node_status,
}

-- v1.Node; `version` is the resource version, which an update must match.
pub record Node : Type 0 where
  pub name : Text
  pub labels : Labels
  pub spec : NodeSpec
  pub status : NodeStatus
  pub version : Option ℕ

-- The clientset, seen at the nodes; `build` makes one from a kubeconfig. `delete_collection` is given
-- the machine and the input version of the label selector. False is an error.
pub record Api : Type 1 where
  pub Client : Type 0
  pub State : Type 0
  pub build : Text → Option Client
  pub get : Client → Text → State → Outcome Node
  pub create : Client → Node → State → State × Bool
  pub update_status : Client → Node → State → State × Bool
  pub update : Client → Node → State → State × Bool
  pub delete : Client → Text → State → State × Outcome (Unit {0})
  pub delete_collection : Client → Text → Text → State → State × Bool

-- The resource k8s.Nodename: the name, and the version of the resource.
pub record Nodename : Type 0 where
  pub name : Text
  pub version : Text

-- What a round reads, and whether the finalizer can be set and removed. `cluster` is the kubeconfig
-- of the cluster, which may be missing.
pub record NodeReads : Type 0 where
  pub config : Outcome NodeConfig
  pub nodename : Outcome Nodename
  pub secrets : Outcome Text
  pub cluster : Text → Outcome (Option Text)
  pub adds_finalizer : Bool
  pub removes_finalizer : Bool
  pub hostname : Outcome Text
  pub version : Outcome VersionSpec
  pub hardware : Hardware

-- The selector of the other nodes of a machine: `!=` holds of what has no such label.
abbrev pub has_label : Text → Text → Labels → Bool
has_label k v ls = elim (label k ls) [ none ↦ false | some w ↦ text_eq w v ]

abbrev pub is_other : Text → Text → Node → Bool
is_other machine version n =
    not (has_label input_version_label version n.labels)
    && has_label machine_id_label machine n.labels

module _ (api : Api) where
  -- The fields of the controller, whether its finalizer is on the configuration, and the nodes.
  pub record World : Type 0 where
    pub client : Option api.Client
    pub config : Text
    pub has_finalizer : Bool
    pub nodes : api.State

  -- getClient: the kubeconfig
  unfoldable pub kubeconfig : NodeReads → NodeConfig → Outcome Text
  kubeconfig reads c = elim reads.secrets [
    | ok k ↦ ok k
    | err x ↦ if not (is_not_found x) then err x else elim (reads.cluster c.cluster_id) [
      | err y ↦ err y
      | ok o ↦ elim o [ none ↦ err failed | some k ↦ ok k ]
    ]
  ]

  -- getClient: the client, which is kept while the kubeconfig is the same
  unfoldable pub get_client : NodeReads → NodeConfig → World → World × Outcome api.Client
  unfolding kubeconfig
  get_client reads c w = elim (kubeconfig reads c) [
    | err x ↦ (w, err x)
    | ok k ↦
        let fresh : World × Outcome api.Client = elim (api.build k) [
          | none ↦ (w, err failed)
          | some cl ↦ (record w { client = some cl; config = k }, ok cl)
        ] in
        elim w.client [ none ↦ fresh | some cl ↦ if text_eq w.config k then (w, ok cl) else fresh ]
  ]

  -- removeNode, whose error is only logged
  abbrev pub remove_node : api.Client → Text → World → World
  remove_node cl name w = record w { nodes = (api.delete cl name w.nodes).0 }

  -- Run: the configuration is torn down.
  unfoldable pub leave : NodeReads → Nodename → api.Client → World → World × Bool
  leave reads n cl w =
      let w' = remove_node cl n.name w in
      if reads.removes_finalizer then (record w' { has_finalizer = false }, true) else (w', false)

  -- The nodes after a call, or the error.
  abbrev pub and_then_nodes : World → api.State × Bool → (World → World × Bool) → World × Bool
  and_then_nodes w (s, true) rest = rest (record w { nodes = s })
  and_then_nodes w (s, false) rest = (record w { nodes = s }, false)

  -- Run: the cleanup of the other nodes
  unfoldable pub remove_others : Text → Nodename → api.Client → World → World × Bool
  remove_others machine n cl w =
      and_then_nodes w (api.delete_collection cl machine n.version w.nodes) (λ w'. (w', true))

  -- Run: the node is created, or its status and then its labels are updated.
  unfoldable pub register :
      Text → Nodename → NodeSpec → NodeStatus → Labels → api.Client → World → World × Bool
  unfolding remove_others
  register machine n spec status labels cl w =
      let create : World × Bool =
        and_then_nodes w
          (api.create cl
            (record {
              name = n.name;
              labels = labels;
              spec = spec;
              status = status;
              version = none;
            })
            w.nodes)
          (remove_others machine n cl) in
      elim (api.get cl n.name w.nodes) [
        | err x ↦ if is_not_found x then create else (w, false)
        | ok node ↦
            let node' : Node = record node { status = status } in
            if is_empty node.name
            then create
            else and_then_nodes w (api.update_status cl node' w.nodes) (λ w'.
              and_then_nodes w' (api.update cl (record node' { labels = labels }) w'.nodes)
                (remove_others machine n cl))
      ]

  -- Run: the labels of the node
  abbrev pub node_labels : Text → Nodename → NodeConfig → Option Text → Option VersionSpec → Labels
  node_labels machine n c hostname version =
      put input_version_label n.version
        (put machine_id_label machine (compute_node_labels c hostname version))

  -- Run: one round from the finalizer on
  unfoldable pub join : Text → NodeReads → NodeConfig → Nodename → api.Client → World → World × Bool
  unfolding register
  join machine reads c n cl w =
      if not reads.adds_finalizer
      then (w, false)
      else let w' : World = record w { has_finalizer = true } in
        elim (if_found reads.hostname) [
          | none ↦ (w', false)
          | some hostname ↦ elim (if_found reads.version) [
            | none ↦ (w', false)
            | some version ↦ elim (compute_node_status reads.hardware c hostname version) [
              | none ↦ (w', false)
              | some status ↦
                  register machine n
                    (record { pod_cidr = c.pod_cidr; pod_cidrs = c.pod_cidr ∷ c.pod_cidrs }) status
                    (node_labels machine n c hostname version) cl w'
            ]
          ]
        ]

  -- Run: one round. False is an error.
  unfoldable pub node_round : Text → NodeReads → World → World × Bool
  unfolding get_client leave join
  node_round machine reads w = elim reads.config [
    | err x ↦ (w, is_not_found x)
    | ok c ↦ elim reads.nodename [
      | err x ↦ (w, is_not_found x)
      | ok n ↦
          let (w', r) = get_client reads c w in
          elim r [
            | err x ↦ (w', is_not_found x)
            | ok cl ↦ if c.is_torn_down then leave reads n cl w' else join machine reads c n cl w'
          ]
    ]
  ]
