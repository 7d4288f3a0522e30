-- ===== src/Scenarios/Nodes.antt =====
-- Rounds of the Kubernetes node controller.
use Prim.Native.Nat.{ℕ}
use talemu.Prelude.{
  suc, after, Text, text_eq, text_eq_iff, codes, Bool, true, false, [], ◌∷◌, Option, none, some,
  if◌then◌else◌, ◌≡◌, ◌≢◌, refl, ap, sym, ◌∙◌, inl, inr, arith, Bool-cases, ℕ_discrete,
}
use talemu.Cosi.{ok, err, not_found}
use talemu.Nodes.{
  NodeStatus, NodeConfig, external_ip, host_name, get_image_version, compute_node_status,
}
use talemu.Nodes.Rounds.{Node, Api, NodeReads, World, node_round, kubeconfig, is_other, node_labels}
use talemu.Nodes.Registered.{IsApi, IsRegistered}
use talemu.Nodes.Converging.{Joins, node_round_twice, node_round-conflict}

NodeStatus-discrete : Discrete NodeStatus
NodeStatus-discrete = hlevel ℕ_discrete

Version-discrete : Discrete (Option ℕ)
Version-discrete = hlevel ℕ_discrete

-- The nodes by name.
abbrev Nodes : Type 0
Nodes = Text → Option Node

abbrev named : Text → Option Node → Option Node
named n none = none
named n (some x) = some (record x { name = n })

abbrev shown_nodes : Nodes → Text → Option Node
shown_nodes s n = named n (s n)

abbrev put_node : Node → Nodes → Nodes
put_node x s = λ j. if text_eq x.name j then some x else s j

abbrev next : Option ℕ → Option ℕ
next none = some 0
next (some n) = some (suc n)

abbrev version_after : {P : Type 0} → Dec P → Option ℕ → Option ℕ
version_after (yes p) v = v
version_after (no n) v = next v

abbrev updated : {P : Type 0} → Dec P → Node → Nodes → Nodes × Bool
updated (yes p) x s = (put_node x s, true)
updated (no n) x s = (s, false)

abbrev with_status : Node → Node → Node
with_status y x = record y {
  status = x.status;
  version = version_after (NodeStatus-discrete y.status x.status) y.version;
}

abbrev with_labels : Node → Node → Node
with_labels y x = record y { labels = x.labels; spec = x.spec; version = next y.version }

abbrev update_by : (Node → Node → Node) → Node → Nodes → Nodes × Bool
update_by f x s = elim (shown_nodes s x.name) [
  | none ↦ (s, false)
  | some y ↦ updated (Version-discrete y.version x.version) (f y x) s
]

abbrev api : Api
api = record {
  Client = Text;
  State = Nodes;
  build = λ k. some k;
  get = λ cl n s. elim (shown_nodes s n) [ none ↦ err not_found | some x ↦ ok x ];
  create = λ cl x s. (put_node (record x { version = some 0 }) s, true);
  update_status = λ cl x s. update_by with_status x s;
  update = λ cl x s. update_by with_labels x s;
  delete = λ cl n s. (s, ok tt);
  delete_collection = λ cl machine version s. (
    λ j. elim (shown_nodes s j) [
      | none ↦ none
      | some x ↦ if is_other machine version x then none else some x
    ],
    true,
  );
}

abbrev name_or : Text → Option Node → Text
name_or n none = n
name_or n (some x) = x.name

name-named : (n : Text) (o : Option Node) (x : Node) → named n o ≡ some x → x.name ≡ n
name-named n none x h = cc
name-named n (some z) x h = sym (ap (λ o. name_or n o) h)

named_lem : (s : Nodes) (n : Text) (x : Node) → shown_nodes s n ≡ some x → x.name ≡ n
named_lem s n x h = name-named n (s n) x h

shown-put_node :
    (x : Node) (s : Nodes) (j : Text)
    → shown_nodes (put_node x s) j ≡ (if text_eq x.name j then some x else shown_nodes s j)
shown-put_node x s j = elim (Bool-cases (text_eq x.name j)) [
  | inl y ↦
      ground (arith, y, ap (λ t. some (record x { name = t })) (sym ((text_eq_iff x.name j).0 y)))
  | inr y ↦ ground (arith, y)
]

updated_lem :
    {P : Type 0} (d : Dec P) (x : Node) (s : Nodes) → P → updated d x s ≡ (put_node x s, true)
updated_lem (yes p) x s q = refl
updated_lem (no n) x s q = absurd (n q)

not_updated_lem : {P : Type 0} (d : Dec P) (x : Node) (s : Nodes) → ¬ P → updated d x s ≡ (s, false)
not_updated_lem (yes p) x s q = absurd (q p)
not_updated_lem (no n) x s q = refl

version_kept : {P : Type 0} (d : Dec P) (v : Option ℕ) → P → version_after d v ≡ v
version_kept (yes p) v q = refl
version_kept (no n) v q = absurd (n q)

abbrev number : Option ℕ → ℕ
number none = 0
number (some n) = n

next_ne : (v : Option ℕ) → next v ≢ v
next_ne none e = cc
next_ne (some n) e = let k : suc n ≡ n = ap (λ o. number o) e in omega arith

version_moves : {P : Type 0} (d : Dec P) (v : Option ℕ) → ¬ P → version_after d v ≢ v
version_moves (yes p) v q = absurd (q p)
version_moves (no n) v q = next_ne v

update_by_lem :
    (f : Node → Node → Node) (x y : Node) (s : Nodes)
    → ((f y x).name ≡ y.name)
    → shown_nodes s x.name ≡ some y
    → y.version ≡ x.version
    → ((update_by f x s).1 ≡ true)
      × ((j : Text)
          → shown_nodes (update_by f x s).0 j
            ≡ (if text_eq x.name j then some (f y x) else shown_nodes s j))
update_by_lem f x y s e h v =
    let d = Version-discrete y.version x.version in
    let eq : update_by f x s ≡ (put_node (f y x) s, true) =
      ground (arith, h, updated_lem d (f y x) s v) in
    rw eq (
      refl,
      λ j.
          shown-put_node (f y x) s j
          ∙ ap (λ t. if text_eq t j then some (f y x) else shown_nodes s j)
              (e ∙ named_lem s x.name y h),
    )

abbrev without_others : Text → Text → Option Node → Option Node
without_others machine version none = none
without_others machine version (some x) = if is_other machine version x then none else some x

named-others :
    (machine version n : Text) (o : Option Node)
    → named n (without_others machine version (named n o))
      ≡ without_others machine version (named n o)
named-others machine version n none = refl
named-others machine version n (some x) = ground arith

api-IsApi : IsApi api shown_nodes
api-IsApi = record {
  gets = λ cl n s. refl;
  names = named_lem;
  creates = λ cl x s h. (refl, (some 0, λ j. shown-put_node (record x { version = some 0 }) s j));
  updates_status = λ cl x y s h v.
      let (done, now) = update_by_lem with_status x y s refl h v in
      let d = NodeStatus-discrete y.status x.status in
      (
        done,
        (
          version_after d y.version,
          now,
          λ e. version_kept d y.version e,
          λ n. version_moves d y.version n,
        ),
      );
  updates = λ cl x y s h v.
      let (done, now) = update_by_lem with_labels x y s refl h v in (done, (next y.version, now));
  conflicts = λ cl x y s h n.
      ground
        (arith, h, not_updated_lem (Version-discrete y.version x.version) (with_labels y x) s n);
  deletes = λ cl machine version s. (refl, λ j. named-others machine version j (s j));
}

abbrev config : NodeConfig
config = record {
  cluster_id = codes "c";
  is_torn_down = false;
  pod_cidr = codes "10.244.0.0/16";
  pod_cidrs = [];
  node_labels = [];
  is_control_plane = true;
  node_label_args = none;
  kubelet_image = codes "kubelet:v1.33.0";
  proxy_image = codes "kube-proxy:v1.33.0";
}

abbrev reads : NodeReads
reads = record {
  config = ok config;
  nodename = ok (record { name = codes "cp-1"; version = codes "2" });
  secrets = ok (codes "kubeconfig");
  cluster = λ i. err not_found;
  adds_finalizer = true;
  removes_finalizer = true;
  hostname = ok (codes "cp-1");
  version = ok (record { value = codes "v1.11.0"; architecture = codes "amd64" });
  hardware = record {
    system_information = ok (codes "uuid");
    addresses = ok (codes "10.5.0.2" ∷ []);
    memory_modules = some (2048 ∷ []);
    processors = some (4 ∷ []);
  };
}

abbrev status : NodeStatus
status = record {
  system_uuid = codes "uuid";
  os_image = codes "Talos (v1.11.0)";
  kubelet_version = codes "v1.33.0";
  proxy_version = codes "v1.33.0";
  addresses = external_ip (codes "10.5.0.2") ∷ host_name (codes "cp-1") ∷ [];
  memory = 2147483648;
  cpu = 4;
}

computed :
    compute_node_status reads.hardware config
      (some (codes "cp-1"))
      (some (record { value = codes "v1.11.0"; architecture = codes "amd64" }))
    ≡ some status
unfolding compute_node_status get_image_version after
computed = refl

kubeconfig_found : kubeconfig api reads config ≡ ok (codes "kubeconfig")
unfolding kubeconfig
kubeconfig_found = refl

abbrev joins : Joins api reads
joins = record {
  config = config;
  nodename = record { name = codes "cp-1"; version = codes "2" };
  kubeconfig_read = codes "kubeconfig";
  client = codes "kubeconfig";
  hostname = some (codes "cp-1");
  version = some (record { value = codes "v1.11.0"; architecture = codes "amd64" });
  status = status;
  reads_config = refl;
  stays = refl;
  reads_nodename = refl;
  is_named = refl;
  reads_kubeconfig = kubeconfig_found;
  builds = refl;
  adds = refl;
  reads_hostname = refl;
  reads_version = refl;
  computes = computed;
}

-- A node with the status of an earlier version.
abbrev outdated : Node
outdated = record {
  name = codes "cp-1";
  labels = [];
  spec = record { pod_cidr = []; pod_cidrs = [] };
  status = record status { os_image = codes "Talos (v1.10.0)" };
  version = some 7;
}

abbrev world : World api
world = record {
  client = none;
  config = [];
  has_finalizer = false;
  nodes = put_node outdated (λ n. none);
}

is_outdated : outdated.status ≢ status
unfolding text_eq
is_outdated e =
    let k : true ≡ false =
      ap (λ (t : NodeStatus). text_eq t.os_image (codes "Talos (v1.10.0)")) e in
    cc

node_round_twice_example :
    let w = (node_round api (codes "m1") reads world).0 in
    let end = node_round api (codes "m1") reads w in
    (end.1 ≡ true)
    × IsRegistered
        (shown_nodes end.0.nodes)
        (codes "m1")
        joins.nodename
        status
        (node_labels api (codes "m1") joins.nodename config joins.hostname joins.version)
node_round_twice_example =
    node_round_twice api shown_nodes api-IsApi (codes "m1") reads joins world (λ cl e. cc)

node_round-conflict_example :
    let end = node_round api (codes "m1") reads world in
    (end.1 ≡ false)
    × ((x : Node) × (shown_nodes end.0.nodes (codes "cp-1") ≡ some x)
        × (x.status ≡ status)
        × (x.labels ≡ outdated.labels))
    × ((i : Text)
        → text_eq (codes "cp-1") i ≡ false
        → shown_nodes end.0.nodes i ≡ shown_nodes world.nodes i)
unfolding text_eq
node_round-conflict_example =
    node_round-conflict api shown_nodes api-IsApi (codes "m1") reads joins world outdated
      (λ cl e. cc) refl is_outdated
