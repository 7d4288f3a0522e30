-- ===== src/Nodes.antt =====
-- The Kubernetes node of a machine: computeNodeLabels, computeNodeStatus and getImageVersion of
-- internal/pkg/machine/controllers/kubernetes_node.go. What the status has always the same is left
-- out: the condition, the operating system, the versions of the kernel and of the container
-- runtime, the ephemeral storage and the pods. The map of labels is a list, of which the first entry
-- of a key counts. Text is trimmed of ASCII spaces.

pub mod Rounds
pub mod Registered
pub mod Converging
pub mod Images
use mathlib.Core.List.{reverse}
use talemu.Prelude.{
  ℕ, ◌+◌, ◌*◌, ◌^◌, ◌%◌, Text, codes, text_eq, ◌==◌, leb, has_byte, before, after, Bool, true,
  false, ◌&&◌, ◌||◌, List, [], ◌∷◌, ◌++◌, map, Option, none, some, if◌then◌else◌,
}
use talemu.Cosi.{Outcome, ok, err, is_not_found}

abbrev pub Labels : Type 0
Labels = List (Text × Text)

abbrev pub label : Text → Labels → Option Text
label k [] = none
label k (l ∷ ls) = let rest = label k ls in if text_eq l.0 k then some l.1 else rest

-- `labels[k] = v`
abbrev pub put : Text → Text → Labels → Labels
put k v ls = (k, v) ∷ ls

-- machineIDLabel, inputVersionLabel
abbrev pub machine_id_label : Text
machine_id_label = codes "talemu.dev/machine"

abbrev pub input_version_label : Text
input_version_label = codes "talemu.dev/inputversion"

-- What the controller reads of a complete machine configuration; `pod_cidrs` follows `pod_cidr`,
-- and `node_label_args` holds the values of the kubelet argument node-labels.
pub record NodeConfig : Type 0 where
  pub cluster_id : Text
  pub is_torn_down : Bool
  pub pod_cidr : Text
  pub pod_cidrs : List Text
  pub node_labels : Labels
  pub is_control_plane : Bool
  pub node_label_args : Option (List Text)
  pub kubelet_image : Text
  pub proxy_image : Text

pub record VersionSpec : Type 0 where
  pub value : Text
  pub architecture : Text

-- v1.NodeSpec, v1.NodeAddress, v1.NodeStatus
pub record NodeSpec : Type 0 where
  pub pod_cidr : Text
  pub pod_cidrs : List Text

pub data NodeAddress : Type 0 where
  external_ip host_name : Text → NodeAddress

pub record NodeStatus : Type 0 where
  pub system_uuid : Text
  pub os_image : Text
  pub kubelet_version : Text
  pub proxy_version : Text
  pub addresses : List NodeAddress
  pub memory : ℕ
  pub cpu : ℕ

-- strings.TrimSpace
abbrev pub is_space : ℕ → Bool
is_space b = (b == 32) || (leb 9 b && leb b 13)

abbrev pub drop_spaces : Text → Text
drop_spaces [] = []
drop_spaces (x ∷ xs) = let rest = drop_spaces xs in if is_space x then rest else x ∷ xs

abbrev pub trim_space : Text → Text
trim_space s = reverse (drop_spaces (reverse (drop_spaces s)))

-- getImageVersion
unfoldable pub get_image_version : Text → Text
get_image_version image = after 58 image

-- computeNodeLabels: the loop over the kubelet argument
abbrev pub put_args : List Text → Labels → Labels
put_args [] ls = ls
put_args (pair ∷ pairs) ls = put_args pairs (
    if has_byte 61 pair
    then put (trim_space (before 61 pair)) (trim_space (after 61 pair)) ls
    else ls)

-- computeNodeLabels
unfoldable pub compute_node_labels : NodeConfig → Option Text → Option VersionSpec → Labels
compute_node_labels config hostname version =
    let named : Labels = elim hostname [
      | none ↦ []
      | some h ↦ put (codes "kubernetes.io/hostname") h []
    ] in
    let arch : Labels = elim version [
      | none ↦ named
      | some v ↦
          put (codes "beta.kubernetes.io/arch") v.architecture
            (put (codes "kubernetes.io/arch") v.architecture named)
    ] in
    let os : Labels =
      put (codes "beta.kubernetes.io/os") (codes "linux")
        (put (codes "kubernetes.io/os") (codes "linux") arch) in
    let copied : Labels = config.node_labels ++ os in
    let role : Labels =
      if config.is_control_plane
      then put (codes "node-role.kubernetes.io/control-plane") [] copied
      else copied in
    elim config.node_label_args [ none ↦ role | some pairs ↦ put_args pairs role ]

-- What computeNodeStatus reads.
pub record Hardware : Type 0 where
  pub system_information : Outcome Text
  pub addresses : Outcome (List Text)
  pub memory_modules : Option (List ℕ)
  pub processors : Option (List ℕ)

-- A read that is passed over where the resource is not there.
abbrev pub if_found : {A : Type 0} → Outcome A → Option (Option A)
if_found (ok a) = some (some a)
if_found (err e) = if is_not_found e then some none else none

abbrev pub and_then : {A B : Type 0} → Option A → (A → Option B) → Option B
and_then none f = none
and_then (some a) f = f a

-- int64
abbrev pub int64 : ℕ → ℕ
int64 n = n % 2 ^ 64

-- computeNodeStatus: the loops over the memory modules, whose sizes are in MiB, and the processors
abbrev pub sum_from : ℕ → List ℕ → ℕ
sum_from total [] = total
sum_from total (n ∷ ns) = sum_from (int64 (total + n)) ns

abbrev pub bytes_of : ℕ → ℕ
bytes_of size = int64 (int64 size * (1024 * 1024))

-- computeNodeStatus; none is an error.
unfoldable pub compute_node_status :
    Hardware → NodeConfig → Option Text → Option VersionSpec → Option NodeStatus
unfolding get_image_version
compute_node_status hardware config hostname version =
    and_then (if_found hardware.system_information) λ uuid.
      and_then (if_found hardware.addresses) λ addresses.
        and_then hardware.memory_modules λ modules. and_then hardware.processors λ processors.
          some (record {
            system_uuid = elim uuid [ none ↦ [] | some u ↦ u ];
            os_image = elim version [
              | none ↦ []
              | some v ↦ codes "Talos (" ++ v.value ++ codes ")"
            ];
            kubelet_version = get_image_version config.kubelet_image;
            proxy_version = get_image_version config.proxy_image;
            addresses =
                elim addresses [ none ↦ [] | some as' ↦ map (λ a. external_ip a) as' ]
                ++ elim hostname [ none ↦ [] | some h ↦ host_name h ∷ [] ];
            memory = sum_from 0 (map bytes_of modules);
            cpu = sum_from 0 processors;
          })
