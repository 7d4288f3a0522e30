-- ===== src/Specs.antt =====
-- The specs of the resources (api/specs/specs.proto, internal/pkg/machine/runtime/resources), and
-- of the parts of the Talos machine configuration that the emulator reads.
use talemu.Prelude.{ℕ, Text, Bool, false, List, [], Option}

-- specs.ClusterStatusSpec; the counts are uint32. The cached kubeconfig is not modelled.
pub record ClusterStatus : Type 0 where
  pub bootstrapped : Bool
  pub control_planes : ℕ
  pub workers : ℕ
  pub deny_etcd_members : List Text

-- emu.NewClusterStatus
abbrev pub new_cluster_status : ClusterStatus
new_cluster_status = record {
  bootstrapped = false;
  control_planes = 0;
  workers = 0;
  deny_etcd_members = [];
}

-- The labels of internal/pkg/machine/runtime/resources/emu/labels.go, each with its value if set.
pub record Labels : Type 0 where
  pub cluster : Option Text
  pub control_plane_role : Option Text
  pub worker_role : Option Text

-- specs.MachineStatusSpec, with the labels of the resource.
pub record MachineStatus : Type 0 where
  pub labels : Labels
  pub etcd_member_id : Text
  pub hostname : Text

-- specs.ImageSpec
pub record ImageSpec : Type 0 where
  pub version : Text
  pub schematic : Text
  pub host : Text

-- talos.NewImage
abbrev pub new_image : ImageSpec
new_image = record { version = []; schematic = []; host = [] }

-- specs.CachedImageSpec
pub record CachedImage : Type 0 where
  pub digest : Text
  pub size : ℕ

-- block.SystemDisk
pub record SystemDisk : Type 0 where
  pub disk_id : Text
  pub dev_path : Text

abbrev pub new_system_disk : SystemDisk
new_system_disk = record { disk_id = []; dev_path = [] }

-- The `machine` document of a Talos configuration.
pub record MachineSection : Type 0 where
  pub install_image : Text
  pub is_control_plane : Bool

-- config.MachineConfig: a partial one has no `machine` document.
pub record MachineConfig : Type 0 where
  pub machine : Option MachineSection
  pub cluster_id : Text

-- v1alpha1.Service: the flags that the emulator sets.
pub record ServiceStatus : Type 0 where
  pub running : Bool
  pub healthy : Bool

abbrev pub new_service : ServiceStatus
new_service = record { running = false; healthy = false }
