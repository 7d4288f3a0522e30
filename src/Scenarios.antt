-- ===== src/Scenarios.antt =====
-- Runs at concrete inputs: the fixtures, and for each part of the program the theorems applied to
-- them.
mod Machines
mod Clusters
mod Members
mod Access
mod Sinks
mod Slots
mod Kernel
mod Links
mod Peers
mod Rounds
mod Names
mod Addresses
mod Tasks
mod Stores
mod Announced
mod Affiliates
mod Sessions
mod Nodes
mod Readiness
use talemu.Prelude.{Text, codes, Bool, true, false, List, [], ◌∷◌, some, none, ◌+◌, ◌∷◌}
use talemu.Cosi.{State, fresh, Resource}
use talemu.Cosi.InMemory.{in_memory}
use talemu.Specs.{ClusterStatus, MachineStatus, MachineSection, MachineConfig, new_cluster_status}
use talemu.Service.{Machine}
use talemu.Service.Installer.{system_disk_id, security_state_id, image_id}
use talemu.Service.Cluster.{active_id}

abbrev pub empty : (A : Type 0) → in_memory.Coll A
unfolding in_memory
empty A = []

abbrev pub with_one : {A : Type 0} → Text → A → in_memory.Coll A
with_one {A} i v = (in_memory.create (empty A) i v).1

abbrev pub machine_one : Text
machine_one = codes "machine-1"

abbrev pub bare_status : MachineStatus
bare_status = record {
  labels = record { cluster = none; control_plane_role = none; worker_role = none };
  etcd_member_id = [];
  hostname = codes "node-1";
}

-- A machine in maintenance mode: known to the emulator, without SecureBoot.
abbrev pub bare : Machine in_memory
bare = record {
  configs = empty _;
  security = with_one security_state_id false;
  system_disks = empty _;
  images = empty _;
  reboots = empty _;
  cached_images = empty _;
  meta_keys = empty _;
  tokens = empty _;
  system_information = empty _;
  etcd_members = empty _;
  services = empty _;
  clusters = empty _;
  machines = with_one machine_one bare_status;
  machine_id = machine_one;
  boot_id = codes "boot";
  uuids = λ n. n ∷ [];
  drawn = 0;
  lifecycle_locked = false;
  sequence_locked = false;
  sent = [];
  sends_left = 100;
}

abbrev pub installed : Machine in_memory
installed = record bare {
  system_disks =
      with_one system_disk_id (record { disk_id = codes "sda"; dev_path = codes "/dev/sda" });
}

abbrev pub installer : Text
installer = codes "factory.talos.dev/metal-installer/376567:v1.10.0"

abbrev pub factory_host : Text
factory_host = codes "factory.talos.dev"

abbrev pub cluster_one : Text
cluster_one = codes "cluster-1"

abbrev pub control_plane_config : MachineConfig
control_plane_config = record {
  machine = some (record { install_image = installer; is_control_plane = true });
  cluster_id = cluster_one;
}

-- A cluster that is bootstrapped, with one control plane and one worker.
abbrev pub small_cluster : ClusterStatus
small_cluster = record {
  bootstrapped = true;
  control_planes = 1;
  workers = 1;
  deny_etcd_members = [];
}

-- The machine as the control plane of that cluster.
abbrev pub joined : Machine in_memory
joined = record installed {
  configs = with_one active_id control_plane_config;
  clusters = with_one cluster_one small_cluster;
}
