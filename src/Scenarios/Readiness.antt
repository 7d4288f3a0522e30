-- ===== src/Scenarios/Readiness.antt =====
-- The stage and the readiness of a machine.
use talemu.Prelude.{text_eq, codes, true, false, [], ◌∷◌, some, ◌≡◌, refl, inl, inr}
use talemu.Cosi.{ok, err, not_found, fresh}
use talemu.Cosi.InMemory.{in_memory, in_memory-IsState}
use talemu.Image.{ImageRef}
use talemu.Readiness.{
  maintenance, running, no_version, MachineStatusSpec, ServiceHealth, MachineSetup, InstallConfig,
  StatusReads, Resources, machine_status_id, status_round,
}
use talemu.Readiness.Stages.{HoldsStatus, status_round-maintenance}
use talemu.Scenarios.{empty, with_one}

abbrev install_config : InstallConfig
install_config = record {
  install_disk = codes "/dev/vda";
  image = codes "factory.talos.dev/installer/abc:v1.11.0";
}

abbrev worker : MachineSetup
worker = record { install = some install_config; is_control_plane = false }

abbrev healthy : ServiceHealth
healthy = record { is_healthy = true; is_running = true }

abbrev installs : StatusReads
installs = record {
  reboot = err not_found;
  config = ok worker;
  disks = some (codes "vda" ∷ codes "vdb" ∷ []);
  version = ok tt;
  service = λ n. ok healthy;
}

abbrev stale_status : MachineStatusSpec
stale_status = record { stage = running; is_ready = false; unmet = no_version ∷ [] }

abbrev blank : Resources in_memory
blank = record {
  statuses = with_one machine_status_id stale_status;
  system_disks = empty _;
  images = empty _;
}

held_status : HoldsStatus in_memory-IsState blank stale_status
unfolding in_memory text_eq
held_status = inr (fresh machine_status_id stale_status, refl, refl, refl)

abbrev installer : ImageRef
installer = record {
  host = codes "factory.talos.dev";
  schematic = codes "abc";
  version = codes "v1.11.0";
}

status_round-maintenance_example :
    let bare : StatusReads = record installs { config = err not_found } in
    let end = status_round in_memory (codes "factory.talos.dev") bare blank in
    (end.1 ≡ true)
    × HoldsStatus in_memory-IsState end.0
        (record { stage = maintenance; is_ready = true; unmet = no_version ∷ [] })
status_round-maintenance_example =
    status_round-maintenance in_memory-IsState (codes "factory.talos.dev")
      (record installs { config = err not_found }) blank stale_status (inl refl) refl held_status
