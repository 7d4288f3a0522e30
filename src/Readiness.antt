-- ===== src/Readiness.antt =====
-- The stage and the readiness of a machine: internal/pkg/machine/controllers/machine_status.go. The
-- state is that of `Cosi`; what a round reads and does not write is its argument. The ID of a disk is
-- a plain name, so that its path is `/dev/` with the ID.

pub mod Stages
use talemu.Prelude.{
  Text, codes, text_eq, Bool, true, false, not, ◌&&◌, List, [], ◌∷◌, ◌++◌, Option, none, some,
  if◌then◌else◌,
}
use talemu.Cosi.{State, Outcome, ok, err, failed, is_not_found}
use talemu.Specs.{ImageSpec, new_image}
use talemu.Image.{ImageRef, parse_image_ref, is_empty}
use talemu.Service.Installer.{system_disk_id, image_id}

-- runtime.MachineStage, as far as it is used; the first is that of an empty resource
pub data Stage : Type 0 where
  unknown booting installing maintenance running rebooting : Stage

-- runtime.UnmetCondition: the texts are built from the kind and the name.
pub data Condition : Type 0 where
  no_version : Condition
  not_started not_healthy not_running : Text → Condition

-- runtime.MachineStatusSpec
pub record MachineStatusSpec : Type 0 where
  pub stage : Stage
  pub is_ready : Bool
  pub unmet : List Condition

abbrev pub new_machine_status : MachineStatusSpec
new_machine_status = record { stage = unknown; is_ready = false; unmet = [] }

-- block.SystemDiskSpec
pub record SystemDisk : Type 0 where
  pub disk_id : Text
  pub dev_path : Text

abbrev pub new_system_disk : SystemDisk
new_system_disk = record { disk_id = []; dev_path = [] }

-- v1alpha1.InstallConfig; a complete configuration, whose install section may be of another type
pub record InstallConfig : Type 0 where
  pub install_disk : Text
  pub image : Text

pub record MachineSetup : Type 0 where
  pub install : Option InstallConfig
  pub is_control_plane : Bool

pub record ServiceHealth : Type 0 where
  pub is_healthy : Bool
  pub is_running : Bool

-- What a round reads; `disks` are the IDs of the disks.
pub record StatusReads : Type 0 where
  pub reboot : Outcome (Unit {0})
  pub config : Outcome MachineSetup
  pub disks : Option (List Text)
  pub version : Outcome (Unit {0})
  pub service : Text → Outcome ServiceHealth

-- emuconst.APIDService, ETCDService, KubeletService
abbrev pub apid_service : Text
apid_service = codes "apid"

abbrev pub etcd_service : Text
etcd_service = codes "etcd"

abbrev pub kubelet_service : Text
kubelet_service = codes "kubelet"

-- runtime.MachineStatusID
abbrev pub machine_status_id : Text
machine_status_id = codes "machine"

-- checkServicesReady: one service; the outer `none` is an error.
unfoldable pub service_condition : Text → Outcome ServiceHealth → Option (Option Condition)
service_condition name (ok h) =
    if h.is_healthy && h.is_running
    then some none
    else if not h.is_healthy
    then some (some (not_healthy name))
    else if not h.is_running
    then some (some (not_running name))
    else some none
service_condition name (err e) = if is_not_found e then some (some (not_started name)) else none

-- checkServicesReady
unfoldable pub check_services : (Text → Outcome ServiceHealth) → List Text → Option (List Condition)
unfolding service_condition
check_services read [] = some []
check_services read (name ∷ names) =
    let rest = check_services read names in
    elim (service_condition name (read name)) [
      | none ↦ none
      | some o ↦ elim rest [
        | none ↦ none
        | some more ↦ some (elim o [ none ↦ more | some c ↦ c ∷ more ])
      ]
    ]

abbrev pub expected_services : Bool → List Text
expected_services is_control_plane =
    apid_service ∷ (if is_control_plane then etcd_service ∷ kubelet_service ∷ [] else [])

abbrev pub dev_path : Text → Text
dev_path i = codes "/dev/" ++ i

-- reconcile: the loop over the disks
abbrev pub has_disk : Text → List Text → Bool
has_disk i [] = false
has_disk i (d ∷ ds) = let rest = has_disk i ds in if text_eq i d then true else rest

abbrev pub install_target : Text → List Text → Option Text
install_target path [] = none
install_target path (d ∷ ds) = elim (install_target path ds) [
  | some later ↦ some later
  | none ↦ if not (is_empty path) && text_eq path (dev_path d) then some d else none
]

-- setInstalledImage: the callback
abbrev pub installed_image : ImageRef → ImageSpec → ImageSpec × Unit {0}
installed_image parsed value =
    (record { version = parsed.version; schematic = parsed.schematic; host = parsed.host }, tt)

module _ (s : State) where
  pub record Resources : Type 0 where
    pub statuses : s.Coll MachineStatusSpec
    pub system_disks : s.Coll SystemDisk
    pub images : s.Coll ImageSpec

  abbrev pub and_then :
      Outcome (Unit {0}) × Resources → (Resources → Resources × Bool) → Resources × Bool
  and_then (ok u, w) rest = rest w
  and_then (err e, w) rest = (w, false)

  abbrev pub write_status :
      (MachineStatusSpec → MachineStatusSpec) → Resources → Outcome (Unit {0}) × Resources
  write_status f w =
      let (r, c) = s.modify w.statuses machine_status_id new_machine_status (λ v. (f v, tt)) in
      (r, record w { statuses = c })

  -- setInstalledImage
  unfoldable pub set_installed_image : Text → Text → Resources → Outcome (Unit {0}) × Resources
  set_installed_image factory_host image w = elim (parse_image_ref factory_host image) [
    | none ↦ (err failed, w)
    | some parsed ↦
        let (r, c) = s.modify w.images image_id new_image (installed_image parsed) in
        (r, record w { images = c })
  ]

  -- reconcile: what follows the choice of the disk
  unfoldable pub install : Text → InstallConfig → Text → Resources → Resources × Bool
  unfolding set_installed_image
  install factory_host c disk w =
      and_then (write_status (λ v. record v { stage = installing; is_ready = false }) w) λ w1.
        and_then (set_installed_image factory_host c.image w1) λ w2.
          let (r, d) =
            s.modify w2.system_disks system_disk_id new_system_disk
              (λ v. (record { disk_id = disk; dev_path = dev_path disk }, tt)) in
          and_then (r, record w2 { system_disks = d }) λ w3. (w3, true)

  -- reconcile
  unfoldable pub reconcile_install :
      Text → Option (List Text) → MachineSetup → Resources → Resources × Bool
  unfolding install
  reconcile_install factory_host none c w = (w, false)
  reconcile_install factory_host (some disks) c w =
      let go : Bool → Resources × Bool = λ installed. elim c.install [
        | none ↦ (w, false)
        | some i ↦ if installed then (w, true) else elim (install_target i.install_disk disks) [
          | none ↦ (w, false)
          | some d ↦ install factory_host i d w
        ]
      ] in
      elim (s.get w.system_disks system_disk_id) [
        | ok r ↦ go (has_disk r.value.disk_id disks)
        | err e ↦ if is_not_found e then go false else (w, false)
      ]

  -- Run: the stage and the conditions of a machine with a configuration
  unfoldable pub report : StatusReads → Bool → MachineSetup → Resources → Resources × Bool
  unfolding check_services
  report reads is_rebooting c w =
      let write : Stage → List Condition → Resources × Bool = λ stage missing.
        elim (check_services reads.service (expected_services c.is_control_plane)) [
          | none ↦ (w, false)
          | some more ↦
              and_then
                (write_status
                  (λ v. record {
                    stage = if is_rebooting then rebooting else stage;
                    is_ready = is_empty (missing ++ more);
                    unmet = missing ++ more;
                  })
                  w)
                (λ w'. (w', true))
        ] in
      elim reads.version [
        | ok u ↦ write running []
        | err e ↦ if is_not_found e then write booting (no_version ∷ []) else (w, false)
      ]

  -- Run: a round from the configuration on
  unfoldable pub status_of : Text → StatusReads → Bool → Resources → Resources × Bool
  unfolding reconcile_install report
  status_of factory_host reads is_rebooting w = elim reads.config [
    | err e ↦
        if is_not_found e
        then and_then (write_status (λ v. record v { stage = maintenance; is_ready = true }) w)
            (λ w'. (w', true))
        else (w, false)
    | ok c ↦
        let (w', done) = reconcile_install factory_host reads.disks c w in
        if done then report reads is_rebooting c w' else (w', false)
  ]

  -- Run: one round. False is an error.
  unfoldable pub status_round : Text → StatusReads → Resources → Resources × Bool
  unfolding status_of
  status_round factory_host reads w = elim reads.reboot [
    | ok u ↦ status_of factory_host reads true w
    | err e ↦ if is_not_found e then status_of factory_host reads false w else (w, false)
  ]
