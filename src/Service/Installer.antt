-- ===== src/Service/Installer.antt =====
-- The steps that the install, upgrade and reboot handlers share: validateInstaller,
-- destroyResourceByID, setImage, requestReboot and kernelBootID of
-- internal/pkg/machine/services/machined.go, and machineInstalled of lifecycle.go.
use talemu.Prelude.{
  suc, Text, codes, text_eq, contains, Bool, true, false, not, ◌||◌, none, some, if◌then◌else◌,
}
use talemu.Cosi.{is_not_found, Outcome, ok, err, State}
use talemu.Specs.{ImageSpec, new_image}
use talemu.Image.{ImageRef, parse_image_ref}
use talemu.Service.{
  invalid_argument, status, state_error, Action, ◌>>=◌, ◌>>◌, pure, raise, read, write,
}

-- The IDs of the resources of which a machine has one. Their values do not matter to the code.
abbrev pub system_disk_id : Text
system_disk_id = codes "system-disk"

abbrev pub security_state_id : Text
security_state_id = codes "securitystate"

-- talos.ImageID, talos.RebootID
abbrev pub image_id : Text
image_id = codes "current"

abbrev pub reboot_id : Text
reboot_id = codes "reboot"

-- destroyResourceByID: `wait_finalizers` may find the resource gone, and the last call decides.
unfoldable pub destroy_resource :
    (s : State) {A : Type 0} → s.Coll A → Text → Outcome (Unit {0}) × s.Coll A
destroy_resource s c i =
    let (torn, c') = s.teardown c i in
    elim torn [
      | err e ↦ (err e, c')
      | ok _ ↦ elim (s.wait_finalizers c' i) [
        | ok _ ↦ s.destroy c' i
        | err e ↦ if not (is_not_found e) then (err e, c') else s.destroy c' i
      ]
    ]

-- The three assignments of the callback of setImage, and whether they changed anything.
unfoldable pub assign_image : ImageRef → ImageSpec → ImageSpec × Bool
assign_image parsed value = (
  record { version = parsed.version; schematic = parsed.schematic; host = parsed.host },
  not (text_eq value.schematic parsed.schematic)
      || not (text_eq value.version parsed.version)
      || not (text_eq value.host parsed.host),
)

abbrev pub ignore_absent : Outcome (Unit {0}) → Outcome (Unit {0})
ignore_absent (ok u) = ok u
ignore_absent (err e) = if not (is_not_found e) then err e else ok tt

module _ {s : State} where
  -- validateInstaller
  unfoldable pub validate_installer : Text → Action s (Unit {0})
  validate_installer image = do
    security ← read state_error (λ w. s.get w.security security_state_id)
    (if not security.value
        then pure tt
        else if not (contains image (codes "-secureboot"))
        then raise (status invalid_argument)
        else pure tt)

  -- machineInstalled: the presence of the system disk.
  unfoldable pub machine_installed : Action s Bool
  machine_installed w = elim (s.get w.system_disks system_disk_id) [
    | ok r ↦ pure true w
    | err e ↦ if is_not_found e then pure false w else raise (state_error e) w
  ]

  -- setImage: reports whether the image changed.
  unfoldable pub set_image : Text → Text → Action s Bool
  set_image factory_host image_ref = elim (parse_image_ref factory_host image_ref) [
    | none ↦ raise (status invalid_argument)
    | some parsed ↦ write state_error λ w.
        let (r, c) = s.modify w.images image_id new_image (assign_image parsed) in
        (r, record w { images = c })
  ]

  -- kernelBootID.rotate
  unfoldable pub rotate_boot_id : Action s (Unit {0})
  rotate_boot_id w = (pure tt) (record w { boot_id = w.uuids w.drawn; drawn = suc w.drawn })

  -- requestReboot: the reboot resource anew, with a downtime of two seconds, and a new boot ID.
  unfoldable pub request_reboot : Action s (Unit {0})
  request_reboot = do
    write state_error λ w.
        let (r, c) = destroy_resource s w.reboots reboot_id in
        (ignore_absent r, record w { reboots = c })
    write state_error
        λ w. let (r, c) = s.create w.reboots reboot_id 2 in (r, record w { reboots = c })
    rotate_boot_id
