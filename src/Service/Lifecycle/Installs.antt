-- ===== src/Service/Lifecycle/Installs.antt =====
-- Installations and upgrades over the lifecycle service: what they record, and what they stream.
use talemu.Prelude.{
  ℕ, suc, ◌+◌, Text, true, false, List, [], ◌∷◌, ◌++◌, map, some, length, ◌≡◌, refl, ◌∙◌, arith,
}
use mathlib.Core.List.{append_assoc}
use talemu.Cosi.{not_found, err, fresh, State, IsState, Holds, Present}
use talemu.Cosi.Laws.{if_self}
use talemu.Specs.{ImageSpec, new_image, SystemDisk, new_system_disk}
use talemu.Image.{ImageRef, parse_image_ref, is_empty}
use talemu.Service.{
  failed_precondition, already_exists, status, Machine, Progress, message, exit_code, done, fault,
}
use talemu.Service.Installer.{system_disk_id, image_id, assign_image, machine_installed}
use talemu.Service.Sequence.Reboots.{
  held_image, Accepts, IsInstalled, validate_installer_lem, machine_installed_lem, set_image_lem,
}
use talemu.Service.Lifecycle.{
  base, send, stream_installer_progress, in_lifecycle, set_system_disk, install_messages, install,
  upgrade,
}

-- The whole stream of a success.
abbrev pub success_stream : List Text → List Progress
success_stream messages = map message messages ++ exit_code 0 ∷ []

module _ {s : State} where
  send_lem :
      (p : Progress) (w : Machine s) (n : ℕ)
      → w.sends_left ≡ suc n
      → send p w ≡ (done tt, record w { sent = w.sent ++ p ∷ []; sends_left = n })
  unfolding send
  send_lem p w n h = ground arith

  -- With room for every message and the exit code, the stream is sent whole, and in order.
  pub stream_lem :
      (messages : List Text) (w : Machine s) (left : ℕ)
      → w.sends_left ≡ suc (length messages) + left
      → stream_installer_progress messages w
        ≡ (done tt, record w { sent = w.sent ++ success_stream messages; sends_left = left })
  unfolding stream_installer_progress
  stream_lem [] w left h = send_lem (exit_code 0) w left (omega arith)
  stream_lem (m ∷ messages) w left h =
      let n : ℕ = suc (length messages) + left in
      let w₁ : Machine s = record w { sent = w.sent ++ message m ∷ []; sends_left = n } in
      ground (
        arith,
        send_lem (message m) w n (omega arith),
        stream_lem messages w₁ left refl,
        append_assoc w.sent (message m ∷ []) (success_stream messages),
      )

  not_installed_lem :
      (w : Machine s)
      → s.get w.system_disks system_disk_id ≡ err not_found
      → machine_installed w ≡ (done false, w)
  unfolding machine_installed
  not_installed_lem w h = ground arith

module _ {s : State} (laws : IsState s) where
  set_system_disk_lem :
      (w : Machine s) (disk : Text)
      → s.get w.system_disks system_disk_id ≡ err not_found
      → (disks : s.Coll SystemDisk) × (set_system_disk disk w
          ≡ (done tt, record w { system_disks = disks }))
        × Present s disks system_disk_id (record { disk_id = base disk; dev_path = disk })
  unfolding set_system_disk
  set_system_disk_lem w disk h =
      let assign : SystemDisk → SystemDisk × Unit {0} =
        λ _. (record { disk_id = base disk; dev_path = disk }, tt) in
      let made =
        laws.modify_absent SystemDisk Unit w.system_disks system_disk_id new_system_disk assign h in
      let got =
        laws.get-modify_absent SystemDisk Unit w.system_disks system_disk_id new_system_disk assign
          system_disk_id h in
      (
        (s.modify w.system_disks system_disk_id new_system_disk assign).1,
        ground (arith, made),
        (
          fresh system_disk_id (assign new_system_disk).0,
          got ∙ if_self system_disk_id _ _,
          refl,
          refl,
        ),
      )

  -- An install on a machine that has no system disk, with an image and a disk given, no other
  -- install or upgrade running, an image that parses and that the boot mode accepts, and a client
  -- that stays, succeeds where the image resource is not torn down: the system disk is recorded, and
  -- so are the version, the schematic and the host of the image, the progress ends with exit code 0,
  -- and the lock is free.
  pub install_lem :
      (w : Machine s) (factory_host image disk : Text) (now : ImageSpec) (parsed : ImageRef)
      (left : ℕ)
      → w.lifecycle_locked ≡ false
      → is_empty image ≡ false
      → is_empty disk ≡ false
      → Accepts w image
      → s.get w.system_disks system_disk_id ≡ err not_found
      → Holds s w.images image_id new_image now
      → parse_image_ref factory_host image ≡ some parsed
      → w.sends_left ≡ suc (length (install_messages image disk)) + left
      → let (r, w') = install factory_host image disk w in
        (r ≡ done tt)
        × Present s w'.system_disks system_disk_id (record { disk_id = base disk; dev_path = disk })
        × Holds s w'.images image_id new_image
            (record { version = parsed.version; schematic = parsed.schematic; host = parsed.host })
        × (w'.sent ≡ w.sent ++ success_stream (install_messages image disk))
        × (w'.lifecycle_locked ≡ false)
  unfolding install in_lifecycle
  install_lem w factory_host image disk now parsed left free given given' accepted absent h p room =
      let messages = install_messages image disk in
      let w₀ : Machine s = record w { lifecycle_locked = true } in
      let w₁ : Machine s = record w₀ {
        images = (s.modify w.images image_id new_image (assign_image parsed)).1;
      } in
      let (disks, recorded, present) = set_system_disk_lem w₁ disk absent in
      let w₂ : Machine s = record w₁ { system_disks = disks } in
      let installed : install factory_host image disk w ≡ (
        done tt,
        record w₂ {
          sent = w.sent ++ success_stream messages;
          sends_left = left;
          lifecycle_locked = false;
        },
      ) =
        ground (
          arith,
          validate_installer_lem laws w₀ image accepted,
          not_installed_lem w₀ absent,
          set_image_lem laws w₀ factory_host image now parsed h p,
          recorded,
          stream_lem messages w₂ left room,
        ) in
      rw installed (refl, present, held_image laws w.images now parsed h, refl, refl)

  -- A machine that has a system disk cannot be installed again, and one that has none cannot be
  -- upgraded: with an accepted image and no other install or upgrade running, the calls are refused
  -- with AlreadyExists and FailedPrecondition, and change nothing.
  pub lifecycle_needs :
      (w : Machine s) (factory_host image disk : Text)
      → w.lifecycle_locked ≡ false
      → is_empty image ≡ false
      → is_empty disk ≡ false
      → Accepts w image
      → (IsInstalled w → install factory_host image disk w ≡ (fault (status already_exists), w))
        × (s.get w.system_disks system_disk_id ≡ err not_found
            → upgrade factory_host image w ≡ (fault (status failed_precondition), w))
  unfolding install upgrade in_lifecycle
  lifecycle_needs w factory_host image disk free given given' accepted =
      let w₀ : Machine s = record w { lifecycle_locked = true } in
      (
        (λ installed. ground (
          arith,
          validate_installer_lem laws w₀ image accepted,
          machine_installed_lem laws w₀ installed,
        )),
        (λ absent.
            ground
              (arith, validate_installer_lem laws w₀ image accepted, not_installed_lem w₀ absent)),
      )

-- A call that finds the lifecycle lock held is refused and changes nothing; any call that does not
-- find it held leaves it free, whatever its outcome.
pub lifecycle_lock :
    (s : State) (w : Machine s) (factory_host image disk : Text)
    → (w.lifecycle_locked ≡ true
        → (install factory_host image disk w ≡ (fault (status failed_precondition), w))
          × (upgrade factory_host image w ≡ (fault (status failed_precondition), w)))
      × (w.lifecycle_locked ≡ false
          → ((install factory_host image disk w).1.lifecycle_locked ≡ false)
            × ((upgrade factory_host image w).1.lifecycle_locked ≡ false))
unfolding install upgrade in_lifecycle
lifecycle_lock s w factory_host image disk = ((λ h. (rw h, rw h)), (λ h. (rw h, rw h)))
