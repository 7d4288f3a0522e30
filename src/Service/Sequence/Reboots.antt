-- ===== src/Service/Sequence/Reboots.antt =====
-- Upgrades and reboots: which image they record, and when the boot ID changes.
use talemu.Prelude.{
  ℕ, suc, ◌<◌, Text, codes, text_eq_iff, text_eq_refl, contains, Bool, true, false, not, ◌||◌, some,
  if◌then◌else◌, ◌≡◌, ◌≢◌, refl, ◌∙◌, inl, inr, arith, Bool-cases,
}
use talemu.Cosi.{not_found, ok, err, Resource, fresh, State, IsState, IsReadable, Holds}
use talemu.Cosi.Laws.{create_self, destroy_self, modify_self}
use talemu.Specs.{SystemDisk, ImageSpec, new_image}
use talemu.Image.{ImageRef, parse_image_ref}
use talemu.Service.{failed_precondition, status, Machine, done, fault}
use talemu.Service.Installer.{
  system_disk_id, security_state_id, image_id, reboot_id, destroy_resource, assign_image,
  validate_installer, machine_installed, set_image, rotate_boot_id, request_reboot, ignore_absent,
}
use talemu.Service.Sequence.{in_sequence, upgrade_image, upgrade, reboot}

module _ {s : State} where
  -- validateInstaller lets the image through.
  abbrev pub Accepts : Machine s → Text → Type 0
  Accepts w image =
      (r : Resource Bool) × (s.get w.security security_state_id ≡ ok r)
      × ((not r.value || contains image (codes "-secureboot")) ≡ true)

  abbrev pub IsInstalled : Machine s → Type 0
  IsInstalled w = (r : Resource SystemDisk) × (s.get w.system_disks system_disk_id ≡ ok r)

module _ {s : State} (laws : IsState s) where
  destroy_resource_lem :
      {A : Type 0} (c : s.Coll A) (i : Text)
      → IsReadable s c i
      → (ignore_absent (destroy_resource s c i).0 ≡ ok tt)
        × (s.get (destroy_resource s c i).1 i ≡ err not_found)
  unfolding destroy_resource
  destroy_resource_lem {A} c i (inl h) = ground (arith, laws.teardown_absent A c i h)
  destroy_resource_lem {A} c i (inr (r, h)) = ground (arith, destroy_self laws c i h)

  -- The reboots after a request: the earlier one destroyed, if any, and the new one created.
  abbrev pub requested : s.Coll ℕ → s.Coll ℕ
  requested c = (s.create (destroy_resource s c reboot_id).1 reboot_id 2).1

  pub get-requested :
      (c : s.Coll ℕ)
      → IsReadable s c reboot_id
      → s.get (requested c) reboot_id ≡ ok (fresh reboot_id 2)
  get-requested c h = (create_self laws _ reboot_id 2 (destroy_resource_lem c reboot_id h).1).1

  pub request_reboot_lem :
      (w : Machine s)
      → IsReadable s w.reboots reboot_id
      → request_reboot w ≡ (
        done tt,
        record w { reboots = requested w.reboots; boot_id = w.uuids w.drawn; drawn = suc w.drawn },
      )
  unfolding request_reboot rotate_boot_id
  request_reboot_lem w h =
      let gone = destroy_resource_lem w.reboots reboot_id h in
      ground (
        arith,
        gone,
        create_self laws (destroy_resource s w.reboots reboot_id).1 reboot_id 2 gone.1,
      )

  pub set_image_lem :
      (w : Machine s) (factory_host image : Text) (now : ImageSpec) (parsed : ImageRef)
      → Holds s w.images image_id new_image now
      → parse_image_ref factory_host image ≡ some parsed
      → set_image factory_host image w ≡ (
        done (assign_image parsed now).1,
        record w { images = (s.modify w.images image_id new_image (assign_image parsed)).1 },
      )
  unfolding set_image
  set_image_lem w factory_host image now parsed h p =
      ground (arith, (modify_self laws w.images image_id new_image (assign_image parsed) h).0)

  pub validate_installer_lem :
      (w : Machine s) (image : Text) → Accepts w image → validate_installer image w ≡ (done tt, w)
  unfolding validate_installer
  validate_installer_lem w image h = ground arith

  pub machine_installed_lem : (w : Machine s) → IsInstalled w → machine_installed w ≡ (done true, w)
  unfolding machine_installed
  machine_installed_lem w h = ground arith

  -- The machine after an upgrade: a reboot is requested only if the image changed.
  abbrev pub upgraded : Machine s → ImageRef → Bool → Machine s
  upgraded w parsed changed =
      let images' = (s.modify w.images image_id new_image (assign_image parsed)).1 in
      if changed
      then record w {
        images = images';
        reboots = requested w.reboots;
        boot_id = w.uuids w.drawn;
        drawn = suc w.drawn;
        sequence_locked = false;
      }
      else record w { images = images'; sequence_locked = false }

  pub upgrade_lem :
      (w : Machine s) (factory_host image : Text) (now : ImageSpec) (parsed : ImageRef)
      → w.sequence_locked ≡ false
      → IsInstalled w
      → Accepts w image
      → Holds s w.images image_id new_image now
      → parse_image_ref factory_host image ≡ some parsed
      → IsReadable s w.reboots reboot_id
      → upgrade factory_host image w ≡ (done tt, upgraded w parsed (assign_image parsed now).1)
  unfolding upgrade in_sequence upgrade_image
  upgrade_lem w factory_host image now parsed free installed accepted h p readable =
      let w₀ : Machine s = record w { sequence_locked = true } in
      let w₁ : Machine s = record w₀ {
        images = (s.modify w.images image_id new_image (assign_image parsed)).1;
      } in
      ground (
        arith,
        machine_installed_lem w₀ installed,
        validate_installer_lem w₀ image accepted,
        set_image_lem w₀ factory_host image now parsed h p,
        request_reboot_lem w₁ readable,
      )

  -- The version, schematic and host of an image reference.
  abbrev pub image_of : ImageRef → ImageSpec
  image_of parsed = record {
    version = parsed.version;
    schematic = parsed.schematic;
    host = parsed.host;
  }

  assign_image-image_of :
      (parsed : ImageRef) (now : ImageSpec)
      → ((assign_image parsed now).0 ≡ image_of parsed)
        × ((assign_image parsed now).1 ≡ false → now ≡ image_of parsed)
        × (now ≡ image_of parsed → (assign_image parsed now).1 ≡ false)
  unfolding assign_image
  assign_image-image_of parsed now = (
    refl,
    (λ h.
        let version : now.version ≡ parsed.version =
          (text_eq_iff now.version parsed.version).0 (ground arith) in
        let schematic : now.schematic ≡ parsed.schematic =
          (text_eq_iff now.schematic parsed.schematic).0 (ground arith) in
        let host : now.host ≡ parsed.host = (text_eq_iff now.host parsed.host).0 (ground arith) in
        rw (← version, ← schematic, ← host) refl),
    (λ e. rw e (simp text_eq_refl)),
  )

  pub held_image :
      (c : s.Coll ImageSpec) (now : ImageSpec) (parsed : ImageRef)
      → Holds s c image_id new_image now
      → Holds s
          (s.modify c image_id new_image (assign_image parsed)).1
          image_id
          new_image
          (image_of parsed)
  held_image c now parsed h =
      rw (← (assign_image-image_of parsed now).0)
        ((modify_self laws c image_id new_image (assign_image parsed) h).1)

  -- An upgrade of an installed machine with no other sequence running, to an image that parses and
  -- that the boot mode accepts, succeeds where the image resource is not torn down and the reboot
  -- resource can be read: the image resource then holds the version, the schematic and the host of
  -- the image reference, the sequence lock is free, and the boot ID is kept if these are what the
  -- image resource held before, and is a newly drawn one if they are not.
  pub upgrade-boot_id :
      (w : Machine s) (factory_host image : Text) (now : ImageSpec) (parsed : ImageRef)
      → w.sequence_locked ≡ false
      → IsInstalled w
      → Accepts w image
      → Holds s w.images image_id new_image now
      → parse_image_ref factory_host image ≡ some parsed
      → IsReadable s w.reboots reboot_id
      → let (r, w') = upgrade factory_host image w in
        let wanted : ImageSpec = record {
          version = parsed.version;
          schematic = parsed.schematic;
          host = parsed.host;
        } in
        (r ≡ done tt)
        × Holds s w'.images image_id new_image wanted
        × (w'.sequence_locked ≡ false)
        × (now ≡ wanted → w'.boot_id ≡ w.boot_id)
        × (now ≢ wanted → w'.boot_id ≡ w.uuids w.drawn)
  upgrade-boot_id w factory_host image now parsed free installed accepted h p readable =
      let assigned = assign_image-image_of parsed now in
      let held = held_image w.images now parsed h in
      rw (upgrade_lem w factory_host image now parsed free installed accepted h p readable)
        (elim (Bool-cases (assign_image parsed now).1) [
          | inl e ↦ rw e (refl, held, refl, (λ same. absurd (cc (e, assigned.2 same))), (λ _. refl))
          | inr e ↦ rw e (refl, held, refl, (λ _. refl), (λ other. absurd (other (assigned.1 e))))
        ])

  assign_image_again :
      (parsed : ImageRef) (now : ImageSpec)
      → (assign_image parsed (assign_image parsed now).0).1 ≡ false
  unfolding assign_image
  assign_image_again parsed now = simp text_eq_refl

  -- After an upgrade of an installed machine with no other sequence running, to an image that parses
  -- and is accepted, where the image resource is not torn down and the reboot resource can be read, a
  -- second upgrade to the same image succeeds too, and leaves the boot
  -- ID and the reboot requests as the first one left them.
  pub upgrade-upgrade :
      (w : Machine s) (factory_host image : Text) (now : ImageSpec) (parsed : ImageRef)
      → w.sequence_locked ≡ false
      → IsInstalled w
      → Accepts w image
      → Holds s w.images image_id new_image now
      → parse_image_ref factory_host image ≡ some parsed
      → IsReadable s w.reboots reboot_id
      → let w₁ = (upgrade factory_host image w).1 in
        let (r, w₂) = upgrade factory_host image w₁ in
        (r ≡ done tt) × (w₂.boot_id ≡ w₁.boot_id) × (w₂.reboots ≡ w₁.reboots)
  upgrade-upgrade w factory_host image now parsed free installed accepted h p readable =
      let set = (modify_self laws w.images image_id new_image (assign_image parsed) h).1 in
      let again =
        λ (w₁ : Machine s) (free₁ : w₁.sequence_locked ≡ false) (installed₁ : IsInstalled w₁)
            (accepted₁ : Accepts w₁ image)
            (h₁ : Holds s w₁.images image_id new_image (assign_image parsed now).0)
            (readable₁ : IsReadable s w₁.reboots reboot_id).
          upgrade_lem w₁ factory_host image (assign_image parsed now).0 parsed free₁ installed₁
            accepted₁ h₁ p readable₁ in
      rw (upgrade_lem w factory_host image now parsed free installed accepted h p readable)
        (elim (Bool-cases (assign_image parsed now).1) [
          | inl e ↦ rw e (
              rw
                (again (upgraded w parsed true) refl installed accepted set
                  (inr (fresh reboot_id 2, get-requested w.reboots readable)))
                (rw (assign_image_again parsed now) (refl, refl, refl)))
          | inr e ↦ rw e (
              rw (again (upgraded w parsed false) refl installed accepted set readable)
                (rw (assign_image_again parsed now) (refl, refl, refl)))
        ])

  -- The boot ID is one that was drawn.
  abbrev pub IsDrawn : Machine s → Type 0
  IsDrawn w = (k : ℕ) × (k < w.drawn) × (w.boot_id ≡ w.uuids k)

  -- A reboot of a machine with no other sequence running, whose reboot resource can be read and whose
  -- boot ID was drawn, succeeds, and if no UUID is drawn twice the machine comes up with another boot
  -- ID, which is a drawn one again.
  pub reboot-boot_id :
      (w : Machine s)
      → w.sequence_locked ≡ false
      → IsReadable s w.reboots reboot_id
      → ((i j : ℕ) → w.uuids i ≡ w.uuids j → i ≡ j)
      → IsDrawn w
      → ((reboot w).0 ≡ done tt) × ((reboot w).1.boot_id ≢ w.boot_id) × IsDrawn (reboot w).1
  unfolding reboot in_sequence
  reboot-boot_id w free readable unique (k, lt, e) =
      rw (free, request_reboot_lem (record w { sequence_locked = true }) readable)
        (
          refl,
          (λ same. absurd (omega (arith, unique w.drawn k (same ∙ e)))),
          (w.drawn, omega arith, refl),
        )

  -- While a sequence is running, an upgrade and a reboot are refused, and change nothing.
  pub sequence_exclusive :
      (w : Machine s) (factory_host image : Text)
      → w.sequence_locked ≡ true
      → (upgrade factory_host image w ≡ (fault (status failed_precondition), w))
        × (reboot w ≡ (fault (status failed_precondition), w))
  unfolding upgrade reboot in_sequence
  sequence_exclusive w factory_host image h = (rw h, rw h)
