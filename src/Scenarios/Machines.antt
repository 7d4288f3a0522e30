-- ===== src/Scenarios/Machines.antt =====
-- Installs, upgrades and reboots.
use talemu.Prelude.{
  ℕ, some, codes, text_eq, split, before, after, has_byte, last_or, false, ◌≡◌, refl, inl, [], ◌∷◌,
}
use talemu.Cosi.{fresh, not_found, err}
use talemu.Cosi.InMemory.{in_memory, in_memory-IsState}
use talemu.Specs.{new_image}
use talemu.Image.{ImageRef, parse_image_ref}
use talemu.Service.{done, Machine}
use talemu.Service.Installer.{image_id, security_state_id, reboot_id, system_disk_id}
use talemu.Service.Sequence.{upgrade}
use talemu.Service.Sequence.Reboots.{upgrade-boot_id, upgrade-upgrade, Accepts, IsInstalled}
use talemu.Service.Lifecycle.{install, install_messages}
use talemu.Service.Lifecycle.Installs.{install_lem}
use talemu.Scenarios.{installed, installer, factory_host, bare}

abbrev pub parsed_installer : ImageRef
parsed_installer = record {
  host = factory_host;
  schematic = codes "376567";
  version = codes "v1.10.0";
}

pub installer-parses : parse_image_ref factory_host installer ≡ some parsed_installer
unfolding parse_image_ref split before after has_byte last_or text_eq
installer-parses = refl

no_image : in_memory.get installed.images image_id ≡ err not_found
unfolding in_memory text_eq
no_image = refl

no_reboot_yet : in_memory.get installed.reboots reboot_id ≡ err not_found
unfolding in_memory text_eq
no_reboot_yet = refl

accepted : Accepts installed installer
unfolding in_memory text_eq
accepted = (fresh security_state_id false, refl, refl)

accepted_bare : Accepts bare installer
unfolding in_memory text_eq
accepted_bare = (fresh security_state_id false, refl, refl)

has_disk : IsInstalled installed
unfolding in_memory text_eq
has_disk =
    (fresh system_disk_id (record { disk_id = codes "sda"; dev_path = codes "/dev/sda" }), refl)

no_disk : in_memory.get bare.system_disks system_disk_id ≡ err not_found
unfolding in_memory text_eq
no_disk = refl

upgrade-boot_id_example : (upgrade factory_host installer installed).0 ≡ done tt
upgrade-boot_id_example =
    (upgrade-boot_id in_memory-IsState installed factory_host installer new_image parsed_installer
      refl has_disk accepted (inl (no_image, refl)) installer-parses (inl no_reboot_yet)).0

upgrade-upgrade_example :
    (upgrade factory_host installer (upgrade factory_host installer installed).1).0 ≡ done tt
upgrade-upgrade_example =
    (upgrade-upgrade in_memory-IsState installed factory_host installer new_image parsed_installer
      refl has_disk accepted (inl (no_image, refl)) installer-parses (inl no_reboot_yet)).0

drawn_once : (i j : ℕ) → (i ∷ []) ≡ (j ∷ []) → i ≡ j
drawn_once i j h = cc

abbrev restarted : Machine in_memory
restarted = record installed { boot_id = 0 ∷ []; drawn = 1 }

install_lem_example : (install factory_host installer (codes "/dev/sda") bare).0 ≡ done tt
unfolding install_messages
install_lem_example =
    (install_lem in_memory-IsState bare factory_host installer (codes "/dev/sda") new_image
      parsed_installer 96 refl refl refl accepted_bare no_disk (inl (no_image, refl))
      installer-parses refl).0
