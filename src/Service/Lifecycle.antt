-- ===== src/Service/Lifecycle.antt =====
-- LifecycleService of internal/pkg/machine/services/lifecycle.go.
pub mod Installs
use talemu.Prelude.{
  ℕ, zero, suc, Text, codes, before, Bool, true, false, not, List, [], ◌∷◌, ◌++◌, ◌==◌,
  if◌then◌else◌,
}
use mathlib.Core.List.{reverse}
use talemu.Cosi.{Outcome, ok, err, State}
use talemu.Specs.{SystemDisk, new_system_disk}
use talemu.Image.{is_empty}
use talemu.Service.{
  failed_precondition, invalid_argument, already_exists, status, state_error, other, Result,
  Machine, Action, Progress, message, exit_code, done, fault, ◌>>=◌, ◌>>◌, pure, raise, write,
}
use talemu.Service.Installer.{system_disk_id, machine_installed, validate_installer, set_image}

drop_slashes : Text → Text
drop_slashes [] = []
drop_slashes (c ∷ p) = if c == b'/' then drop_slashes p else c ∷ p

-- filepath.Base
unfoldable pub base : Text → Text
unfolding drop_slashes
base [] = codes "."
base path =
    let trimmed = drop_slashes (reverse path) in
    if is_empty trimmed then codes "/" else reverse (before b'/' trimmed)

-- The progress of an installation.
unfoldable pub install_messages : Text → Text → List Text
install_messages image disk =
    (codes "[talemu] installing " ++ (image ++ (codes " to " ++ disk)))
    ∷ codes "[talemu] writing system partitions"
    ∷ codes "[talemu] installation complete"
    ∷ []

unfoldable pub upgrade_messages : Text → List Text
upgrade_messages image =
    (codes "[talemu] upgrading to " ++ image)
    ∷ codes "[talemu] writing new system image"
    ∷ codes "[talemu] upgrade complete"
    ∷ []

module _ {s : State} where
  -- srv.Send: it fails once the client has gone.
  unfoldable pub send : Progress → Action s (Unit {0})
  send p w = elim w.sends_left [
    | zero ↦ raise other w
    | suc n ↦ pure tt (record w { sent = w.sent ++ p ∷ []; sends_left = n })
  ]

  -- streamInstallerProgress
  unfoldable pub stream_installer_progress : List Text → Action s (Unit {0})
  stream_installer_progress [] = send (exit_code 0)
  stream_installer_progress (msg ∷ messages) =
      let rest = stream_installer_progress messages in send (message msg) >> rest

  -- `if !lifecycleMu.TryLock() { return errLifecycleInProgress }; defer lifecycleMu.Unlock()`
  unfoldable pub in_lifecycle : {A : Type 0} → Action s A → Action s A
  in_lifecycle body w =
      let (r, w') = body (record w { lifecycle_locked = true }) in
      if w.lifecycle_locked
      then (fault (status failed_precondition), w)
      else (r, record w' { lifecycle_locked = false })

  unfoldable pub set_system_disk : Text → Action s (Unit {0})
  set_system_disk disk = write state_error λ w.
      let (r, c) =
        s.modify w.system_disks system_disk_id new_system_disk
          (λ _. (record { disk_id = base disk; dev_path = disk }, tt)) in
      (r, record w { system_disks = c })

  -- LifecycleService.Install
  unfoldable pub install : Text → Text → Text → Action s (Unit {0})
  install factory_host image disk = in_lifecycle (
      if is_empty image
      then raise (status invalid_argument)
      else if is_empty disk
      then raise (status invalid_argument)
      else do
        validate_installer image
        installed ← machine_installed
        if installed then raise (status already_exists) else do
          set_image factory_host image
          set_system_disk disk
          stream_installer_progress (install_messages image disk))

  -- LifecycleService.Upgrade
  unfoldable pub upgrade : Text → Text → Action s (Unit {0})
  upgrade factory_host image = in_lifecycle (
      if is_empty image then raise (status invalid_argument) else do
        validate_installer image
        installed ← machine_installed
        if not installed then raise (status failed_precondition) else do
          set_image factory_host image
          stream_installer_progress (upgrade_messages image))
