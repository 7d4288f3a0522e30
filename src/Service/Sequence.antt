-- ===== src/Service/Sequence.antt =====
-- MachineService.Upgrade, Reboot and Read of internal/pkg/machine/services/machined.go.
pub mod Reboots
use talemu.Prelude.{
  ℕ, Text, codes, text_eq, Bool, true, false, not, List, [], ◌∷◌, ◌++◌, if◌then◌else◌,
}
use talemu.Cosi.{Outcome, ok, err, State}
use talemu.Service.{
  failed_precondition, unimplemented, status, Result, Machine, Action, done, fault, ◌>>=◌, ◌>>◌,
  pure, raise, here,
}
use talemu.Service.Installer.{machine_installed, validate_installer, set_image, request_reboot}

module _ {s : State} where
  -- `if !sequenceMu.TryLock() { return errSequenceInProgress }; defer sequenceMu.Unlock()`
  unfoldable pub in_sequence : {A : Type 0} → Action s A → Action s A
  in_sequence body w =
      let (r, w') = body (record w { sequence_locked = true }) in
      if w.sequence_locked
      then (fault (status failed_precondition), w)
      else (r, record w' { sequence_locked = false })

  unfoldable pub upgrade_image : Text → Text → Action s (Unit {0})
  upgrade_image factory_host image = do
    validate_installer image
    changed ← set_image factory_host image
    if changed then request_reboot else pure tt

  -- MachineService.Upgrade
  unfoldable pub upgrade : Text → Text → Action s (Unit {0})
  upgrade factory_host image = in_sequence do
    installed ← machine_installed
    if not installed then raise (status failed_precondition) else upgrade_image factory_host image

  -- MachineService.Reboot
  unfoldable pub reboot : Action s (Unit {0})
  reboot = in_sequence request_reboot

  -- MachineService.Read: the boot ID file, with a newline, and no other file.
  unfoldable pub read_file : Text → Action s Text
  read_file path w =
      if not (text_eq path (codes "/proc/sys/kernel/random/boot_id"))
      then raise (status unimplemented) w
      else pure (w.boot_id ++ b'\n' ∷ []) w
