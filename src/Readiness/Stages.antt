-- ===== src/Readiness/Stages.antt =====
-- What a round writes of the stage and the readiness, and what it installs.
use talemu.Prelude.{
  Text, Bool, true, false, ◌&&◌, List, [], ◌∷◌, Option, none, some, if◌then◌else◌, ◌≡◌, refl, ap,
  ◌⊎◌, inl, inr, arith,
}
use talemu.Cosi.{State, IsState, Outcome, ok, err, not_found, Holds, Present}
use talemu.Cosi.Laws.{modify_self}
use talemu.Image.{is_empty}
use talemu.Service.Installer.{system_disk_id}
use talemu.Readiness.{
  booting, maintenance, running, rebooting, MachineStatusSpec, new_machine_status, SystemDisk,
  MachineSetup, ServiceHealth, StatusReads, machine_status_id, expected_services, Resources,
  write_status, status_of, status_round,
}

-- A service that can be read.
abbrev pub IsKnown : {A : Type 0} → Outcome A → Type 0
IsKnown o = (o ≡ err not_found) ⊎ ((a : _) × (o ≡ ok a))

abbrev pub is_up : Outcome ServiceHealth → Bool
is_up (ok h) = h.is_healthy && h.is_running
is_up (err e) = false

abbrev pub all_up : (Text → Outcome ServiceHealth) → List Text → Bool
all_up read [] = true
all_up read (n ∷ ns) = is_up (read n) && all_up read ns

abbrev pub is_found : {A : Type 0} → Outcome A → Bool
is_found (ok a) = true
is_found (err e) = false

module _ {s : State} (laws : IsState s) where
  -- What the resource of the status holds, the empty status where there is none.
  abbrev pub HoldsStatus : Resources s → MachineStatusSpec → Type 0
  HoldsStatus w v = Holds s w.statuses machine_status_id new_machine_status v

  write_status_lem :
      (f : MachineStatusSpec → MachineStatusSpec) (w : Resources s) (v : MachineStatusSpec)
      → HoldsStatus w v
      → (c : s.Coll MachineStatusSpec) × (write_status s f w ≡ (ok tt, record w { statuses = c }))
        × HoldsStatus (record w { statuses = c }) (f v)
  write_status_lem f w v h =
      let (done, now) =
        modify_self laws w.statuses machine_status_id new_machine_status (λ v. (f v, tt)) h in
      (
        (s.modify w.statuses machine_status_id new_machine_status (λ v. (f v, tt))).1,
        ap
            (λ (o : Outcome (Unit {0})). (
              o,
              record w {
                statuses =
                    (s.modify w.statuses machine_status_id new_machine_status (λ v. (f v, tt))).1;
              },
            ))
            done,
        now,
      )

  -- A status of a machine with a configuration: ready just where the version is known and all the
  -- services are up.
  abbrev pub Reports : StatusReads → Bool → MachineSetup → MachineStatusSpec → Type 0
  Reports reads is_rebooting c v =
      (v.stage
        ≡ (if is_rebooting then rebooting else if is_found reads.version then running else booting))
      × (v.is_ready
          ≡ (is_found reads.version && all_up reads.service (expected_services c.is_control_plane)))
      × (is_empty v.unmet ≡ v.is_ready)

  abbrev pub DiskIs : Resources s → SystemDisk → Type 0
  DiskIs w d = Present s w.system_disks system_disk_id d

  abbrev disk_or : Text → Option Text → Text
  disk_or d none = d
  disk_or d (some x) = x

  -- Without a configuration a machine is in maintenance and ready, but the unmet conditions that the
  -- status held stay in it.  This assumes that the read of the reboot status answers, that the status
  -- is not torn down, and a state that keeps its laws.
  pub status_round-maintenance :
      (factory_host : Text) (reads : StatusReads) (w : Resources s) (v : MachineStatusSpec)
      → IsKnown reads.reboot
      → reads.config ≡ err not_found
      → HoldsStatus w v
      → let end = status_round s factory_host reads w in
        (end.1 ≡ true)
        × HoldsStatus end.0 (record { stage = maintenance; is_ready = true; unmet = v.unmet })
  unfolding status_round status_of
  status_round-maintenance factory_host reads w v k e h =
      let (c, eq, now) =
        write_status_lem (λ v. record v { stage = maintenance; is_ready = true }) w v h in
      let whole : status_round s factory_host reads w ≡ (record w { statuses = c }, true) = elim k [
        | inl n ↦ ground (arith, n, e, eq)
        | inr (t, n) ↦ ground (arith, n, e, eq)
      ] in
      rw whole (refl, now)
