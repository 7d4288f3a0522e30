-- ===== src/Service/Cluster/Membership.antt =====
-- ApplyConfiguration on a machine that is configured, and on one that is not.
use talemu.Prelude.{
  [], Option-cases, Bool-cases, Text, Bool, ◌+◌, ◌%◌, ◌^◌, if◌then◌else◌, true, none, some, is_some,
  ◌≡◌, refl, ap, ◌∙◌, ◌⊎◌, inl, inr, arith,
}
use talemu.Cosi.{not_found, ok, err, Resource, running, State, IsState, Holds, Present}
use talemu.Specs.{ClusterStatus, new_cluster_status, MachineStatus, MachineSection, MachineConfig}
use talemu.Service.{Machine, done}
use talemu.Service.Sequence.Reboots.{Accepts, validate_installer_lem}
use talemu.Service.Cluster.{
  active_id, no_reboot, reboot, control_plane, count_in, join_labels, get_complete, validate_config,
  apply,
}
use talemu.Service.Cluster.Steps.{
  IsVacantOrLive, store_config_lem, ensure_cluster_lem, update_cluster_lem, update_machine_lem,
  get_complete_lem,
}

module _ {s : State} (laws : IsState s) where
  -- The installer image of a configuration, if it has one, passes validateInstaller.
  abbrev pub IsAccepted : Machine s → MachineConfig → Type 0
  IsAccepted w cfg = elim cfg.machine [ none ↦ Unit | some m ↦ Accepts w m.install_image ]

  validate_config_lem :
      (w : Machine s) (cfg : MachineConfig)
      → IsAccepted w cfg
      → validate_config cfg w ≡ (done tt, w)
  unfolding validate_config
  validate_config_lem w cfg h = elim (Option-cases cfg.machine) [
    | inl e ↦ rw (e, validate_config)
    | inr (m, e) ↦
        let accepted : Accepts w m.install_image = rw e at h in
        ground (arith, validate_installer_lem laws w m.install_image accepted)
  ]

  -- No configuration, or a partial one.
  abbrev pub IsUnconfigured : Machine s → Type 0
  IsUnconfigured w =
      (s.get w.configs active_id ≡ err not_found)
      ⊎ ((r : Resource MachineConfig) × (s.get w.configs active_id ≡ ok r)
          × (r.phase ≡ running)
          × (r.value.machine ≡ none))

  get_complete-IsUnconfigured :
      (w : Machine s) → IsUnconfigured w → get_complete s w.configs ≡ err not_found
  unfolding get_complete
  get_complete-IsUnconfigured w h = ground arith

  vacant_of : (w : Machine s) → IsUnconfigured w → IsVacantOrLive laws w.configs active_id
  vacant_of w (inl h) = inl h
  vacant_of w (inr (r, h, p, _)) = inr (r, h, p)

  pub apply_joins :
      (w : Machine s) (cfg : MachineConfig) (now : ClusterStatus) (own : MachineStatus)
      → is_some cfg.machine ≡ true
      → IsAccepted w cfg
      → IsUnconfigured w
      → Holds s w.clusters cfg.cluster_id new_cluster_status now
      → Present s w.machines w.machine_id own
      → let (r, w') = apply cfg w in
        (r ≡ done reboot)
        × Present s w'.configs active_id cfg
        × Present s w'.clusters cfg.cluster_id (count_in (control_plane cfg) now)
        × Present s w'.machines w'.machine_id (join_labels cfg.cluster_id (control_plane cfg) own)
  unfolding apply
  apply_joins w cfg now own complete accepted fresh held known =
      let vacant : IsVacantOrLive laws w.configs active_id = vacant_of w fresh in
      let (configs, stored, config) = store_config_lem laws w cfg vacant in
      let w₁ : Machine s = record w { configs = configs } in
      let (clusters, ensured, cluster) = ensure_cluster_lem laws w₁ cfg.cluster_id now held in
      let w₂ : Machine s = record w₁ { clusters = clusters } in
      let (clusters', r, counted, got, live, value) =
        update_cluster_lem laws w₂ cfg.cluster_id (count_in (control_plane cfg)) cluster in
      let w₃ : Machine s = record w₂ { clusters = clusters' } in
      let (machines, labelled, machine) =
        update_machine_lem laws w₃ (join_labels cfg.cluster_id (control_plane cfg)) known in
      let applied : apply cfg w ≡ (done reboot, record w₃ { machines = machines }) = ground (
        arith,
        validate_config_lem w cfg accepted,
        get_complete-IsUnconfigured w fresh,
        stored,
        ensured,
        counted,
        labelled,
      ) in
      rw applied (refl, config, (r, got, live, value), machine)

  -- A machine counted by a role, and the labels of the role, written out.
  counted_lem :
      (is_control_plane : Bool) (now : ClusterStatus)
      → count_in is_control_plane now ≡ (
          if is_control_plane
          then record now { control_planes = (now.control_planes + 1) % 2 ^ 32 }
          else record now { workers = (now.workers + 1) % 2 ^ 32 })
  unfolding count_in
  counted_lem is_control_plane now = refl

  labelled_lem :
      (id : Text) (is_control_plane : Bool) (own : MachineStatus)
      → join_labels id is_control_plane own ≡ record own {
        labels = record {
          cluster = some id;
          control_plane_role = if is_control_plane then some [] else own.labels.control_plane_role;
          worker_role = if is_control_plane then own.labels.worker_role else some [];
        };
      }
  unfolding join_labels
  labelled_lem id is_control_plane own = elim (Bool-cases is_control_plane) [
    | inl e ↦ rw e refl
    | inr e ↦ rw e refl
  ]

  -- The first complete configuration of a machine, if its installer image is accepted, the machine's
  -- status is there and that of the cluster is not torn down, is stored and a reboot is asked for;
  -- the count of the control planes or of the workers of the cluster, by the machine's type, is one
  -- more (modulo 2^32) and the rest of the cluster's status, which is new where there was none, is
  -- as it was; and the machine's status is labelled with the cluster and with that role, and is
  -- otherwise as it was.
  pub apply_counts :
      (w : Machine s) (cfg : MachineConfig) (m : MachineSection) (now : ClusterStatus)
      (own : MachineStatus)
      → cfg.machine ≡ some m
      → Accepts w m.install_image
      → IsUnconfigured w
      → Holds s w.clusters cfg.cluster_id new_cluster_status now
      → Present s w.machines w.machine_id own
      → let (r, w') = apply cfg w in
        (r ≡ done reboot)
        × Present s w'.configs active_id cfg
        × Present s w'.clusters cfg.cluster_id (
            if m.is_control_plane
            then record now { control_planes = (now.control_planes + 1) % 2 ^ 32 }
            else record now { workers = (now.workers + 1) % 2 ^ 32 })
        × Present s w'.machines w'.machine_id (record own {
          labels = record {
            cluster = some cfg.cluster_id;
            control_plane_role =
                if m.is_control_plane then some [] else own.labels.control_plane_role;
            worker_role = if m.is_control_plane then own.labels.worker_role else some [];
          };
        })
  apply_counts w cfg m now own complete accepted fresh held known =
      let is_accepted : IsAccepted w cfg = rw complete accepted in
      let role : control_plane cfg ≡ m.is_control_plane = rw complete refl in
      let joined = apply_joins w cfg now own (rw complete refl) is_accepted fresh held known in
      rw
        (
          ← counted_lem m.is_control_plane now,
          ← labelled_lem cfg.cluster_id m.is_control_plane own,
          ← role,
        )
        joined

  -- On a machine that has a complete configuration, any later one that is accepted replaces it
  -- without a reboot, and neither the clusters nor the machine statuses change.
  pub apply_again :
      (w : Machine s) (cfg : MachineConfig) {old : MachineConfig}
      → is_some old.machine ≡ true
      → Present s w.configs active_id old
      → IsAccepted w cfg
      → let (r, w') = apply cfg w in
        (r ≡ done no_reboot)
        × Present s w'.configs active_id cfg
        × (w'.clusters ≡ w.clusters)
        × (w'.machines ≡ w.machines)
  unfolding apply
  apply_again w cfg complete (r, h, p, e) accepted =
      let (configs, stored, config) = store_config_lem laws w cfg (inr (r, h, p)) in
      let (r', known, _) = get_complete_lem laws w.configs (r, h, p, e) complete in
      let applied : apply cfg w ≡ (done no_reboot, record w { configs = configs }) =
        ground (arith, validate_config_lem w cfg accepted, known, stored) in
      rw applied (refl, config, refl, refl)

  -- A partial configuration is stored on a machine that is not configured, without a reboot, and
  -- the machine joins no cluster.
  pub apply_partial :
      (w : Machine s) (cfg : MachineConfig)
      → cfg.machine ≡ none
      → IsUnconfigured w
      → let (r, w') = apply cfg w in
        (r ≡ done no_reboot)
        × IsUnconfigured w'
        × (w'.clusters ≡ w.clusters)
        × (w'.machines ≡ w.machines)
  unfolding apply
  apply_partial w cfg partial fresh =
      let (configs, stored, (r, h, p, e)) = store_config_lem laws w cfg (vacant_of w fresh) in
      let applied : apply cfg w ≡ (done no_reboot, record w { configs = configs }) = ground (
        arith,
        validate_config_lem w cfg (rw partial tt),
        get_complete-IsUnconfigured w fresh,
        stored,
      ) in
      rw applied
        (refl, inr (r, h, p, ap (λ (c : MachineConfig). c.machine) e ∙ partial), refl, refl)
