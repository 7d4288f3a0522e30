-- ===== src/Service/Cluster/Departure.antt =====
-- Reset, alone and after ApplyConfiguration.
use talemu.Prelude.{
  suc, ◌<◌, ◌^◌, Text, codes, Bool, true, ◌&&◌, List, is_some, ◌==◌, if◌then◌else◌, ◌≡◌, refl, ap,
  ◌∙◌, inl, inr, arith, Bool-cases,
}
use talemu.Cosi.{
  not_found, ok, err, Resource, Phase, running, tearing_down, State, IsState, Present, Holds,
}
use talemu.Cosi.Laws.{if_self}
use talemu.Specs.{ClusterStatus, new_cluster_status, MachineStatus, MachineConfig}
use talemu.Service.{Machine, done}
use talemu.Service.Installer.{destroy_resource}
use talemu.Service.Cluster.{
  active_id, control_plane, count_in, count_out, join_labels, leave_labels, get_complete,
  update_cluster, update_machine, apply, any_label, teardown_if_empty, reset,
}
use talemu.Service.Cluster.Steps.{update_cluster_lem, update_machine_lem, destroy_config_lem}
use talemu.Service.Cluster.Membership.{IsAccepted, IsUnconfigured, apply_joins}

-- No machine is counted.
abbrev pub is_vacated : ClusterStatus → Bool
is_vacated c = c.control_planes == 0 && c.workers == 0

abbrev pub phase_after : ClusterStatus → Phase
phase_after c = if is_vacated c then tearing_down else running

module _ {s : State} (laws : IsState s) where
  teardown_if_empty_lem :
      (w : Machine s) (id : Text) (r : Resource ClusterStatus)
      → s.get w.clusters id ≡ ok r
      → r.phase ≡ running
      → (c : s.Coll ClusterStatus) × (teardown_if_empty id r.value w
          ≡ (done tt, record w { clusters = c }))
        × (s.get c id ≡ ok (record r { phase = phase_after r.value }))
  unfolding teardown_if_empty
  teardown_if_empty_lem w id r h p = elim (Bool-cases (is_vacated r.value)) [
    | inl e ↦ (
      (s.teardown w.clusters id).1,
      ground (arith, laws.teardown_present ClusterStatus w.clusters id h),
      rw (laws.get-teardown ClusterStatus w.clusters id id h, e) (if_self id _ _),
    )
    | inr e ↦ (w.clusters, ground arith, rw (e, ← p) h)
  ]

  -- A reset whose steps all succeed, each with the machine that the one before left.
  reset_steps :
      (w : Machine s) (partitions : List Text) (found : Resource MachineConfig)
      (configs : s.Coll MachineConfig) (now r : Resource ClusterStatus)
      (clusters clusters' : s.Coll ClusterStatus) (machines : s.Coll MachineStatus)
      → any_label (codes "STATE") partitions ≡ true
      → get_complete s w.configs ≡ ok found
      → destroy_resource s w.configs active_id ≡ (ok tt, configs)
      → s.get w.clusters found.value.cluster_id ≡ ok now
      → update_cluster found.value.cluster_id
          (count_out (control_plane found.value) now.value)
          (record w { configs = configs })
        ≡ (done r, record w { configs = configs; clusters = clusters })
      → teardown_if_empty found.value.cluster_id r.value
          (record w { configs = configs; clusters = clusters })
        ≡ (done tt, record w { configs = configs; clusters = clusters' })
      → update_machine leave_labels (record w { configs = configs; clusters = clusters' })
        ≡ (done tt, record w { configs = configs; clusters = clusters'; machines = machines })
      → reset partitions w
        ≡ (done tt, record w { configs = configs; clusters = clusters'; machines = machines })
  unfolding reset
  reset_steps w partitions found configs now r clusters clusters' machines h₁ h₂ h₃ h₄ h₅ h₆ h₇ =
      ground arith

  -- A reset that wipes the STATE partition of a configured machine, where the status of its cluster
  -- and its own are there and not torn down, succeeds: the configuration is
  -- gone, the cluster no longer counts the machine and is torn down if it counted no other, and the
  -- machine's status has none of the three labels.
  pub reset_leaves :
      (w : Machine s) (partitions : List Text) (cfg : Resource MachineConfig)
      (now : Resource ClusterStatus) (own : MachineStatus)
      → any_label (codes "STATE") partitions ≡ true
      → is_some cfg.value.machine ≡ true
      → s.get w.configs active_id ≡ ok cfg
      → s.get w.clusters cfg.value.cluster_id ≡ ok now
      → now.phase ≡ running
      → Present s w.machines w.machine_id own
      → let left = count_out (control_plane cfg.value) now.value now.value in
        (w' : Machine s) × (c : Resource ClusterStatus) × (reset partitions w ≡ (done tt, w'))
        × (s.get w'.configs active_id ≡ err not_found)
        × (s.get w'.clusters cfg.value.cluster_id ≡ ok c)
        × (c.value ≡ left)
        × (c.phase ≡ phase_after left)
        × Present s w'.machines w'.machine_id (leave_labels own)
  reset_leaves w partitions cfg now own wiped complete config cluster live known =
      let id = cfg.value.cluster_id in
      let completed : get_complete s w.configs ≡ ok cfg = (unfold get_complete in ground arith) in
      let gone = destroy_config_lem laws w.configs config in
      let configs = (destroy_resource s w.configs active_id).1 in
      let counted =
        update_cluster_lem laws (record w { configs = configs }) id
          (count_out (control_plane cfg.value) now.value) (now, cluster, live, refl) in
      let torn =
        teardown_if_empty_lem (record w { configs = configs; clusters = counted.0 }) id counted.1
          counted.3 counted.4 in
      let unlabelled =
        update_machine_lem laws (record w { configs = configs; clusters = torn.0 }) leave_labels
          known in
      (
        record w { configs = configs; clusters = torn.0; machines = unlabelled.0 },
        record counted.1 { phase = phase_after counted.1.value },
        reset_steps w partitions cfg configs now counted.1 counted.0 torn.0 unlabelled.0 wiped
            completed gone.0 cluster counted.2 torn.1 unlabelled.1,
        gone.1,
        torn.2,
        counted.5,
        ap phase_after counted.5,
        unlabelled.2,
      )

count_out-count_in :
    (role : Bool) (now : ClusterStatus)
    → suc now.control_planes < 2 ^ 32
    → suc now.workers < 2 ^ 32
    → count_out role (count_in role now) (count_in role now) ≡ now
unfolding count_out count_in
count_out-count_in role now h k = ground arith

module _ {s : State} (laws : IsState s) where
  -- A reset that wipes the STATE partition undoes the count of the first, accepted configuration that
  -- made the machine join: from a cluster that is not torn down and whose
  -- counts are below the largest uint32, the status of the cluster is again what it was (torn down
  -- if it counts no machine), and the machine is not configured.
  pub reset-apply :
      (w : Machine s) (partitions : List Text) (cfg : MachineConfig) (now : ClusterStatus)
      (own : MachineStatus)
      → any_label (codes "STATE") partitions ≡ true
      → is_some cfg.machine ≡ true
      → IsAccepted laws w cfg
      → IsUnconfigured laws w
      → Holds s w.clusters cfg.cluster_id new_cluster_status now
      → Present s w.machines w.machine_id own
      → suc now.control_planes < 2 ^ 32
      → suc now.workers < 2 ^ 32
      → let (r, w') = reset partitions (apply cfg w).1 in
        (r ≡ done tt)
        × (s.get w'.configs active_id ≡ err not_found)
        × ((c : Resource ClusterStatus) × (s.get w'.clusters cfg.cluster_id ≡ ok c)
            × (c.value ≡ now)
            × (c.phase ≡ phase_after now))
  reset-apply w partitions cfg now own wiped complete accepted fresh held known h k =
      let joined = apply_joins laws w cfg now own complete accepted fresh held known in
      let (config, got, live, same) = joined.1 in
      let (cluster, got', live', counted) = joined.2 in
      let run =
        reset_leaves laws (apply cfg w).1 partitions config cluster
          (join_labels cfg.cluster_id (control_plane cfg) own) wiped (rw same complete) got
          (rw same got') live' joined.3 in
      let undone = count_out-count_in (control_plane cfg) now h k in
      let back : run.1.value ≡ now = run.5 ∙ (rw (same, counted) undone) in
      let got'' : s.get run.0.clusters cfg.cluster_id ≡ ok run.1 = rw same at run.4 in
      rw run.2
        (refl, run.3, (run.1, got'', back, run.6 ∙ rw (same, counted) (ap phase_after undone)))
