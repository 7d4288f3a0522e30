-- ===== src/Service/Cluster/Bootstrapping.antt =====
-- Bootstrap, and what a reset leaves of it.
use talemu.Prelude.{Text, codes, true, false, List, is_some, ◌≡◌, ◌≢◌, refl, ◌∙◌, arith}
use talemu.Cosi.{not_found, ok, err, Resource, running, State, IsState, Present}
use talemu.Specs.{ClusterStatus, MachineStatus, MachineConfig}
use talemu.Service.{status, invalid_argument, internal, Machine, done, fault}
use talemu.Service.Cluster.{
  active_id, control_plane, count_out, get_complete, bootstrap, any_label, reset,
}
use talemu.Service.Cluster.Steps.{update_cluster_lem, get_complete_lem}
use talemu.Service.Cluster.Departure.{reset_leaves, phase_after}

abbrev pub set_bootstrapped : ClusterStatus → ClusterStatus
set_bootstrapped c = record c { bootstrapped = true }

module _ {s : State} (laws : IsState s) where
  module _ (w : Machine s) (cfg : MachineConfig) where
    -- A configured machine bootstraps its cluster exactly once: where the cluster is not
    -- bootstrapped the call succeeds and sets that flag alone, and a call after it is refused as
    -- an invalid argument and changes nothing.
    pub bootstrap_once :
        (now : ClusterStatus)
        → is_some cfg.machine ≡ true
        → Present s w.configs active_id cfg
        → Present s w.clusters cfg.cluster_id now
        → now.bootstrapped ≡ false
        → let (r, w') = bootstrap w in
          (r ≡ done tt)
          × Present s w'.clusters cfg.cluster_id (set_bootstrapped now)
          × (bootstrap w' ≡ (fault (status invalid_argument), w'))
    unfolding bootstrap
    bootstrap_once now complete config (c, got, live, value) fresh =
        let (found, completed, same) = get_complete_lem laws w.configs config complete in
        let (clusters, r, counted, got', live', value') =
          update_cluster_lem laws w cfg.cluster_id set_bootstrapped (c, got, live, value) in
        let w₁ : Machine s = record w { clusters = clusters } in
        let first : bootstrap w ≡ (done tt, w₁) = ground (arith, completed, counted) in
        let second : bootstrap w₁ ≡ (fault (status invalid_argument), w₁) =
          ground (arith, completed) in
        rw first (refl, (r, got', live', value'), second)

    -- Without a complete configuration, or without the cluster's status, Bootstrap is refused and
    -- changes nothing.
    pub bootstrap_refused :
        ((get_complete s w.configs ≡ err not_found)
          → bootstrap w ≡ (fault (status invalid_argument), w))
        × (is_some cfg.machine ≡ true
            → Present s w.configs active_id cfg
            → s.get w.clusters cfg.cluster_id ≡ err not_found
            → bootstrap w ≡ (fault (status internal), w))
    unfolding bootstrap
    bootstrap_refused = (
      (λ h. ground arith),
      (λ complete config h.
          let (found, completed, same) = get_complete_lem laws w.configs config complete in
          ground arith),
    )

  -- When the last control plane of a bootstrapped cluster is reset while workers remain, the
  -- cluster's status stays bootstrapped although it counts no control plane: the callback tests
  -- the count that was read before the update, which is 1.
  pub reset-bootstrapped_stays :
      (w : Machine s) (partitions : List Text) (cfg : Resource MachineConfig)
      (now : Resource ClusterStatus) (own : MachineStatus)
      → any_label (codes "STATE") partitions ≡ true
      → is_some cfg.value.machine ≡ true
      → control_plane cfg.value ≡ true
      → s.get w.configs active_id ≡ ok cfg
      → s.get w.clusters cfg.value.cluster_id ≡ ok now
      → now.phase ≡ running
      → Present s w.machines w.machine_id own
      → now.value.control_planes ≡ 1
      → now.value.bootstrapped ≡ true
      → now.value.workers ≢ 0
      → let w' = (reset partitions w).1 in
        ((reset partitions w).0 ≡ done tt)
        × ((left : ClusterStatus) × Present s w'.clusters cfg.value.cluster_id left
            × (left.control_planes ≡ 0)
            × (left.bootstrapped ≡ true))
  unfolding count_out
  reset-bootstrapped_stays w partitions cfg now own wiped complete role config cluster live known
        one up others =
      let run =
        reset_leaves laws w partitions cfg now own wiped complete config cluster live known in
      let left : ClusterStatus = count_out (control_plane cfg.value) now.value now.value in
      let stays : phase_after left ≡ running = ground arith in
      let none_left : left.control_planes ≡ 0 = ground arith in
      let still : left.bootstrapped ≡ true = ground arith in
      rw run.2 (refl, (left, (run.1, run.4, run.6 ∙ stays, run.5), none_left, still))
