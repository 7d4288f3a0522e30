-- ===== src/Service/Etcd/Health.antt =====
-- What a reconciliation makes of the etcd service of a control plane.
use talemu.Prelude.{
  Text, text_eq_refl, Bool, true, false, not, [], ◌≡◌, refl, sym, ap, ◌∙◌, inl, inr, arith,
}
use talemu.Cosi.{Outcome, ok, Resource, State, IsState, Present, Holds}
use talemu.Cosi.Laws.{update_self, modify_self}
use talemu.Specs.{ClusterStatus, MachineStatus, MachineConfig, ServiceStatus, new_service}
use talemu.Image.{is_empty}
use talemu.Service.{Machine, done}
use talemu.Service.Cluster.Steps.{get_complete_lem}
use talemu.Service.Etcd.{
  local_member_id, etcd_service, member, deny, sync_member, keep_or, etcd_leave_cluster,
  sync_global_member, run_member, set_service, reconcile_running, reconcile,
}
use talemu.Service.Etcd.Members.{IsMember, deny_member_lem, control_plane_config_lem, member-deny}

module _ {s : State} (laws : IsState s) where
  sync_lem :
      (cluster_id id : Text) (w : Machine s) {own : MachineStatus}
      → Present s w.machines w.machine_id own
      → (c : s.Coll MachineStatus) × (sync_global_member cluster_id id w
          ≡ (done tt, record w { machines = c }))
        × Present s c w.machine_id (sync_member cluster_id id own)
  unfolding sync_global_member
  sync_lem cluster_id id w (r, h, p, e) =
      let f : MachineStatus → Outcome MachineStatus = λ m. ok (sync_member cluster_id id m) in
      let set = update_self laws w.machines w.machine_id f h p refl in
      (
        (s.update w.machines w.machine_id f).1,
        ground (arith, set),
        (
          record r { value = sync_member cluster_id id r.value },
          set.1,
          p,
          ap (sync_member cluster_id id) e,
        ),
      )

  -- A member runs: its ID is generated once, written to the machine's status, and healthy unless
  -- denied.
  run_lem :
      (generated cluster_id : Text) (cluster : ClusterStatus) (w : Machine s) {own : MachineStatus}
      {id : Text}
      → Present s w.machines w.machine_id own
      → Holds s w.etcd_members local_member_id [] id
      → let now = keep_or generated id in
        (e : s.Coll Text) × (c : s.Coll MachineStatus) × (run_member generated cluster_id cluster w
          ≡ (
            done (not (member now cluster.deny_etcd_members)),
            record w { etcd_members = e; machines = c },
          ))
        × Holds s e local_member_id [] now
        × Present s c w.machine_id (sync_member cluster_id now own)
  unfolding run_member
  run_lem generated cluster_id cluster w {own} {id} known held =
      let f : Text → Text × Text = λ id. (keep_or generated id, keep_or generated id) in
      let set = modify_self laws w.etcd_members local_member_id [] f held in
      let e = (s.modify w.etcd_members local_member_id [] f).1 in
      let (c, synced, known') =
        sync_lem cluster_id (keep_or generated id) (record w { etcd_members = e }) known in
      (e, c, ground (arith, set), set.1, known')

  set_service_lem :
      (is_running healthy : Bool) (w : Machine s) {old : ServiceStatus}
      → Holds s w.services etcd_service new_service old
      → (c : s.Coll ServiceStatus) × (set_service is_running healthy w ≡ record w { services = c })
        × Holds s c etcd_service new_service (record { running = is_running; healthy = healthy })
  unfolding set_service
  set_service_lem is_running healthy w held =
      let f : ServiceStatus → ServiceStatus × Unit {0} =
        λ _. (record { running = is_running; healthy = healthy }, tt) in
      (
        (s.modify w.services etcd_service new_service f).1,
        refl,
        (modify_self laws w.services etcd_service new_service f held).1,
      )

  reconcile_running_eq :
      (generated cluster_id : Text) (w w' : Machine s) (cluster : Resource ClusterStatus) (b : Bool)
      → s.get w.clusters cluster_id ≡ ok cluster
      → cluster.value.bootstrapped ≡ true
      → run_member generated cluster_id cluster.value w ≡ (done b, w')
      → reconcile_running generated cluster_id w ≡ (done tt, set_service true b w')
  unfolding reconcile_running
  reconcile_running_eq generated cluster_id w w' cluster b h k run = ground arith

  reconcile_eq :
      (generated : Text) (w : Machine s) {cfg : MachineConfig} {now : ClusterStatus}
      → IsMember s w cfg now
      → reconcile generated w ≡ reconcile_running generated cfg.cluster_id w
  unfolding reconcile
  reconcile_eq generated w h =
      let (r, found, same) = get_complete_lem laws w.configs h.configured h.complete in
      ground (arith, h.control_plane_role)

  -- On a control plane of a bootstrapped cluster, whose machine status is there and whose member and
  -- service are not torn down, a reconciliation succeeds. The member ID is the
  -- one that was kept, or the one generated if there was none; the machine's status has it, with
  -- the labels of a control plane of the cluster; and the service runs, and is healthy unless the
  -- cluster denies the ID.
  pub reconcile_lem :
      (generated : Text) (w : Machine s) (cfg : MachineConfig) (now : ClusterStatus)
      (own : MachineStatus) (id : Text) (old : ServiceStatus)
      → IsMember s w cfg now
      → now.bootstrapped ≡ true
      → Present s w.machines w.machine_id own
      → Holds s w.etcd_members local_member_id [] id
      → Holds s w.services etcd_service new_service old
      → let kept = keep_or generated id in
        (w' : Machine s) × (reconcile generated w ≡ (done tt, w'))
        × Holds s w'.etcd_members local_member_id [] kept
        × Present s w'.machines w'.machine_id (sync_member cfg.cluster_id kept own)
        × Holds s w'.services etcd_service new_service
            (record { running = true; healthy = not (member kept now.deny_etcd_members) })
  reconcile_lem generated w cfg now own id old h up known held served =
      let (cluster, got, live, same) = h.in_cluster in
      let (e, c, run, held', known') =
        run_lem generated cfg.cluster_id cluster.value w known held in
      let b = not (member (keep_or generated id) cluster.value.deny_etcd_members) in
      let w₁ = record w { etcd_members = e; machines = c } in
      let (v, set, served') = set_service_lem true b w₁ served in
      let went =
        reconcile_running_eq generated cfg.cluster_id w w₁ cluster b got
          (ap (λ c. c.bootstrapped) same ∙ up) run in
      (
        record w₁ { services = v },
        reconcile_eq generated w h ∙ (went ∙ ap (λ x. (done tt, x)) set),
        held',
        known',
        rw (← same) served',
      )

  Holds-eq :
      {A : Type 0} {c : s.Coll A} {i : Text} {d v v' : A}
      → v ≡ v'
      → Holds s c i d v
      → Holds s c i d v'
  Holds-eq e (inl (h, k)) = inl (h, sym e ∙ k)
  Holds-eq e (inr (r, h, p, k)) = inr (r, h, p, k ∙ e)

  leave_lem :
      (w : Machine s) (cfg : MachineConfig) (now : ClusterStatus) (id : Text)
      → IsMember s w cfg now
      → Present s w.etcd_members local_member_id id
      → is_empty id ≡ false
      → (c : s.Coll ClusterStatus) × (etcd_leave_cluster w ≡ (done tt, record w { clusters = c }))
        × IsMember s (record w { clusters = c }) cfg (deny id now)
  unfolding etcd_leave_cluster
  leave_lem w cfg now id h (r, got, live, same) nonempty =
      let (c, denied, kept) = deny_member_lem laws w id h.in_cluster in
      (
        c,
        ground (arith, control_plane_config_lem laws w h, same),
        record {
          configured = h.configured;
          complete = h.complete;
          control_plane_role = h.control_plane_role;
          in_cluster = kept;
        },
      )

  deny_keeps_bootstrapped :
      (id : Text) (c : ClusterStatus) → (deny id c).bootstrapped ≡ c.bootstrapped
  unfolding deny
  deny_keeps_bootstrapped id c = ground arith

  -- A member that leaves etcd becomes unhealthy: on a control plane of a bootstrapped cluster with a
  -- member ID, whose machine status is there and whose service is not torn down, leaving succeeds,
  -- and so does the reconciliation after it, which keeps the ID and leaves the service running but
  -- not healthy.
  pub reconcile-etcd_leave_cluster :
      (generated : Text) (w : Machine s) (cfg : MachineConfig) (now : ClusterStatus)
      (own : MachineStatus) (id : Text) (old : ServiceStatus)
      → IsMember s w cfg now
      → now.bootstrapped ≡ true
      → Present s w.machines w.machine_id own
      → Present s w.etcd_members local_member_id id
      → is_empty id ≡ false
      → Holds s w.services etcd_service new_service old
      → (w' : Machine s) × (w'' : Machine s) × (etcd_leave_cluster w ≡ (done tt, w'))
        × (reconcile generated w' ≡ (done tt, w''))
        × Holds s w''.etcd_members local_member_id [] id
        × Holds s w''.services etcd_service new_service (record { running = true; healthy = false })
  reconcile-etcd_leave_cluster generated w cfg now own id old h up known local nonempty served =
      let (c, left, h') = leave_lem w cfg now id h local nonempty in
      let (w'', run, held, _, served') =
        reconcile_lem generated (record w { clusters = c }) cfg (deny id now) own id old h'
          (deny_keeps_bootstrapped id now ∙ up) known (inr local) served in
      let same : keep_or generated id ≡ id = (unfold keep_or in ground arith) in
      let denied : not (member id (deny id now).deny_etcd_members) ≡ false =
        ground (arith, member-deny now id id, text_eq_refl id) in
      (
        record w { clusters = c },
        w'',
        left,
        run,
        Holds-eq same held,
        Holds-eq
            (ap (λ b. record { running = true; healthy = b })
              (ap (λ i. not (member i (deny id now).deny_etcd_members)) same ∙ denied))
            served',
      )
