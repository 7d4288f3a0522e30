-- ===== src/Service/Cluster/Steps.antt =====
-- What each step of the cluster handlers does, in a state that answers.
use talemu.Prelude.{Text, true, is_some, ◌≡◌, refl, sym, ap, ◌⊎◌, inl, inr, arith}
use talemu.Cosi.{not_found, ok, err, Resource, running, fresh, State, IsState, Holds, Present}
use talemu.Cosi.Laws.{create_self, update_self, destroy_self}
use talemu.Specs.{ClusterStatus, new_cluster_status, MachineStatus, MachineConfig}
use talemu.Service.{Machine, done}
use talemu.Service.Installer.{destroy_resource}
use talemu.Service.Cluster.{
  active_id, get_complete, store_config, ensure_cluster, update_cluster, update_machine,
}

module _ {s : State} (laws : IsState s) where
  -- Anything that is there and not torn down, or nothing.
  abbrev pub IsVacantOrLive : {A : Type 0} → s.Coll A → Text → Type 0
  IsVacantOrLive {A} c i =
      (s.get c i ≡ err not_found) ⊎ ((r : Resource A) × (s.get c i ≡ ok r) × (r.phase ≡ running))

  pub store_config_lem :
      (w : Machine s) (cfg : MachineConfig)
      → IsVacantOrLive w.configs active_id
      → (c : s.Coll MachineConfig) × (store_config cfg w ≡ (done tt, record w { configs = c }))
        × Present s c active_id cfg
  unfolding store_config
  store_config_lem w cfg (inl h) =
      let made = create_self laws w.configs active_id cfg h in
      (
        (s.create w.configs active_id cfg).1,
        ground (arith, made),
        (fresh active_id cfg, made.1, refl, refl),
      )
  store_config_lem w cfg (inr (r, h, p)) =
      let set = update_self laws w.configs active_id (λ _. ok cfg) h p refl in
      (
        (s.update w.configs active_id (λ _. ok cfg)).1,
        ground (arith, laws.create_present MachineConfig w.configs active_id cfg h, set),
        (record r { value = cfg }, set.1, p, refl),
      )

  pub ensure_cluster_lem :
      (w : Machine s) (id : Text) (now : ClusterStatus)
      → Holds s w.clusters id new_cluster_status now
      → (c : s.Coll ClusterStatus) × (ensure_cluster id w ≡ (done tt, record w { clusters = c }))
        × Present s c id now
  unfolding ensure_cluster
  ensure_cluster_lem w id now (inl (h, e)) =
      let made = create_self laws w.clusters id new_cluster_status h in
      (
        (s.create w.clusters id new_cluster_status).1,
        ground (arith, made),
        (fresh id new_cluster_status, made.1, refl, sym e),
      )
  ensure_cluster_lem w id now (inr (r, h, p, e)) = (w.clusters, ground arith, (r, h, p, e))

  pub update_cluster_lem :
      (w : Machine s) (id : Text) (f : ClusterStatus → ClusterStatus) {now : ClusterStatus}
      → Present s w.clusters id now
      → (c : s.Coll ClusterStatus) × (r : Resource ClusterStatus) × (update_cluster id f w
          ≡ (done r, record w { clusters = c }))
        × (s.get c id ≡ ok r)
        × (r.phase ≡ running)
        × (r.value ≡ f now)
  unfolding update_cluster
  update_cluster_lem w id f (r, h, p, e) =
      let set = update_self laws w.clusters id (λ v. ok (f v)) h p refl in
      (
        (s.update w.clusters id (λ v. ok (f v))).1,
        record r { value = f r.value },
        ground (arith, set),
        set.1,
        p,
        ap f e,
      )

  pub update_machine_lem :
      (w : Machine s) (f : MachineStatus → MachineStatus) {now : MachineStatus}
      → Present s w.machines w.machine_id now
      → (c : s.Coll MachineStatus) × (update_machine f w ≡ (done tt, record w { machines = c }))
        × Present s c w.machine_id (f now)
  unfolding update_machine
  update_machine_lem w f (r, h, p, e) =
      let set = update_self laws w.machines w.machine_id (λ v. ok (f v)) h p refl in
      (
        (s.update w.machines w.machine_id (λ v. ok (f v))).1,
        ground (arith, set),
        (record r { value = f r.value }, set.1, p, ap f e),
      )

  pub get_complete_lem :
      (c : s.Coll MachineConfig) {cfg : MachineConfig}
      → Present s c active_id cfg
      → is_some cfg.machine ≡ true
      → (r : Resource MachineConfig) × (get_complete s c ≡ ok r) × (r.value ≡ cfg)
  unfolding get_complete
  get_complete_lem c (r, h, p, e) m = (r, ground arith, e)

  pub destroy_config_lem :
      (c : s.Coll MachineConfig) {r : Resource MachineConfig}
      → s.get c active_id ≡ ok r
      → (destroy_resource s c active_id ≡ (ok tt, (destroy_resource s c active_id).1))
        × (s.get (destroy_resource s c active_id).1 active_id ≡ err not_found)
  unfolding destroy_resource
  destroy_config_lem c h = ground (arith, destroy_self laws c active_id h)
