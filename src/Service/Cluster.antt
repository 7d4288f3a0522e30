-- ===== src/Service/Cluster.antt =====
-- The handlers that move a machine in and out of a cluster: GetComplete of
-- internal/pkg/machine/machineconfig/config.go, and ApplyConfiguration, Bootstrap and Reset of
-- internal/pkg/machine/services/machined.go. The parser of configurations is a dependency, and
-- enters as the argument `load`.
pub mod Steps
pub mod Membership
pub mod Departure
pub mod Bootstrapping
use talemu.Prelude.{
  ℕ, ◌+◌, ◌-◌, ◌%◌, ◌^◌, Text, codes, text_eq, Bool, true, false, not, ◌&&◌, List, [], ◌∷◌, Option,
  none, some, is_some, ◌==◌, if◌then◌else◌,
}
use talemu.Cosi.{
  StateError, is_not_found, is_conflict, not_found, Outcome, ok, err, Resource, State,
}
use talemu.Specs.{
  ClusterStatus, new_cluster_status, Labels, MachineStatus, MachineSection, MachineConfig,
}
use talemu.Service.{
  invalid_argument, unimplemented, internal, status, state_error, Fault, Result, Machine, Action,
  done, fault, ◌>>=◌, ◌>>◌, pure, raise, read, write, here, unless,
}
use talemu.Service.Installer.{validate_installer, destroy_resource}

-- config.ActiveID
abbrev pub active_id : Text
active_id = codes "active"

-- uint32 `++` and `--`
abbrev pub increment : ℕ → ℕ
increment n = (n + 1) % 2 ^ 32

abbrev pub decrement : ℕ → ℕ
decrement n = (n + (2 ^ 32 - 1)) % 2 ^ 32

-- machine.ApplyConfigurationRequest_Mode
pub data Mode : Type 0 where
  no_reboot reboot : Mode

abbrev pub control_plane : MachineConfig → Bool
control_plane c = elim c.machine [ none ↦ false | some m ↦ m.is_control_plane ]

-- The callbacks of the updates of the cluster status and of the machine's labels.
unfoldable pub count_in : Bool → ClusterStatus → ClusterStatus
count_in is_control_plane r =
    if is_control_plane
    then record r { control_planes = increment r.control_planes }
    else record r { workers = increment r.workers }

-- `before` is the status that the handler had read, which the callback names beside its own.
unfoldable pub count_out : Bool → ClusterStatus → ClusterStatus → ClusterStatus
count_out is_control_plane before r =
    if is_control_plane
    then (if before.control_planes == 0
        then record r { control_planes = decrement r.control_planes; bootstrapped = false }
        else record r { control_planes = decrement r.control_planes })
    else record r { workers = decrement r.workers }

unfoldable pub join_labels : Text → Bool → MachineStatus → MachineStatus
join_labels id is_control_plane r =
    let labels = r.labels in
    record r {
      labels =
          if is_control_plane
          then record labels { cluster = some id; control_plane_role = some [] }
          else record labels { cluster = some id; worker_role = some [] };
    }

unfoldable pub leave_labels : MachineStatus → MachineStatus
leave_labels r = record r {
  labels = record { cluster = none; control_plane_role = none; worker_role = none };
}

-- GetComplete: a partial configuration is as good as none.
unfoldable pub get_complete : (s : State) → s.Coll MachineConfig → Outcome (Resource MachineConfig)
get_complete s c = elim (s.get c active_id) [
  | ok r ↦ if is_some r.value.machine then ok r else err not_found
  | err e ↦ err e
]

-- slices.IndexFunc(partitions, label is l) != -1
unfoldable pub any_label : Text → List Text → Bool
any_label l [] = false
any_label l (x ∷ xs) = if text_eq x l then true else any_label l xs

-- What a handler makes of the error where it gives `code` for a resource that is not there.
abbrev pub missing_as : Fault → StateError → Fault
missing_as absent e = if is_not_found e then absent else state_error e

module _ {s : State} where
  -- if !isPartialConfig { validateInstaller(...) }
  unfoldable pub validate_config : MachineConfig → Action s (Unit {0})
  validate_config cfg = elim cfg.machine [
    | none ↦ pure tt
    | some m ↦ validate_installer m.install_image
  ]

  -- Create, or Update at the version found where Create meets a conflict.
  unfoldable pub store_config : MachineConfig → Action s (Unit {0})
  store_config cfg w =
      let (made, c) = s.create w.configs active_id cfg in
      elim made [
        | ok _ ↦ pure tt (record w { configs = c })
        | err e ↦
            if not (is_conflict e)
            then raise (state_error e) (record w { configs = c })
            else (do
              read state_error (λ w. s.get w.configs active_id)
              write state_error λ w.
                  let (r, c') = s.update w.configs active_id (λ _. ok cfg) in
                  (r, record w { configs = c' })
              pure tt)
                (record w { configs = c })
      ]

  -- The cluster status is created unless it is there.
  unfoldable pub ensure_cluster : Text → Action s (Unit {0})
  ensure_cluster id w =
      let (made, c) = s.create w.clusters id new_cluster_status in
      elim (s.get w.clusters id) [
        | ok _ ↦ pure tt w
        | err e ↦ if not (is_not_found e) then raise (state_error e) w else elim made [
          | ok _ ↦ pure tt (record w { clusters = c })
          | err e' ↦
              if not (is_conflict e')
              then raise (state_error e') (record w { clusters = c })
              else pure tt (record w { clusters = c })
        ]
      ]

  unfoldable pub update_cluster :
      Text → (ClusterStatus → ClusterStatus) → Action s (Resource ClusterStatus)
  update_cluster id f =
      write state_error
        λ w. let (r, c) = s.update w.clusters id (λ v. ok (f v)) in (r, record w { clusters = c })

  unfoldable pub update_machine : (MachineStatus → MachineStatus) → Action s (Unit {0})
  update_machine f w =
      let (r, c) = s.update w.machines w.machine_id (λ v. ok (f v)) in
      elim r [
        | ok _ ↦ pure tt (record w { machines = c })
        | err e ↦ raise (state_error e) (record w { machines = c })
      ]

  -- ApplyConfiguration, once the configuration is parsed.
  unfoldable pub apply : MachineConfig → Action s Mode
  apply cfg = do
    validate_config cfg
    existing ← read state_error (λ w. unless is_not_found (get_complete s w.configs))
    store_config cfg
    (if not (not (is_some existing) && is_some cfg.machine) then pure no_reboot else do
      ensure_cluster cfg.cluster_id
      update_cluster cfg.cluster_id (count_in (control_plane cfg))
      update_machine (join_labels cfg.cluster_id (control_plane cfg))
      pure reboot)

  -- MachineService.ApplyConfiguration
  unfoldable pub apply_configuration : (Text → Option MachineConfig) → Text → Action s Mode
  apply_configuration load bytes = elim (load bytes) [
    | none ↦ raise (status invalid_argument)
    | some cfg ↦ apply cfg
  ]

  read_config : Action s (Resource MachineConfig)
  read_config = read (missing_as (status invalid_argument)) (λ w. get_complete s w.configs)

  read_cluster : Text → Action s (Resource ClusterStatus)
  read_cluster id = read (missing_as (status internal)) (λ w. s.get w.clusters id)

  -- MachineService.Bootstrap
  unfoldable pub bootstrap : Action s (Unit {0})
  unfolding read_config read_cluster
  bootstrap = do
    cfg ← read_config
    cluster ← read_cluster cfg.value.cluster_id
    (if cluster.value.bootstrapped then raise (status invalid_argument) else do
      update_cluster cfg.value.cluster_id (λ r. record r { bootstrapped = true })
      pure tt)

  -- The cluster is torn down when the last machine left it.
  unfoldable pub teardown_if_empty : Text → ClusterStatus → Action s (Unit {0})
  teardown_if_empty id cluster w =
      let (r, c) = s.teardown w.clusters id in
      if not (cluster.control_planes == 0 && cluster.workers == 0) then pure tt w else elim r [
        | ok _ ↦ pure tt (record w { clusters = c })
        | err e ↦ raise (state_error e) (record w { clusters = c })
      ]

  -- MachineService.Reset, given the labels of the partitions to wipe.
  unfoldable pub reset : List Text → Action s (Unit {0})
  unfolding read_config read_cluster
  reset partitions = do
    (if not (any_label (codes "STATE") partitions) then raise (status unimplemented) else pure tt)
    cfg ← read_config
    write state_error
        λ w. let (r, c) = destroy_resource s w.configs active_id in (r, record w { configs = c })
    cluster ← read_cluster cfg.value.cluster_id
    after ← update_cluster cfg.value.cluster_id (count_out (control_plane cfg.value) cluster.value)
    teardown_if_empty cfg.value.cluster_id after.value
    update_machine leave_labels
