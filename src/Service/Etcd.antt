-- ===== src/Service/Etcd.antt =====
-- Etcd membership: the handlers EtcdMemberList, EtcdRemoveMemberByID, EtcdLeaveCluster and
-- EtcdStatus of internal/pkg/machine/services/machined.go, and the controller of
-- internal/pkg/machine/controllers/etcd.go. The two functions between member IDs and their texts
-- are a dependency, and enter as `MemberIds`.
pub mod Members
pub mod Health
use talemu.Prelude.{
  ℕ, Text, codes, text_eq, Bool, true, false, not, ◌&&◌, ◌||◌, List, [], ◌∷◌, ◌++◌, map, Option,
  none, some, is_some, if◌then◌else◌,
}
use talemu.Cosi.{StateError, is_not_found, Outcome, ok, err, Resource, State}
use talemu.Specs.{ClusterStatus, Labels, MachineStatus, MachineConfig, ServiceStatus, new_service}
use talemu.Image.{is_empty}
use talemu.Service.{
  invalid_argument, failed_precondition, internal, status, state_error, other, Fault, Result,
  Machine, Action, done, fault, ◌>>=◌, ◌>>◌, pure, raise, read, write, here, unless,
}
use talemu.Service.Cluster.{control_plane, get_complete, missing_as}

-- etcd.ParseMemberID and etcd.FormatMemberID
pub record MemberIds : Type 0 where
  pub parse : Text → Option ℕ
  pub format : ℕ → Text

-- etcd.LocalMemberID
abbrev pub local_member_id : Text
local_member_id = codes "local"

-- constants.ETCDService
abbrev pub etcd_service : Text
etcd_service = codes "etcd"

-- machine.EtcdMember
pub record EtcdMember : Type 0 where
  pub id : ℕ
  pub hostname : Text

-- slices.Contains
unfoldable pub member : Text → List Text → Bool
member t [] = false
member t (x ∷ xs) = text_eq x t || member t xs

-- The label query of EtcdMemberList.
abbrev pub is_labelled : Text → Labels → Bool
is_labelled id l = elim l.cluster [
  | none ↦ false
  | some c ↦ text_eq c id && is_some l.control_plane_role
]

unfoldable pub selected : Text → List (Resource MachineStatus) → List MachineStatus
selected id [] = []
selected id (r ∷ rs) =
    if is_labelled id r.value.labels then r.value ∷ selected id rs else selected id rs

-- The loop of EtcdMemberList: `none` where an ID does not parse.
unfoldable pub collect : MemberIds → List Text → List MachineStatus → Option (List EtcdMember)
collect ids deny [] = some []
collect ids deny (m ∷ ms) =
    let rest = collect ids deny ms in
    if is_empty m.etcd_member_id then rest else elim (ids.parse m.etcd_member_id) [
      | none ↦ none
      | some n ↦ if member m.etcd_member_id deny then rest else elim rest [
        | none ↦ none
        | some members ↦ some (record { id = n; hostname = m.hostname } ∷ members)
      ]
    ]

-- The callback of the two handlers that remove a member.
unfoldable pub deny : Text → ClusterStatus → ClusterStatus
deny id c =
    if member id c.deny_etcd_members
    then c
    else record c { deny_etcd_members = c.deny_etcd_members ++ id ∷ [] }

-- The callback of syncGlobalMember.
unfoldable pub sync_member : Text → Text → MachineStatus → MachineStatus
sync_member cluster_id member_id m = record m {
  etcd_member_id = member_id;
  labels = record m.labels { cluster = some cluster_id; control_plane_role = some [] };
}

-- The callback that generates the member ID once.
unfoldable pub keep_or : Text → Text → Text
keep_or generated id = if not (is_empty id) then id else generated

abbrev pub is_healthy : Result Bool → Bool
is_healthy (done b) = b
is_healthy (fault e) = false

abbrev pub forget : Result Bool → Result (Unit {0})
forget (done b) = done tt
forget (fault e) = fault e

module _ {s : State} where
  -- The configuration of a control plane, as the three handlers ask for it.
  unfoldable pub control_plane_config : Action s MachineConfig
  control_plane_config = do
    cfg ← read (missing_as (status invalid_argument)) (λ w. get_complete s w.configs)
    (if not (control_plane cfg.value) then raise (status invalid_argument) else pure cfg.value)

  -- EtcdMemberList
  unfoldable pub etcd_member_list : MemberIds → Action s (List EtcdMember)
  etcd_member_list ids = do
    cfg ← control_plane_config
    cluster ← read state_error (λ w. s.get w.clusters cfg.cluster_id)
    machines ← read state_error (λ w. s.list w.machines)
    elim (collect ids cluster.value.deny_etcd_members (selected cfg.cluster_id machines)) [
      | none ↦ raise other
      | some members ↦ pure members
    ]

  unfoldable pub deny_member : Text → Text → Action s (Unit {0})
  deny_member cluster_id id w =
      let (r, c) = s.update w.clusters cluster_id (λ v. ok (deny id v)) in
      elim r [
        | ok _ ↦ pure tt (record w { clusters = c })
        | err e ↦ raise (status internal) (record w { clusters = c })
      ]

  -- EtcdRemoveMemberByID
  unfoldable pub etcd_remove_member : MemberIds → ℕ → Action s (Unit {0})
  etcd_remove_member ids n = do
    cfg ← control_plane_config
    deny_member cfg.cluster_id (ids.format n)

  -- EtcdLeaveCluster
  unfoldable pub etcd_leave_cluster : Action s (Unit {0})
  etcd_leave_cluster = do
    cfg ← control_plane_config
    local ← read (missing_as (status invalid_argument)) (λ w. s.get w.etcd_members local_member_id)
    (if is_empty local.value
        then raise (status failed_precondition)
        else deny_member cfg.cluster_id local.value)

  -- EtcdStatus
  unfoldable pub etcd_status : MemberIds → Action s ℕ
  etcd_status ids = do
    m ← read (missing_as (status invalid_argument)) (λ w. s.get w.machines w.machine_id)
    (if is_empty m.value.etcd_member_id
        then raise (status invalid_argument)
        else elim (ids.parse m.value.etcd_member_id) [
          | none ↦ raise (status internal)
          | some n ↦ pure n
        ])

  -- syncGlobalMember
  unfoldable pub sync_global_member : Text → Text → Action s (Unit {0})
  sync_global_member cluster_id member_id w =
      let (r, c) =
        s.update w.machines w.machine_id (λ m. ok (sync_member cluster_id member_id m)) in
      elim r [
        | ok _ ↦ pure tt (record w { machines = c })
        | err e ↦ raise (state_error e) (record w { machines = c })
      ]

  -- The body of reconcileRunning for a bootstrapped cluster: whether the member is healthy.
  -- `generated` is what genMemberID returns, whose random source does not fail.
  unfoldable pub run_member : Text → Text → ClusterStatus → Action s Bool
  run_member generated cluster_id cluster = do
    id ← write state_error λ w.
        let (r, c) =
          s.modify w.etcd_members local_member_id []
            (λ id. (keep_or generated id, keep_or generated id)) in
        (r, record w { etcd_members = c })
    sync_global_member cluster_id id
    pure (not (member id cluster.deny_etcd_members))

  -- The deferred update of the service's flags; its own error is lost.
  unfoldable pub set_service : Bool → Bool → Machine s → Machine s
  set_service running healthy w = record w {
    services =
        (s.modify w.services etcd_service new_service
          (λ _. (record { running = running; healthy = healthy }, tt))).1;
  }

  -- reconcileRunning
  unfoldable pub reconcile_running : Text → Text → Action s (Unit {0})
  reconcile_running generated cluster_id w = elim (s.get w.clusters cluster_id) [
    | err e ↦ (if is_not_found e then done tt else fault (state_error e), set_service false false w)
    | ok cluster ↦
        if not cluster.value.bootstrapped
        then (done tt, set_service false false w)
        else (let (r, w') = run_member generated cluster_id cluster.value w in
            (forget r, set_service true (is_healthy r) w'))
  ]

  -- reconcile
  unfoldable pub reconcile : Text → Action s (Unit {0})
  reconcile generated = do
    cfg ← read state_error (λ w. unless is_not_found (get_complete s w.configs))
    elim cfg [
      | none ↦ pure tt
      | some r ↦
          if not (control_plane r.value)
          then pure tt
          else reconcile_running generated r.value.cluster_id
    ]
