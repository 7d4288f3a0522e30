-- ===== src/Scenarios/Clusters.antt =====
-- Joining, bootstrapping and leaving a cluster.
use talemu.Prelude.{
  Text, codes, text_eq, contains, has_prefix, true, false, ◌≡◌, ◌≢◌, refl, inl, arith, List, [],
  ◌∷◌,
}
use talemu.Cosi.{fresh, not_found, err, ok, Present}
use talemu.Cosi.InMemory.{in_memory, in_memory-IsState}
use talemu.Specs.{new_cluster_status}
use talemu.Service.{done, Machine}
use talemu.Service.Installer.{security_state_id}
use talemu.Service.Sequence.Reboots.{Accepts}
use talemu.Service.Cluster.{active_id, reboot, any_label, apply, reset}
use talemu.Service.Cluster.Membership.{apply_counts}
use talemu.Service.Cluster.Departure.{reset-apply}
use talemu.Service.Cluster.Bootstrapping.{reset-bootstrapped_stays}
use talemu.Scenarios.{
  with_one, installed, installer, machine_one, bare_status, cluster_one, control_plane_config,
  small_cluster, joined,
}

abbrev state_partition : List Text
state_partition = codes "STATE" ∷ []

wipes : any_label (codes "STATE") state_partition ≡ true
unfolding any_label text_eq
wipes = refl

accepted : Accepts installed installer
unfolding in_memory text_eq contains has_prefix
accepted = (fresh security_state_id false, refl, refl)

accepted_joined : Accepts joined installer
unfolding in_memory text_eq contains has_prefix
accepted_joined = (fresh security_state_id false, refl, refl)

no_config : in_memory.get installed.configs active_id ≡ err not_found
unfolding in_memory text_eq
no_config = refl

no_cluster : in_memory.get installed.clusters cluster_one ≡ err not_found
unfolding in_memory text_eq
no_cluster = refl

known : Present in_memory installed.machines machine_one bare_status
unfolding in_memory text_eq
known = (fresh machine_one bare_status, refl, refl, refl)

configured : in_memory.get joined.configs active_id ≡ ok (fresh active_id control_plane_config)
unfolding in_memory text_eq
configured = refl

in_cluster : in_memory.get joined.clusters cluster_one ≡ ok (fresh cluster_one small_cluster)
unfolding in_memory text_eq
in_cluster = refl

apply_counts_example : (apply control_plane_config installed).0 ≡ done reboot
apply_counts_example =
    (apply_counts in_memory-IsState installed control_plane_config
      (record { install_image = installer; is_control_plane = true }) new_cluster_status bare_status
      refl accepted (inl no_config) (inl (no_cluster, refl)) known).0

reset-apply_example : (reset state_partition (apply control_plane_config installed).1).0 ≡ done tt
reset-apply_example =
    (reset-apply in_memory-IsState installed state_partition control_plane_config new_cluster_status
      bare_status wipes refl accepted (inl no_config) (inl (no_cluster, refl)) known (ground arith)
      (ground arith)).0

one_worker : small_cluster.workers ≢ 0
one_worker h = ground arith

abbrev waiting : Machine in_memory
waiting = record joined {
  clusters = with_one cluster_one (record small_cluster { bootstrapped = false });
}

waiting_cluster :
    Present in_memory waiting.clusters cluster_one (record small_cluster { bootstrapped = false })
unfolding in_memory text_eq
waiting_cluster =
    (fresh cluster_one (record small_cluster { bootstrapped = false }), refl, refl, refl)

reset-bootstrapped_stays_example : (reset state_partition joined).0 ≡ done tt
reset-bootstrapped_stays_example =
    (reset-bootstrapped_stays in_memory-IsState joined state_partition
      (fresh active_id control_plane_config) (fresh cluster_one small_cluster) bare_status wipes
      refl refl configured in_cluster refl known refl refl one_worker).0
