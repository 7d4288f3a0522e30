-- ===== src/Scenarios/Members.antt =====
-- Members of etcd, meta keys and cached images.
use talemu.Prelude.{
  not, ◌&&◌, ℕ, some, none, Text, codes, text_eq, has_suffix, true, false, ◌≡◌, refl, inl, inr,
  List, [], ◌∷◌, ◌==◌,
}
use talemu.Cosi.{fresh, not_found, err, ok, Holds, Present}
use talemu.Cosi.InMemory.{in_memory, in_memory-IsState}
use talemu.Specs.{MachineStatus, new_service}
use talemu.Service.{done, Machine}
use talemu.Service.Cluster.{active_id}
use talemu.Service.Etcd.{
  MemberIds, EtcdMember, local_member_id, etcd_service, selected, etcd_member_list,
  etcd_remove_member, etcd_leave_cluster, reconcile,
}
use talemu.Service.Etcd.Members.{AreIds, AreFormatted, IsMember, lists, member_list-remove}
use talemu.Service.Etcd.Health.{reconcile-etcd_leave_cluster}
use talemu.Service.Meta.{MetaTags, token_id, system_information_id}
use talemu.Scenarios.{
  with_one, installed, machine_one, cluster_one, control_plane_config, small_cluster, joined,
}

-- Member IDs with one digit, here the byte of the number.
abbrev one_byte_ids : MemberIds
one_byte_ids = record { parse = λ t. elim t [ [] ↦ none | x ∷ xs ↦ some x ]; format = λ n. n ∷ [] }

one_byte_ids-AreIds : AreIds one_byte_ids
one_byte_ids-AreIds = record { parse-format = λ n. refl; format_nonempty = λ n. refl }

abbrev member_status : MachineStatus
member_status = record {
  labels = record { cluster = some cluster_one; control_plane_role = some []; worker_role = none };
  etcd_member_id = 7 ∷ [];
  hostname = codes "node-1";
}

abbrev running_member : Machine in_memory
running_member = record joined {
  machines = with_one machine_one member_status;
  etcd_members = with_one local_member_id (7 ∷ []);
}

running_member-IsMember : IsMember in_memory running_member control_plane_config small_cluster
unfolding in_memory text_eq
running_member-IsMember = record {
  configured = (fresh active_id control_plane_config, refl, refl, refl);
  complete = refl;
  control_plane_role = refl;
  in_cluster = (fresh cluster_one small_cluster, refl, refl, refl);
}

all_machines : in_memory.list running_member.machines ≡ ok (fresh machine_one member_status ∷ [])
unfolding in_memory text_eq
all_machines = refl

formatted : AreFormatted one_byte_ids (selected cluster_one (fresh machine_one member_status ∷ []))
unfolding selected text_eq
formatted = (inr (7, refl), tt)

known : Present in_memory running_member.machines machine_one member_status
unfolding in_memory text_eq
known = (fresh machine_one member_status, refl, refl, refl)

local : Present in_memory running_member.etcd_members local_member_id (7 ∷ [])
unfolding in_memory text_eq
local = (fresh local_member_id (7 ∷ []), refl, refl, refl)

no_service : in_memory.get running_member.services etcd_service ≡ err not_found
unfolding in_memory text_eq
no_service = refl

member_list-remove_example :
    (w' : Machine in_memory) × (etcd_remove_member one_byte_ids 7 running_member ≡ (done tt, w'))
    × ((members : List EtcdMember) × (members' : List EtcdMember) × (etcd_member_list one_byte_ids
            running_member
          ≡ (done members, running_member))
        × (etcd_member_list one_byte_ids w' ≡ (done members', w'))
        × ((k : ℕ) → lists k members' ≡ (lists k members && not (7 == k))))
member_list-remove_example =
    member_list-remove in_memory-IsState one_byte_ids one_byte_ids-AreIds running_member
      control_plane_config small_cluster (fresh machine_one member_status ∷ []) 7
      running_member-IsMember all_machines formatted

reconcile-etcd_leave_cluster_example :
    (w' : Machine in_memory) × (w'' : Machine in_memory) × (etcd_leave_cluster running_member
      ≡ (done tt, w'))
    × (reconcile (9 ∷ []) w' ≡ (done tt, w''))
    × Holds in_memory w''.etcd_members local_member_id [] (7 ∷ [])
    × Holds in_memory w''.services etcd_service new_service
        (record { running = true; healthy = false })
reconcile-etcd_leave_cluster_example =
    reconcile-etcd_leave_cluster in_memory-IsState (9 ∷ []) running_member control_plane_config
      small_cluster member_status (7 ∷ []) new_service running_member-IsMember refl known local refl
      (inl (no_service, refl))

abbrev tags : MetaTags
tags = record { id = λ k. k ∷ []; uuid_override = 13 }

abbrev with_meta : Machine in_memory
with_meta = record installed {
  tokens = with_one token_id (codes "t0");
  system_information = with_one system_information_id (codes "u0");
}

no_key : in_memory.get with_meta.meta_keys (16 ∷ []) ≡ err not_found
unfolding in_memory text_eq
no_key = refl

with_token : Present in_memory with_meta.tokens token_id (codes "t0")
unfolding in_memory text_eq
with_token = (fresh token_id (codes "t0"), refl, refl, refl)

with_uuid : Present in_memory with_meta.system_information system_information_id (codes "u0")
unfolding in_memory text_eq
with_uuid = (fresh system_information_id (codes "u0"), refl, refl, refl)

abbrev digest : Text → Text
digest ref = codes "sha256:00"

good_suffix : has_suffix (codes "alpine:3") (codes "-bad") ≡ false
unfolding has_suffix text_eq
good_suffix = refl

no_cached : in_memory.get installed.cached_images (codes "alpine:3") ≡ err not_found
unfolding in_memory text_eq
no_cached = refl
