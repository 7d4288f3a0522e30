-- ===== src/Service/Etcd/Members.antt =====
-- Which members EtcdMemberList returns, also after a removal.
use talemu.Prelude.{
  ℕ, Text, text_eq, text_eq_iff, Bool, true, false, not, ◌&&◌, ◌||◌, List, [], ◌∷◌, ◌++◌, some,
  is_some, ◌==◌, ==_iff, ◌≡◌, refl, sym, ap, ◌⊎◌, inl, inr, arith, Bool-cases,
}
use talemu.Cosi.{ok, Resource, State, IsState, Present}
use talemu.Cosi.Laws.{update_self}
use talemu.Specs.{ClusterStatus, MachineStatus, MachineConfig}
use talemu.Image.{is_empty}
use talemu.Service.{Machine, done}
use talemu.Service.Cluster.{active_id, control_plane}
use talemu.Service.Cluster.Steps.{get_complete_lem}
use talemu.Service.Etcd.{
  MemberIds, EtcdMember, member, selected, collect, deny, control_plane_config, etcd_member_list,
  deny_member, etcd_remove_member,
}

-- What the code relies on: an ID is read back from its text, which is not empty.
pub record AreIds (ids : MemberIds) : Type 0 where
  pub parse-format : (n : ℕ) → ids.parse (ids.format n) ≡ some n
  pub format_nonempty : (n : ℕ) → is_empty (ids.format n) ≡ false

-- The machines of a list have no member ID or one that was formatted.
abbrev pub AreFormatted : MemberIds → List MachineStatus → Type 0
AreFormatted ids [] = Unit
AreFormatted ids (m ∷ ms) =
    ((m.etcd_member_id ≡ []) ⊎ ((k : ℕ) × (m.etcd_member_id ≡ ids.format k))) × AreFormatted ids ms

-- Some machine has the member ID.
unfoldable pub has_id : Text → List MachineStatus → Bool
has_id t [] = false
has_id t (m ∷ ms) = text_eq m.etcd_member_id t || has_id t ms

-- The list of members has one with the ID.
unfoldable pub lists : ℕ → List EtcdMember → Bool
lists n [] = false
lists n (e ∷ es) = e.id == n || lists n es

nonempty-eq : (t : Text) → is_empty t ≡ false → text_eq [] t ≡ false
unfolding text_eq
nonempty-eq [] h = ground arith
nonempty-eq (x ∷ xs) h = refl

module _ (ids : MemberIds) (good : AreIds ids) where
  format-eq : (k n : ℕ) → text_eq (ids.format k) (ids.format n) ≡ (k == n)
  format-eq k n =
      ground
        (arith, good.parse-format k, good.parse-format n, text_eq_iff (ids.format k) (ids.format n))

  -- An ID that was formatted is not empty, so no machine without an ID has it.
  empty-format : (n : ℕ) → text_eq [] (ids.format n) ≡ false
  unfolding text_eq
  empty-format n = nonempty-eq (ids.format n) (good.format_nonempty n)

  member-ext :
      (denied : List Text) (k n : ℕ)
      → (k == n) ≡ true
      → member (ids.format k) denied ≡ member (ids.format n) denied
  member-ext denied k n h = ap (λ i. member (ids.format i) denied) ((==_iff k n).0 h)

  collect_lem :
      (denied : List Text) (ms : List MachineStatus)
      → AreFormatted ids ms
      → (members : List EtcdMember) × (collect ids denied ms ≡ some members)
        × ((n : ℕ)
            → lists n members ≡ (has_id (ids.format n) ms && not (member (ids.format n) denied)))
  unfolding collect lists has_id
  collect_lem denied [] h = ([], refl, (λ n. refl))
  collect_lem denied (m ∷ ms) (inl e, h) =
      let (members, found, same) = collect_lem denied ms h in
      (members, ground arith, (λ n. ground (arith, same n, empty-format n)))
  collect_lem denied (m ∷ ms) (inr (k, e), h) =
      let (members, found, same) = collect_lem denied ms h in
      elim (Bool-cases (member (ids.format k) denied)) [
        | inl d ↦ (
          members,
          ground (arith, good.parse-format k, good.format_nonempty k),
          (λ n. ground (arith, same n, format-eq k n, member-ext denied k n)),
        )
        | inr d ↦ (
          record { id = k; hostname = m.hostname } ∷ members,
          ground (arith, good.parse-format k, good.format_nonempty k),
          (λ n. ground (arith, same n, format-eq k n, member-ext denied k n)),
        )
      ]

member-append :
    (u t : Text) (xs : List Text) → member u (xs ++ t ∷ []) ≡ (member u xs || text_eq t u)
unfolding member
member-append u t [] = ground arith
member-append u t (x ∷ xs) = ground (arith, member-append u t xs)

member-eq : (t u : Text) (xs : List Text) → text_eq t u ≡ true → member u xs ≡ member t xs
member-eq t u xs h = ap (λ v. member v xs) (sym ((text_eq_iff t u).0 h))

-- Denying an ID denies that one and leaves the others as they were.
pub member-deny :
    (c : ClusterStatus) (t u : Text)
    → member u (deny t c).deny_etcd_members ≡ (member u c.deny_etcd_members || text_eq t u)
unfolding deny
member-deny c t u =
    ground (arith, member-append u t c.deny_etcd_members, member-eq t u c.deny_etcd_members)

-- A control plane whose configuration is complete, with the cluster that it is in.
pub record IsMember (s : State) (w : Machine s) (cfg : MachineConfig) (now : ClusterStatus)
    : Type 0 where
  pub configured : Present s w.configs active_id cfg
  pub complete : is_some cfg.machine ≡ true
  pub control_plane_role : control_plane cfg ≡ true
  pub in_cluster : Present s w.clusters cfg.cluster_id now

module _ {s : State} (laws : IsState s) where
  pub control_plane_config_lem :
      (w : Machine s) {cfg : MachineConfig} {now : ClusterStatus}
      → IsMember s w cfg now
      → control_plane_config w ≡ (done cfg, w)
  unfolding control_plane_config
  control_plane_config_lem w h =
      let (r, found, same) = get_complete_lem laws w.configs h.configured h.complete in
      ground (arith, h.control_plane_role)

  pub deny_member_lem :
      (w : Machine s) {id : Text} {now : ClusterStatus} (t : Text)
      → Present s w.clusters id now
      → (c : s.Coll ClusterStatus) × (deny_member id t w ≡ (done tt, record w { clusters = c }))
        × Present s c id (deny t now)
  unfolding deny_member
  deny_member_lem w {id} t (r, h, p, e) =
      let set = update_self laws w.clusters id (λ v. ok (deny t v)) h p refl in
      (
        (s.update w.clusters id (λ v. ok (deny t v))).1,
        ground (arith, set),
        (record r { value = deny t r.value }, set.1, p, ap (deny t) e),
      )

module _ {s : State} (laws : IsState s) (ids : MemberIds) (good : AreIds ids) where
  list_lem :
      (w : Machine s) {cfg : MachineConfig} {now : ClusterStatus}
      {rs : List (Resource MachineStatus)}
      → IsMember s w cfg now
      → s.list w.machines ≡ ok rs
      → AreFormatted ids (selected cfg.cluster_id rs)
      → (members : List EtcdMember) × (etcd_member_list ids w ≡ (done members, w))
        × ((n : ℕ)
            → lists n members ≡ (
                has_id (ids.format n) (selected cfg.cluster_id rs)
                && not (member (ids.format n) now.deny_etcd_members)))
  unfolding etcd_member_list
  list_lem w {now} h all formatted =
      let (members, collected, same) = collect_lem ids good now.deny_etcd_members _ formatted in
      let (r, got, _, held) = h.in_cluster in
      (members, ground (arith, control_plane_config_lem laws w h), same)

  remove_lem :
      (w : Machine s) {cfg : MachineConfig} {now : ClusterStatus} (n : ℕ)
      → IsMember s w cfg now
      → (c : s.Coll ClusterStatus) × (etcd_remove_member ids n w
          ≡ (done tt, record w { clusters = c }))
        × IsMember s (record w { clusters = c }) cfg (deny (ids.format n) now)
  unfolding etcd_remove_member
  remove_lem w n h =
      let (c, denied, kept) = deny_member_lem laws w (ids.format n) h.in_cluster in
      (
        c,
        ground (arith, control_plane_config_lem laws w h),
        record {
          configured = h.configured;
          complete = h.complete;
          control_plane_role = h.control_plane_role;
          in_cluster = kept;
        },
      )

  -- On a configured control plane in a cluster whose machines have no member ID or a formatted one,
  -- removing the member `n` succeeds, and the member list, which also succeeded before, has from
  -- then on the members that it had but `n`.
  pub member_list-remove :
      (w : Machine s) (cfg : MachineConfig) (now : ClusterStatus)
      (rs : List (Resource MachineStatus)) (n : ℕ)
      → IsMember s w cfg now
      → s.list w.machines ≡ ok rs
      → AreFormatted ids (selected cfg.cluster_id rs)
      → (w' : Machine s) × (etcd_remove_member ids n w ≡ (done tt, w'))
        × ((members : List EtcdMember) × (members' : List EtcdMember) × (etcd_member_list ids w
              ≡ (done members, w))
            × (etcd_member_list ids w' ≡ (done members', w'))
            × ((k : ℕ) → lists k members' ≡ (lists k members && not (n == k))))
  member_list-remove w cfg now rs n h all formatted =
      let (c, removed, h') = remove_lem w n h in
      let (members, listed, same) = list_lem w h all formatted in
      let (members', listed', same') = list_lem (record w { clusters = c }) h' all formatted in
      (
        record w { clusters = c },
        removed,
        (
          members,
          members',
          listed,
          listed',
          λ k. ground (
            arith,
            same k,
            same' k,
            member-deny now (ids.format n) (ids.format k),
            format-eq ids good n k,
          ),
        ),
      )
