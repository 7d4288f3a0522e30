-- ===== src/Peers/Announced.antt =====
-- From the affiliate of one machine to the member on another.
use talemu.Prelude.{
  Text, text_eq_refl, false, List, [], ◌∷◌, ◌++◌, Option, some, ◌≡◌, ap, ◌∙◌, arith,
}
use talemu.Image.{is_empty}
use talemu.Outputs.{Entry, Store}
use talemu.Outputs.Reconcile.{owned, last_wanted, AreFree, IsStore}
use talemu.Affiliates.{
  AffiliateSpec, MemberSpec, merge_affiliates, affiliates_round, member_of, members_of,
  members_round,
}
use talemu.Affiliates.Merging.{affiliates_round-collected}
use talemu.Affiliates.Members.{members_round-last_named}
use talemu.Outputs.Reconcile.{reconcile-expected}
use talemu.Discovery.{ProtoEqual, pb_affiliate, pb_endpoints, spec_affiliate}
use talemu.Discovery.Wire.{IsTyped, carried, spec_affiliate-pb_affiliate}
use talemu.Discovery.Sessions.{Library, Session, service_id, discovered, discover}
use talemu.Peers.{read_all, discover_members}
use talemu.Peers.Only.{IsOnly, collected_only, last_named_only, read_only}

module _ (parse_type : Text → Text) (same : ProtoEqual) (lib : Library)
    (merge : AffiliateSpec → AffiliateSpec → AffiliateSpec) (raw merged : Store AffiliateSpec)
    (members : Store MemberSpec) where
  -- A machine that announces its affiliate is a member for every machine that discovers it: once the
  -- three controllers have run there, one after the other and without a call that fails, the member
  -- of its node name is that of its own affiliate.  This assumes that the affiliate has the ranges of
  -- its Go types, a port of 32 bits, a type of machine whose name is read back and a node name; that
  -- the client has discovered it, last of its ID; that no other resource has its node ID or its node
  -- name; and that no other controller owns a resource that these three write.
  pub announced_is_member :
      (rview : raw.State → Text → Option (Entry AffiliateSpec))
      (mview : merged.State → Text → Option (Entry AffiliateSpec))
      (kview : members.State → Text → Option (Entry MemberSpec))
      → IsStore raw rview
      → IsStore merged mview
      → IsStore members kview
      → (a : AffiliateSpec) (s : Session lib.Client) (cl : lib.Client) (r : raw.State)
        (m : merged.State) (k : members.State)
      → IsTyped a
      → parse_type a.machine_type ≡ a.machine_type
      → is_empty a.nodename ≡ false
      → last_wanted (service_id a.node_id) (discovered parse_type same lib raw cl)
        ≡ some (spec_affiliate parse_type (pb_affiliate a) (pb_endpoints a))
      → let (r', m', k') =
          discover_members parse_type same lib merge raw merged members s cl r m k in
        IsOnly (λ x. x.node_id) a.node_id (rview r') (service_id a.node_id)
        → IsOnly (λ x. x.nodename) a.nodename (mview m') a.node_id
        → AreFree (discovered parse_type same lib raw cl) (rview r)
        → ((xs : List AffiliateSpec)
            → read_all raw r' ≡ some xs
            → AreFree (merge_affiliates merge [] xs) (mview m))
        → ((xs : List AffiliateSpec)
            → read_all merged m' ≡ some xs
            → AreFree (members_of xs) (kview k))
        → kview k' a.nodename ≡ some (owned a.nodename (member_of a))
  unfolding discover
  announced_is_member rview mview kview rlaws mlaws klaws a s cl r m k typed parsed named wanted
        only1 only2 free1 free2 free3 =
      let a' : AffiliateSpec = record a { kube_span = carried a.kube_span } in
      let (r', m', k') = discover_members parse_type same lib merge raw merged members s cl r m k in
      let (ok1, left1) =
        reconcile-expected raw rview rlaws (discovered parse_type same lib raw cl) r free1 in
      let there : rview r' (service_id a.node_id) ≡ some (owned (service_id a.node_id) a') =
        left1 (service_id a.node_id)
        ∙ ground (arith, wanted, spec_affiliate-pb_affiliate parse_type a typed parsed) in
      let (pre, post, list1, p, q) =
        read_only raw rview rlaws (λ x. x.node_id) a.node_id r' (service_id a.node_id)
          (owned (service_id a.node_id) a') there (text_eq_refl a.node_id) only1 in
      let xs : List AffiliateSpec = pre ++ a' ∷ post in
      let (ok2, left2) =
        affiliates_round-collected merge merged mview mlaws xs m (free2 xs list1) in
      let there2 : mview m' a.node_id ≡ some (owned a.node_id a') =
        ap (λ o. mview (affiliates_round merge merged o m).0 a.node_id) list1
        ∙ left2 a.node_id
        ∙ ground (arith, collected_only merge a.node_id pre post a' p q (text_eq_refl a.node_id)) in
      let (pre2, post2, list2, p2, q2) =
        read_only merged mview mlaws (λ x. x.nodename) a.nodename m' a.node_id (owned a.node_id a')
          there2 (text_eq_refl a.nodename) only2 in
      let ys : List AffiliateSpec = pre2 ++ a' ∷ post2 in
      let (ok3, left3) = members_round-last_named members kview klaws ys k (free3 ys list2) in
      ap (λ o. kview (members_round members o k).0 a.nodename) list2
      ∙ left3 a.nodename named
      ∙ ground (arith, last_named_only a.nodename pre2 post2 a' p2 q2 (text_eq_refl a.nodename))
