-- ===== src/Scenarios/Announced.antt =====
-- The affiliate of one machine as a member on another.
use talemu.Prelude.{
  Text, text_eq, text_eq_iff, codes, true, false, List, [], ◌∷◌, none, some, ◌≡◌, refl, sym, inl,
  inr, arith, Bool-cases,
}
use talemu.Outputs.{Entry, reconcile, write_all, cleanup, destroy_untouched}
use talemu.Outputs.Reconcile.{owned, AreFree}
use talemu.Affiliates.{
  AffiliateSpec, MemberSpec, member_of, merge_affiliates, members_of, affiliates_round,
  members_round,
}
use talemu.Discovery.{ProtoEqual, pb_affiliate, pb_endpoints, spec_affiliate}
use talemu.Discovery.Sessions.{Library, Session, discover, discovered}
use talemu.Peers.{discover_members}
use talemu.Peers.Announced.{announced_is_member}
use talemu.Scenarios.Stores.{listed, shown, listed-IsStore}
use talemu.Scenarios.Affiliates.{affiliate_of}

-- Where there are no resources, all that is wanted is free.
AreFree-empty : {A : Type 0} (ds : List (Text × A)) → AreFree ds (shown A [])
AreFree-empty [] = tt
AreFree-empty (d ∷ ds) = (inl refl, AreFree-empty ds)

only_one : {A : Type 0} (x e : Entry A) (j : Text) → shown A (x ∷ []) j ≡ some e → j ≡ x.id
only_one x e j h = elim (Bool-cases (text_eq x.id j)) [
  | inl y ↦ sym ((text_eq_iff x.id j).0 y)
  | inr y ↦ ground (arith, h, y)
]

abbrev announced : AffiliateSpec
announced = affiliate_of (codes "n2") (codes "worker-2") (10 ∷ 0 ∷ 0 ∷ 2 ∷ [])

abbrev library : Library
library = record {
  Client = Unit {0};
  new = λ o. some tt;
  set_local = λ d es os c. some tt;
  delete_local = λ c. tt;
  affiliates = λ c. (pb_affiliate announced, pb_endpoints announced) ∷ [];
}

abbrev never : ProtoEqual
never = record { endpoint = λ a b. false; affiliate = λ a o. false }

abbrev session : Session (Unit {0})
session = record {
  config_version = none;
  local_id = codes "n1";
  running = true;
  client = some tt;
  prev_data = none;
  prev_endpoints = none;
  prev_others = none;
}

announced_is_member_example :
    shown MemberSpec
      (discover_members
        (λ t. t)
        never
        library
        (λ a b. a)
        (listed AffiliateSpec)
        (listed AffiliateSpec)
        (listed MemberSpec)
        session
        tt
        []
        []
        []).2
      (codes "worker-2")
    ≡ some (owned (codes "worker-2") (member_of announced))
unfolding discover reconcile write_all cleanup destroy_untouched affiliates_round merge_affiliates
    members_round members_of spec_affiliate pb_affiliate pb_endpoints text_eq
announced_is_member_example =
    announced_is_member (λ t. t) never library (λ a b. a) (listed AffiliateSpec)
      (listed AffiliateSpec) (listed MemberSpec) (shown AffiliateSpec) (shown AffiliateSpec)
      (shown MemberSpec) (listed-IsStore AffiliateSpec) (listed-IsStore AffiliateSpec)
      (listed-IsStore MemberSpec) announced session tt [] [] []
      ((refl, tt), refl, tt, tt, λ p e. cc) refl refl refl (λ j e f k. only_one _ e j f)
      (λ j e f k. only_one _ e j f)
      (AreFree-empty (discovered (λ t. t) never library (listed AffiliateSpec) tt))
      (λ xs e. AreFree-empty (merge_affiliates (λ a b. a) [] xs))
      (λ xs e. AreFree-empty (members_of xs))
