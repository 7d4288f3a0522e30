-- ===== src/Affiliates/Members.antt =====
-- The members that are left.
use talemu.Prelude.{
  Text, text_eq, text_eq_iff, true, false, List, [], ◌∷◌, Option, none, some, if◌then◌else◌, ◌≡◌,
  refl, ap, ◌∙◌, arith, inl, inr, Bool-cases,
}
use talemu.Image.{is_empty}
use talemu.Outputs.{Entry, Store}
use talemu.Outputs.Reconcile.{last_wanted, owned, foreign, AreFree, IsStore, reconcile-expected}
use talemu.Affiliates.{AffiliateSpec, MemberSpec, member_of, members_of, members_round}

-- The last affiliate with the node name.
abbrev pub last_named : Text → List AffiliateSpec → Option AffiliateSpec
last_named n [] = none
last_named n (a ∷ more) = elim (last_named n more) [
  | some b ↦ some b
  | none ↦ if text_eq a.nodename n then some a else none
]

wanted-members_of :
    (n : Text) (xs : List AffiliateSpec)
    → is_empty n ≡ false
    → last_wanted n (members_of xs)
      ≡ elim (last_named n xs) [ none ↦ none | some a ↦ some (member_of a) ]
unfolding members_of
wanted-members_of n [] h = refl
wanted-members_of n (x ∷ xs) h = elim (Bool-cases (text_eq x.nodename n)) [
  | inl y ↦
      ground
        (arith, wanted-members_of n xs h, ap (λ t. is_empty t) ((text_eq_iff x.nodename n).0 y))
  | inr y ↦ ground (arith, wanted-members_of n xs h)
]

-- Where no call fails, a round leaves for each node name the member of the last affiliate of that
-- name, and of the other members those that other controllers own.  This assumes that no other
-- controller owns a member with such a name.
pub members_round-last_named :
    (store : Store MemberSpec) (view : store.State → Text → Option (Entry MemberSpec))
    → IsStore store view
    → (affiliates : List AffiliateSpec) (s : store.State) → AreFree (members_of affiliates) (view s)
    → let end = members_round store (some affiliates) s in
      (end.1 ≡ true)
      × ((n : Text)
          → is_empty n ≡ false
          → view end.0 n ≡ elim (last_named n affiliates) [
            | some a ↦ some (owned n (member_of a))
            | none ↦ foreign (view s n)
          ])
unfolding members_round
members_round-last_named store view works affiliates s f =
    let (ok, left) = reconcile-expected store view works (members_of affiliates) s f in
    (ok, λ n h. left n ∙ ground (arith, wanted-members_of n affiliates h))
