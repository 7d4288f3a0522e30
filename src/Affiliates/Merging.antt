-- ===== src/Affiliates/Merging.antt =====
-- The affiliates that the merge leaves.
use talemu.Prelude.{
  Text, text_eq, text_eq_iff, text_eq_sym, true, false, List, [], ◌∷◌, Option, none, some,
  if◌then◌else◌, ◌≡◌, refl, ap, sym, ◌∙◌, inl, inr, arith, Bool-cases,
}
use talemu.Outputs.{Entry, Store}
use talemu.Outputs.Reconcile.{last_wanted, owned, foreign, AreFree, IsStore, reconcile-expected}
use talemu.Affiliates.{AffiliateSpec, add_affiliate, merge_affiliates, affiliates_round}

module _ (merge : AffiliateSpec → AffiliateSpec → AffiliateSpec) where
  -- What is known of the node `n` after the affiliates of a list, in their order.
  abbrev pub collected : Text → Option AffiliateSpec → List AffiliateSpec → Option AffiliateSpec
  collected n known [] = known
  collected n known (x ∷ xs) =
      collected n
        (if text_eq x.node_id n
          then (elim known [ none ↦ some x | some y ↦ some (merge y x) ])
          else known)
        xs

  abbrev AreKeyed : List (Text × AffiliateSpec) → Type 0
  AreKeyed [] = Unit
  AreKeyed (d ∷ ds) = (last_wanted d.0 ds ≡ none) × AreKeyed ds

  wanted-add_affiliate :
      (n : Text) (x : AffiliateSpec) (ds : List (Text × AffiliateSpec))
      → AreKeyed ds
      → last_wanted n (add_affiliate merge x ds) ≡ (
          if text_eq x.node_id n
          then (elim (last_wanted n ds) [ none ↦ some x | some y ↦ some (merge y x) ])
          else last_wanted n ds)
  wanted-add_affiliate n x [] k = refl
  wanted-add_affiliate n x (d ∷ ds) k = elim (Bool-cases (text_eq d.0 x.node_id)) [
    | inl y ↦
        let e = (text_eq_iff d.0 x.node_id).0 y in
        elim (Bool-cases (text_eq d.0 n)) [
          | inl z ↦
              ground (
                arith,
                ap (λ t. text_eq t n) e,
                ap (λ t. last_wanted t ds) ((text_eq_iff d.0 n).0 z),
              )
          | inr z ↦ ground (arith, ap (λ t. text_eq t n) e)
        ]
    | inr y ↦ elim (Bool-cases (text_eq d.0 n)) [
      | inl z ↦
          let apart = ap (λ t. text_eq t x.node_id) ((text_eq_iff d.0 n).0 z) in
          elim (Bool-cases (text_eq x.node_id n)) [
            | inl w ↦
                ground
                  (arith, apart, (text_eq_iff n x.node_id).1 (sym ((text_eq_iff x.node_id n).0 w)))
            | inr w ↦ ground (arith, wanted-add_affiliate n x ds k.1)
          ]
      | inr z ↦ ground (arith, wanted-add_affiliate n x ds k.1)
    ]
  ]

  AreKeyed-add_affiliate :
      (x : AffiliateSpec) (ds : List (Text × AffiliateSpec))
      → AreKeyed ds
      → AreKeyed (add_affiliate merge x ds)
  AreKeyed-add_affiliate x [] k = (refl, tt)
  AreKeyed-add_affiliate x (d ∷ ds) k = elim (Bool-cases (text_eq d.0 x.node_id)) [
    | inl y ↦ ground (arith, k.0, k.1)
    | inr y ↦
        let rest = AreKeyed-add_affiliate x ds k.1 in
        let e : add_affiliate merge x (d ∷ ds) ≡ d ∷ add_affiliate merge x ds = ground arith in
        let apart : text_eq x.node_id d.0 ≡ false = text_eq_sym d.0 x.node_id y in
        rw e (ground (arith, wanted-add_affiliate d.0 x ds k.1, k.0), rest)
  ]

  wanted-merge_affiliates :
      (n : Text) (xs : List AffiliateSpec) (ds : List (Text × AffiliateSpec))
      → AreKeyed ds
      → last_wanted n (merge_affiliates merge ds xs) ≡ collected n (last_wanted n ds) xs
  unfolding merge_affiliates
  wanted-merge_affiliates n [] ds k = refl
  wanted-merge_affiliates n (x ∷ xs) ds k =
      wanted-merge_affiliates n xs (add_affiliate merge x ds) (AreKeyed-add_affiliate x ds k)
      ∙ ap (λ o. collected n o xs) (wanted-add_affiliate n x ds k)

  -- Where no call fails, a round leaves for each node the merge of all its raw affiliates, in the
  -- order of the list, and of the other affiliates those that other controllers own.  This assumes
  -- that no other controller owns an affiliate of one of the nodes.
  pub affiliates_round-collected :
      (store : Store AffiliateSpec) (view : store.State → Text → Option (Entry AffiliateSpec))
      → IsStore store view
      → (raw : List AffiliateSpec) (s : store.State)
      → AreFree (merge_affiliates merge [] raw) (view s)
      → let end = affiliates_round merge store (some raw) s in
        (end.1 ≡ true)
        × ((n : Text)
            → view end.0 n ≡ elim (collected n none raw) [
              | some v ↦ some (owned n v)
              | none ↦ foreign (view s n)
            ])
  unfolding affiliates_round
  affiliates_round-collected store view works raw s f =
      let (ok, left) = reconcile-expected store view works (merge_affiliates merge [] raw) s f in
      (
        ok,
        λ n.
            left n
            ∙ ap (λ o. elim o [ some v ↦ some (owned n v) | none ↦ foreign (view s n) ])
                (wanted-merge_affiliates n raw [] tt),
      )
