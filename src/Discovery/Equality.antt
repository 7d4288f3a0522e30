-- ===== src/Discovery/Equality.antt =====
-- What equalEndpoints and equalOtherEndpoints compare.
use talemu.Prelude.{
  text_eq_iff, text_eq_refl, true, List, [], ◌∷◌, Option, none, some, ◌≡◌, refl, ap, ◌↔◌, arith,
}
use talemu.Discovery.{
  PbAffiliate, PbEndpoint, OtherEndpoint, ProtoEqual, all_endpoints, all_others, equal_endpoints,
  equal_other_endpoints,
}

-- proto.Equal tells messages apart.
pub record IsProtoEqual (same : ProtoEqual) : Type 0 where
  pub endpoint_iff : (a b : PbEndpoint) → (same.endpoint a b ≡ true) ↔ (a ≡ b)
  pub affiliate_iff :
      (a : PbAffiliate) (b : Option PbAffiliate) → (same.affiliate a b ≡ true) ↔ (b ≡ some a)

module _ (same : ProtoEqual) (tells : IsProtoEqual same) where
  all_endpoints_eq : (a b : List PbEndpoint) → all_endpoints same a b ≡ true → a ≡ b
  all_endpoints_eq [] [] h = refl
  all_endpoints_eq [] (b ∷ bs) h = cc
  all_endpoints_eq (a ∷ as') [] h = cc
  all_endpoints_eq (a ∷ as') (b ∷ bs) h =
      ground (arith, all_endpoints_eq as' bs, (tells.endpoint_iff a b).0)

  all_endpoints_refl : (a : List PbEndpoint) → all_endpoints same a a ≡ true
  all_endpoints_refl [] = refl
  all_endpoints_refl (a ∷ as') =
      ground (arith, all_endpoints_refl as', (tells.endpoint_iff a a).1 refl)

  pub equal_endpoints_eq :
      (a b : Option (List PbEndpoint)) → equal_endpoints same a b ≡ true → a ≡ b
  unfolding equal_endpoints
  equal_endpoints_eq none none h = refl
  equal_endpoints_eq none (some b) h = cc
  equal_endpoints_eq (some a) none h = cc
  equal_endpoints_eq (some a) (some b) h = ap (λ x. some x) (all_endpoints_eq a b h)

  pub equal_endpoints_refl : (a : Option (List PbEndpoint)) → equal_endpoints same a a ≡ true
  unfolding equal_endpoints
  equal_endpoints_refl none = refl
  equal_endpoints_refl (some a) = all_endpoints_refl a

  all_others_eq : (a b : List OtherEndpoint) → all_others same a b ≡ true → a ≡ b
  all_others_eq [] [] h = refl
  all_others_eq [] (b ∷ bs) h = cc
  all_others_eq (a ∷ as') [] h = cc
  all_others_eq (a ∷ as') (b ∷ bs) h = ground (
    arith,
    all_others_eq as' bs,
    (text_eq_iff a.affiliate_id b.affiliate_id).0,
    equal_endpoints_eq a.endpoints b.endpoints,
  )

  all_others_refl : (a : List OtherEndpoint) → all_others same a a ≡ true
  all_others_refl [] = refl
  all_others_refl (a ∷ as') =
      ground
        (arith, all_others_refl as', text_eq_refl a.affiliate_id, equal_endpoints_refl a.endpoints)

  pub equal_other_endpoints_eq :
      (a b : Option (List OtherEndpoint)) → equal_other_endpoints same a b ≡ true → a ≡ b
  unfolding equal_other_endpoints
  equal_other_endpoints_eq none none h = refl
  equal_other_endpoints_eq none (some b) h = cc
  equal_other_endpoints_eq (some a) none h = cc
  equal_other_endpoints_eq (some a) (some b) h = ap (λ x. some x) (all_others_eq a b h)

  pub equal_other_endpoints_refl :
      (a : Option (List OtherEndpoint)) → equal_other_endpoints same a a ≡ true
  unfolding equal_other_endpoints
  equal_other_endpoints_refl none = refl
  equal_other_endpoints_refl (some a) = all_others_refl a
