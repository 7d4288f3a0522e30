-- ===== src/Scenarios/Affiliates.antt =====
-- Affiliates and members.
use talemu.Prelude.{
  Text, text_eq, codes, true, List, [], ◌∷◌, ◌++◌, none, some, ◌≡◌, refl, inl, inr, arith,
}
use talemu.Outputs.Reconcile.{owned, foreign}
use talemu.Affiliates.{AffiliateSpec, affiliates_round, merge_affiliates}
use talemu.Affiliates.Merging.{collected, affiliates_round-collected}
use talemu.Discovery.{no_kube_span, pb_affiliate, pb_endpoints, spec_affiliate}
use talemu.Discovery.Wire.{carried, spec_affiliate-pb_affiliate}
use talemu.Scenarios.Stores.{listed, shown, listed-IsStore}

abbrev pub affiliate_of : Text → Text → Text → AffiliateSpec
affiliate_of node name address = record {
  node_id = node;
  addresses = address ∷ [];
  hostname = name;
  nodename = name;
  operating_system = codes "Talos (v1.11.0)";
  machine_type = codes "worker";
  kube_span = no_kube_span;
  control_plane = none;
}

abbrev first_half : AffiliateSpec
first_half = affiliate_of (codes "n1") (codes "worker-1") (10 ∷ 0 ∷ 0 ∷ 1 ∷ [])

abbrev second_half : AffiliateSpec
second_half = affiliate_of (codes "n1") (codes "worker-1") (10 ∷ 0 ∷ 0 ∷ 2 ∷ [])

abbrev another : AffiliateSpec
another = affiliate_of (codes "n2") (codes "worker-2") (10 ∷ 0 ∷ 0 ∷ 3 ∷ [])

abbrev join_addresses : AffiliateSpec → AffiliateSpec → AffiliateSpec
join_addresses a b = record a { addresses = a.addresses ++ b.addresses }

abbrev raw : List AffiliateSpec
raw = first_half ∷ another ∷ second_half ∷ []

-- Of before the round: an affiliate of the controller that is gone.
affiliates_round-collected_example :
    let now = owned (codes "n9") another ∷ [] in
    let end = affiliates_round join_addresses (listed AffiliateSpec) (some raw) now in
    (end.1 ≡ true)
    × ((n : Text)
        → shown AffiliateSpec end.0 n ≡ elim (collected join_addresses n none raw) [
          | some v ↦ some (owned n v)
          | none ↦ foreign (shown AffiliateSpec now n)
        ])
unfolding merge_affiliates text_eq
affiliates_round-collected_example =
    affiliates_round-collected join_addresses (listed AffiliateSpec) (shown AffiliateSpec)
      (listed-IsStore AffiliateSpec) raw (owned (codes "n9") another ∷ [])
      (inl refl, (inl refl, tt))

abbrev pub spanned : AffiliateSpec
spanned = record first_half {
  kube_span = record {
    public_key = codes "key";
    address = 10 ∷ 0 ∷ 0 ∷ 1 ∷ [];
    additional_addresses = record { addr = 10 ∷ 0 ∷ 0 ∷ 0 ∷ []; bits = some 24 } ∷ [];
    endpoints = record { addr = 10 ∷ 0 ∷ 0 ∷ 1 ∷ []; port = 51820 } ∷ [];
  };
  control_plane = some 6443;
}

spec_affiliate-pb_affiliate_example :
    spec_affiliate (λ t. t) (pb_affiliate spanned) (pb_endpoints spanned)
    ≡ record spanned { kube_span = carried spanned.kube_span }
spec_affiliate-pb_affiliate_example =
    spec_affiliate-pb_affiliate (λ t. t) spanned
      (
        (refl, tt),
        refl,
        ((refl, omega arith, inr (24, refl, refl, omega arith)), tt),
        ((refl, omega arith), tt),
        λ p e. ground (arith, e),
      )
      refl
