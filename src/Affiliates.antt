-- ===== src/Affiliates.antt =====
-- The members of a cluster: internal/pkg/machine/controllers/affiliate_merge.go and member.go. The
-- merge of two affiliates is a dependency. An address is known by its binary form.
pub mod Merging
pub mod Members
use talemu.Prelude.{
  ℕ, Text, text_eq, Bool, true, false, List, [], ◌∷◌, map, Option, none, some, if◌then◌else◌,
}
use talemu.Image.{is_empty}
use talemu.Outputs.{Store, reconcile}

-- netip.AddrPort and netip.Prefix, which without bits is invalid
pub record AddrPort : Type 0 where
  pub addr : Text
  pub port : ℕ

pub record Prefix : Type 0 where
  pub addr : Text
  pub bits : Option ℕ

-- cluster.KubeSpanAffiliateSpec
pub record KubeSpan : Type 0 where
  pub public_key : Text
  pub address : Text
  pub additional_addresses : List Prefix
  pub endpoints : List AddrPort

-- cluster.AffiliateSpec; the machine type is known by its name, and `control_plane` holds the port of
-- the API server.
pub record AffiliateSpec : Type 0 where
  pub node_id : Text
  pub addresses : List Text
  pub hostname : Text
  pub nodename : Text
  pub operating_system : Text
  pub machine_type : Text
  pub kube_span : KubeSpan
  pub control_plane : Option ℕ

-- cluster.MemberSpec
pub record MemberSpec : Type 0 where
  pub node_id : Text
  pub addresses : List Text
  pub hostname : Text
  pub machine_type : Text
  pub operating_system : Text
  pub control_plane : Option ℕ

module _ (merge : AffiliateSpec → AffiliateSpec → AffiliateSpec) where
  -- AffiliateMergeController.Run: one affiliate
  abbrev pub add_affiliate :
      AffiliateSpec → List (Text × AffiliateSpec) → List (Text × AffiliateSpec)
  add_affiliate x [] = (x.node_id, x) ∷ []
  add_affiliate x (d ∷ ds) =
      let rest = add_affiliate x ds in
      if text_eq d.0 x.node_id then (d.0, merge d.1 x) ∷ ds else d ∷ rest

  -- AffiliateMergeController.Run: the loop. Go visits a map in any order; here it is that of the first
  -- affiliates of the nodes.
  unfoldable pub merge_affiliates :
      List (Text × AffiliateSpec) → List AffiliateSpec → List (Text × AffiliateSpec)
  merge_affiliates merged [] = merged
  merge_affiliates merged (x ∷ xs) = merge_affiliates (add_affiliate x merged) xs

  -- AffiliateMergeController.Run: one round, over the affiliates of the raw namespace
  unfoldable pub affiliates_round :
      (store : Store AffiliateSpec) → Option (List AffiliateSpec) → store.State → store.State × Bool
  affiliates_round store none s = (s, false)
  affiliates_round store (some raw) s = reconcile store (merge_affiliates [] raw) s

-- MemberController.Run: the callback
abbrev pub member_of : AffiliateSpec → MemberSpec
member_of a = record {
  node_id = a.node_id;
  addresses = a.addresses;
  hostname = a.hostname;
  machine_type = a.machine_type;
  operating_system = a.operating_system;
  control_plane = a.control_plane;
}

-- MemberController.Run: the members of a list of affiliates
unfoldable pub members_of : List AffiliateSpec → List (Text × MemberSpec)
members_of [] = []
members_of (a ∷ more) =
    let rest = members_of more in
    if is_empty a.nodename then rest else (a.nodename, member_of a) ∷ rest

-- MemberController.Run: one round
unfoldable pub members_round :
    (store : Store MemberSpec) → Option (List AffiliateSpec) → store.State → store.State × Bool
members_round store none s = (s, false)
members_round store (some affiliates) s = reconcile store (members_of affiliates) s
