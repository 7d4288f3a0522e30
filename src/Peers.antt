-- ===== src/Peers.antt =====
-- From the discovery service to the members: what DiscoveryServiceController, AffiliateMergeController
-- and MemberController of internal/pkg/machine/controllers do one after another, each of which reads
-- the resources that the one before it writes.
pub mod Only
pub mod Announced
use talemu.Prelude.{
  Text, text_eq, text_eq_iff, text_eq_refl, Bool, true, false, not, ◌&&◌, List, [], ◌∷◌, ◌++◌, map,
  Option, none, some, if◌then◌else◌, ◌≡◌, refl, ap, sym, ◌∙◌, inl, inr, arith, Bool-cases,
  Option-cases,
}
use talemu.Image.{is_empty}
use talemu.Outputs.{Entry, Store}
use talemu.Outputs.Reconcile.{
  find_entry, AreDistinct, owned, last_wanted, foreign, AreFree, IsStore, find_entry_tail,
  find_entry_id,
}
use talemu.Affiliates.{
  AffiliateSpec, MemberSpec, merge_affiliates, affiliates_round, member_of, members_of,
  members_round,
}
use talemu.Affiliates.Merging.{collected, affiliates_round-collected}
use talemu.Affiliates.Members.{last_named, members_round-last_named}
use talemu.Outputs.Reconcile.{reconcile-expected}
use talemu.Discovery.{ProtoEqual, pb_affiliate, pb_endpoints, spec_affiliate}
use talemu.Discovery.Wire.{IsTyped, carried, spec_affiliate-pb_affiliate}
use talemu.Discovery.Sessions.{Library, Session, service_id, discovered, discover}

-- safe.ReaderListAll: the specs of the resources
abbrev pub read_all : {A : Type 0} (store : Store A) → store.State → Option (List A)
read_all store s = elim (store.list s) [ none ↦ none | some es ↦ some (map (λ e. e.spec) es) ]

module _ (parse_type : Text → Text) (same : ProtoEqual) (lib : Library)
    (merge : AffiliateSpec → AffiliateSpec → AffiliateSpec) (raw merged : Store AffiliateSpec)
    (members : Store MemberSpec) where
  -- The three controllers of a machine, one after the other.
  abbrev pub discover_members :
      Session lib.Client
      → lib.Client
      → raw.State
      → merged.State
      → members.State
      → raw.State × merged.State × members.State
  discover_members s cl r m k =
      let r' = (discover parse_type same lib raw (s, cl) r).0.1 in
      let m' = (affiliates_round merge merged (read_all raw r') m).0 in
      (r', m', (members_round members (read_all merged m') k).0)
