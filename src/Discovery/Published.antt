-- ===== src/Discovery/Published.antt =====
-- Rounds of the discovery service controller whose reads succeed.
use talemu.Prelude.{
  Text, text_eq_iff, Bool, true, false, [], Option, none, some, ◌≡◌, refl, ap, ◌∙◌, ◌⊎◌, inl, inr,
  arith, Option-cases,
}
use talemu.Cosi.{ok, err, not_found}
use talemu.Outputs.{Entry, Store, reconcile, cleanup}
use talemu.Outputs.Reconcile.{expected, AreFree, IsStore, reconcile-expected, foreign, cleanup_lem}
use talemu.Affiliates.{AffiliateSpec}
use talemu.Discovery.{
  ProtoEqual, pb_affiliate, pb_endpoints, pb_other_endpoints, equal_endpoints,
  equal_other_endpoints,
}
use talemu.Discovery.Sessions.{
  DiscoveryConfig, Library, Session, Reads, cleanup_client, discovered, connect, is_changed,
  update_local, discover, exchange, disabled, discovery_round,
}
use talemu.Discovery.Equality.{IsProtoEqual, equal_endpoints_refl, equal_other_endpoints_refl}
use talemu.Discovery.Connecting.{
  Sent, IsLibrary, Found, sent_eq, at_config_lem, at_identity_lem, connect_lem, update_local_lem,
  discovery_round_lem, cleanup_client_lem, IsSound, IsCurrent, at_config, at_identity,
}

module _ (parse_type : Text → Text) (same : ProtoEqual) (tells : IsProtoEqual same) (lib : Library)
    (local : lib.Client → Option Sent) (store : Store AffiliateSpec) where
  -- What is left after a round: the client announces what was found, and the affiliates that it has
  -- discovered are resources.
  abbrev pub IsPublished :
      {reads : Reads}
      → (store.State → Text → Option (Entry AffiliateSpec))
      → Found reads
      → store.State
      → (Session lib.Client × store.State) × Bool
      → Type 0
  IsPublished view f out end =
      (end.1 ≡ true)
      × IsSound parse_type same tells lib local store end.0.0
      × IsCurrent parse_type same tells lib local store f end.0.0
      × ((c : lib.Client) × (end.0.0.client ≡ some c)
          × (local c
              ≡ some (record {
                affiliate = pb_affiliate f.spec;
                endpoints = pb_endpoints f.spec;
                others = pb_other_endpoints f.others;
              }))
          × ((i : Text)
              → view end.0.1 i ≡ expected (discovered parse_type same lib store c) (view out) i))

  -- Where every read succeeds, no call fails, the encryption key has one of the lengths of AES and
  -- the machine is not reset, a round ends without an error: the client announces the affiliate of
  -- the machine, its endpoints and the others found, whether it was connected before, to something
  -- else or not at all; and of the resources of this controller there are just those of the
  -- affiliates that the client has discovered.  This assumes that equality of messages tells them
  -- apart, that the client keeps the local data that it is given, that no other controller owns a
  -- resource of a discovered affiliate, and a session that rounds leave: where there is a client it
  -- runs, and its local data are those sent last.
  pub discovery_round-IsPublished :
      (view : store.State → Text → Option (Entry AffiliateSpec))
      → IsStore store view
      → IsLibrary lib local
      → (reads : Reads) (f : Found reads) (s : Session lib.Client) (out : store.State)
      → IsSound parse_type same tells lib local store s
      → ((c : lib.Client) → AreFree (discovered parse_type same lib store c) (view out))
      → IsPublished view f out (discovery_round parse_type same lib store reads s out)
  unfolding exchange discover
  discovery_round-IsPublished view laws works reads f s out h free =
      let (sound, v) = at_config_lem parse_type same tells lib local store reads f s h in
      let before =
        at_identity parse_type same tells lib local store f
          (at_config parse_type same tells lib local store f s) in
      let (t, c, e, ready) =
        connect_lem parse_type same tells lib local store works reads f before (
          at_identity_lem parse_type same tells lib local store reads f
            (at_config parse_type same tells lib local store f s) sound v) in
      let (t', c', e', (there, r, i, w, k), current) =
        update_local_lem parse_type same tells lib local store works reads f t c ready in
      let (done, left) =
        reconcile-expected store view laws (discovered parse_type same lib store c') out
          (free c') in
      let end = reconcile store (discovered parse_type same lib store c') out in
      let eq : exchange parse_type same lib store false f.config f.endpoint f.spec f.others before
            out
          ≡ ((t', end.0), end.1) =
        ground (arith, e, e') in
      rw (discovery_round_lem parse_type same tells lib local store reads f s out ∙ eq) (
        done,
        inr (c', there, r, k),
        current,
        (
          c',
          there,
          k (pb_affiliate f.spec) current.2
              ∙ sent_eq (pb_affiliate f.spec) t'.prev_endpoints (pb_endpoints f.spec) t'.prev_others
                  (pb_other_endpoints f.others) current.3 current.4,
          left,
        ),
      )

  -- Where every read succeeds, the key has one of the lengths of AES and the machine is not reset, a
  -- round that finds what a connected session announces already leaves the session as it is: the
  -- data are not sent again.  This assumes that equality of messages tells them apart.
  pub discovery_round-quiet :
      (reads : Reads) (f : Found reads) (s : Session lib.Client) (c : lib.Client)
      (out : store.State)
      → s.client ≡ some c
      → IsCurrent parse_type same tells lib local store f s
      → (discovery_round parse_type same lib store reads s out).0.0 ≡ s
  unfolding exchange connect update_local discover
  discovery_round-quiet reads f s c out e (v, i, d, es, os) =
      let a : at_config parse_type same tells lib local store f s ≡ s = ground (arith, v) in
      let b : at_identity parse_type same tells lib local store f s ≡ s =
        ground (arith, (text_eq_iff s.local_id f.local_id).1 i) in
      let unchanged : is_changed parse_type same lib store f.spec f.others s ≡ false = ground (
        arith,
        (tells.affiliate_iff (pb_affiliate f.spec) s.prev_data).1 d,
        ap (λ x. equal_endpoints same (pb_endpoints f.spec) x) es
            ∙ equal_endpoints_refl same tells (pb_endpoints f.spec),
        ap (λ x. equal_other_endpoints same (pb_other_endpoints f.others) x) os
            ∙ equal_other_endpoints_refl same tells (pb_other_endpoints f.others),
      ) in
      ap (λ x. x.0.0) (discovery_round_lem parse_type same tells lib local store reads f s out)
      ∙ ap
          (λ x.
            (exchange parse_type same lib store false f.config f.endpoint f.spec f.others x
              out).0.0)
          (ap (λ x. at_identity parse_type same tells lib local store f x) a ∙ b)
      ∙ ground (arith, e, unchanged)

  -- A round that finds no configuration, or one without an endpoint of the service, ends without an
  -- error where no call fails, leaves no client and no sent data to compare with, and leaves of the
  -- resources those of other controllers.  This assumes a session that rounds leave.
  pub discovery_round-disabled :
      (view : store.State → Text → Option (Entry AffiliateSpec))
      → IsStore store view
      → (reads : Reads) (s : Session lib.Client) (out : store.State)
      → IsSound parse_type same tells lib local store s
      → (reads.config ≡ err not_found)
        ⊎ ((c : DiscoveryConfig) × (reads.config ≡ ok c) × (c.endpoints ≡ []))
      → let end = discovery_round parse_type same lib store reads s out in
        (end.1 ≡ true)
        × (end.0.0.client ≡ none)
        × (end.0.0.prev_data ≡ none)
        × ((i : Text) → view end.0.1 i ≡ foreign (view out i))
  unfolding discovery_round disabled
  discovery_round-disabled view laws reads s out h off =
      let (done, left) = cleanup_lem store view laws [] out in
      let (gone, forgot) = cleanup_client_lem parse_type same tells lib local store s h in
      let out' = (cleanup store [] out).0 in
      let eq : discovery_round parse_type same lib store reads s out
          ≡ ((cleanup_client s, out'), true) =
        elim off [ inl n ↦ ground (arith, n, done) | inr (c, e, n) ↦ ground (arith, e, n, done) ] in
      rw eq (
        refl,
        gone,
        forgot,
        λ i. left i ∙ elim (Option-cases (view out i)) [
          | inl n ↦ ground (arith, n)
          | inr (x, n) ↦ ground (arith, n)
        ],
      )
