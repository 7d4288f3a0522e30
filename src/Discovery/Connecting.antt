-- ===== src/Discovery/Connecting.antt =====
-- The session of a round up to where the client has the local data.
use talemu.Prelude.{
  ℕ, Text, text_eq, text_eq_iff, Bool, true, false, List, ◌∷◌, Option, none, some, if◌then◌else◌,
  ◌≡◌, refl, ap, sym, ◌∙◌, ◌⊎◌, inl, inr, arith, Bool-cases,
}
use talemu.Cosi.{ok, err, not_found}
use talemu.Outputs.{Store}
use talemu.Affiliates.{AffiliateSpec}
use talemu.Discovery.{
  PbAffiliate, PbEndpoint, OtherEndpoint, KubeSpanEndpoint, ProtoEqual, pb_affiliate, pb_endpoints,
  pb_other_endpoints,
}
use talemu.Discovery.Sessions.{
  ServiceEndpoint, DiscoveryConfig, Options, Library, Session, Reads, cleanup_client, is_version,
  is_key, connect, is_changed, update_local, exchange, publish, identify, discovery_round,
}
use talemu.Discovery.Equality.{IsProtoEqual, equal_endpoints_eq, equal_other_endpoints_eq}

-- The local data: what is announced of the machine.
pub record Sent : Type 0 where
  pub affiliate : PbAffiliate
  pub endpoints : Option (List PbEndpoint)
  pub others : Option (List OtherEndpoint)

-- What the documentation of the client promises, where no call fails: a client is built, and its
-- local data are those that were set last.
pub record IsLibrary (lib : Library) (local : lib.Client → Option Sent) : Type 0 where
  pub builds : (o : Options) → (c : lib.Client) × (lib.new o ≡ some c)
  pub sets :
      (d : PbAffiliate) (es : Option (List PbEndpoint)) (os : Option (List OtherEndpoint))
      (c : lib.Client)
      → (c' : lib.Client) × (lib.set_local d es os c ≡ some c')
        × (local c' ≡ some (record { affiliate = d; endpoints = es; others = os }))

by_test :
    {A : Type 0} (P : A → Type 0) (b : Bool) (x y : A)
    → (b ≡ true → P x)
    → (b ≡ false → P y)
    → P (if b then x else y)
by_test P true x y f g = f refl
by_test P false x y f g = g refl

pub sent_eq :
    (a : PbAffiliate) (es es' : Option (List PbEndpoint)) (os os' : Option (List OtherEndpoint))
    → es ≡ es'
    → os ≡ os'
    → ◌≡◌ {A = Option Sent}
        (some (record { affiliate = a; endpoints = es; others = os }))
        (some (record { affiliate = a; endpoints = es'; others = os' }))
sent_eq a es es' os os' e f = cc

-- What a round finds where every read succeeds and the machine is not reset.
pub record Found (reads : Reads) : Type 0 where
  pub config : DiscoveryConfig
  pub endpoint : ServiceEndpoint
  pub more : List ServiceEndpoint
  pub local_id : Text
  pub spec : AffiliateSpec
  pub others : List KubeSpanEndpoint
  pub config_read : reads.config ≡ ok config
  pub is_enabled : config.endpoints ≡ endpoint ∷ more
  pub has_key : is_key config.key ≡ true
  pub identity_read : reads.identity ≡ ok local_id
  pub inputs_updated : reads.update_inputs local_id ≡ true
  pub affiliate_read : reads.affiliate local_id ≡ ok spec
  pub others_read : reads.endpoints ≡ some others
  pub no_reset : reads.reset_signal ≡ err not_found

module _ (parse_type : Text → Text) (same : ProtoEqual) (tells : IsProtoEqual same) (lib : Library)
    (local : lib.Client → Option Sent) (store : Store AffiliateSpec) where
  -- There is a client only where it runs, and the data that were sent last are its local data.
  abbrev pub IsSound : Session lib.Client → Type 0
  IsSound s =
      ((s.client ≡ none) × (s.prev_data ≡ none))
      ⊎ ((c : lib.Client) × (s.client ≡ some c)
          × (s.running ≡ true)
          × ((d : PbAffiliate)
              → s.prev_data ≡ some d
              → local c
                ≡ some (record {
                  affiliate = d;
                  endpoints = s.prev_endpoints;
                  others = s.prev_others;
                })))

  -- The session announces what was found.
  abbrev pub IsCurrent : {reads : Reads} → Found reads → Session lib.Client → Type 0
  IsCurrent f s =
      (s.config_version ≡ some f.config.version)
      × (s.local_id ≡ f.local_id)
      × (s.prev_data ≡ some (pb_affiliate f.spec))
      × (s.prev_endpoints ≡ pb_endpoints f.spec)
      × (s.prev_others ≡ pb_other_endpoints f.others)

  abbrev pub at_config : {reads : Reads} → Found reads → Session lib.Client → Session lib.Client
  at_config f s = if is_version f.config.version s.config_version then s else cleanup_client s

  abbrev pub at_identity : {reads : Reads} → Found reads → Session lib.Client → Session lib.Client
  at_identity f s =
      if text_eq s.local_id f.local_id
      then s
      else cleanup_client (record s { local_id = f.local_id })

  publish_lem :
      (reads : Reads) (f : Found reads) (s : Session lib.Client) (out : store.State)
      → s.local_id ≡ f.local_id
      → publish parse_type same lib store reads f.config f.endpoint s out
        ≡ exchange parse_type same lib store false f.config f.endpoint f.spec f.others s out
  unfolding publish
  publish_lem reads f s out h =
      let a : reads.affiliate s.local_id ≡ ok f.spec =
        ap (λ i. reads.affiliate i) h ∙ f.affiliate_read in
      ground (arith, a, f.others_read, f.no_reset)

  local_id-cleanup_client : (s : Session lib.Client) → (cleanup_client s).local_id ≡ s.local_id
  local_id-cleanup_client s = ground arith

  identify_lem :
      (reads : Reads) (f : Found reads) (s : Session lib.Client) (out : store.State)
      → identify parse_type same lib store reads f.config f.endpoint s out
        ≡ exchange parse_type same lib store false f.config f.endpoint f.spec f.others
            (at_identity f s)
            out
  unfolding identify
  identify_lem reads f s out = elim (Bool-cases (text_eq s.local_id f.local_id)) [
    | inl y ↦ ground (
      arith,
      f.identity_read,
      publish_lem reads f s out ((text_eq_iff s.local_id f.local_id).0 y),
    )
    | inr y ↦
        let moved : Session lib.Client = record s { local_id = f.local_id } in
        ground (
          arith,
          f.identity_read,
          f.inputs_updated,
          publish_lem reads f (cleanup_client moved) out (local_id-cleanup_client moved),
        )
  ]

  pub discovery_round_lem :
      (reads : Reads) (f : Found reads) (s : Session lib.Client) (out : store.State)
      → discovery_round parse_type same lib store reads s out
        ≡ exchange parse_type same lib store false f.config f.endpoint f.spec f.others
            (at_identity f (at_config f s))
            out
  unfolding discovery_round
  discovery_round_lem reads f s out =
      let eq : discovery_round parse_type same lib store reads s out
          ≡ identify parse_type same lib store reads f.config f.endpoint (at_config f s) out =
        ground (arith, f.config_read, f.is_enabled) in
      eq ∙ identify_lem reads f (at_config f s) out

  pub cleanup_client_lem :
      (s : Session lib.Client)
      → IsSound s
      → ((cleanup_client s).client ≡ none) × ((cleanup_client s).prev_data ≡ none)
  cleanup_client_lem s h = elim h [
    | inl (c, p) ↦ (ground arith, ground arith)
    | inr (c, e, r, k) ↦ (ground arith, ground arith)
  ]

  -- The session before the client is used: what it is connected to is what was found.
  abbrev IsSettled : {reads : Reads} → Found reads → Session lib.Client → Type 0
  IsSettled f s =
      IsSound s
      × (s.local_id ≡ f.local_id)
      × ((s.client ≡ none) ⊎ (s.config_version ≡ some f.config.version))

  is_version_lem : (v : ℕ) (o : Option ℕ) → is_version v o ≡ true → o ≡ some v
  is_version_lem v none h = cc
  is_version_lem v (some w) h = ap (λ n. some n) (ground arith)

  pub at_config_lem :
      (reads : Reads) (f : Found reads) (s : Session lib.Client)
      → IsSound s
      → let t = at_config f s in
        IsSound t × ((t.client ≡ none) ⊎ (t.config_version ≡ some f.config.version))
  at_config_lem reads f s h =
      by_test (λ t. IsSound t × ((t.client ≡ none) ⊎ (t.config_version ≡ some f.config.version)))
        (is_version f.config.version s.config_version) s (cleanup_client s)
        (λ e. (h, inr (is_version_lem f.config.version s.config_version e)))
        (λ e. (inl (cleanup_client_lem s h), inl (cleanup_client_lem s h).0))

  pub at_identity_lem :
      (reads : Reads) (f : Found reads) (s : Session lib.Client)
      → IsSound s
      → ((s.client ≡ none) ⊎ (s.config_version ≡ some f.config.version))
      → IsSettled f (at_identity f s)
  at_identity_lem reads f s h v =
      let moved : Session lib.Client = record s { local_id = f.local_id } in
      by_test (IsSettled f) (text_eq s.local_id f.local_id) s (cleanup_client moved)
        (λ e. (h, (text_eq_iff s.local_id f.local_id).0 e, v))
        (λ e. let c = cleanup_client_lem moved h in (inl c, local_id-cleanup_client moved, inl c.0))

  -- The client is there, and what was sent last are its local data.
  abbrev IsReady : {reads : Reads} → Found reads → Session lib.Client → lib.Client → Type 0
  IsReady f s c =
      (s.client ≡ some c)
      × (s.running ≡ true)
      × (s.local_id ≡ f.local_id)
      × (s.config_version ≡ some f.config.version)
      × ((d : PbAffiliate)
          → s.prev_data ≡ some d
          → local c
            ≡ some (record { affiliate = d; endpoints = s.prev_endpoints; others = s.prev_others }))

  pub connect_lem :
      (works : IsLibrary lib local) (reads : Reads) (f : Found reads) (s : Session lib.Client)
      → IsSettled f s
      → (t : Session lib.Client) × (c : lib.Client) × (connect parse_type same lib store f.config
            f.endpoint s
          ≡ some (t, c))
        × IsReady f t c
  unfolding connect
  connect_lem works reads f s (sound, i, v) = elim sound [
    | inl (n, p) ↦
        let (c, built) = works.builds (record {
          key = f.config.key;
          endpoint = f.endpoint.endpoint;
          cluster_id = f.config.cluster_id;
          affiliate_id = s.local_id;
          insecure = f.endpoint.insecure;
        }) in
        (
          record s { client = some c; running = true; config_version = some f.config.version },
          c,
          ground (arith, n, built, f.has_key),
          (refl, refl, i, refl, λ d e. cc),
        )
    | inr (c, e, r, k) ↦ (s, c, ground (arith, e), (e, r, i, elim v [ inl n ↦ cc | inr w ↦ w ], k))
  ]

  pub update_local_lem :
      (works : IsLibrary lib local) (reads : Reads) (f : Found reads) (s : Session lib.Client)
      (c : lib.Client)
      → IsReady f s c
      → (t : Session lib.Client) × (c' : lib.Client) × (update_local parse_type same lib store false
            f.spec f.others
            (s, c)
          ≡ some (t, c'))
        × IsReady f t c'
        × IsCurrent f t
  unfolding update_local
  update_local_lem works reads f s c (e, r, i, v, k) =
      elim (Bool-cases (is_changed parse_type same lib store f.spec f.others s)) [
        | inl y ↦
            let (c', done, now) =
              works.sets (pb_affiliate f.spec) (pb_endpoints f.spec) (pb_other_endpoints f.others)
                c in
            (
              record {
                config_version = s.config_version;
                local_id = s.local_id;
                running = s.running;
                client = some c';
                prev_data = some (pb_affiliate f.spec);
                prev_endpoints = pb_endpoints f.spec;
                prev_others = pb_other_endpoints f.others;
              },
              c',
              ground (arith, y, done),
              (refl, r, i, v, λ d p. cc),
              (v, i, refl, refl, refl),
            )
        | inr y ↦ (
          s,
          c,
          ground (arith, y),
          (e, r, i, v, k),
          (
            v,
            i,
            (tells.affiliate_iff (pb_affiliate f.spec) s.prev_data).0 (ground arith),
            sym (
                equal_endpoints_eq same tells (pb_endpoints f.spec) s.prev_endpoints
                  (ground arith)),
            sym (
                equal_other_endpoints_eq same tells (pb_other_endpoints f.others) s.prev_others
                  (ground arith)),
          ),
        )
      ]
