-- ===== src/Discovery/Sessions.antt =====
-- DiscoveryServiceController.Run of internal/pkg/machine/controllers/discovery_service.go: what a
-- round keeps of the client of the discovery service, and what it writes. The client is a
-- dependency, the record `Library`; the reads of a round are its argument.
use talemu.Prelude.{
  ℕ, Text, codes, text_eq, ◌==◌, Bool, true, false, not, ◌||◌, List, [], ◌∷◌, ◌++◌, map, length,
  Option, none, some, if◌then◌else◌,
}
use talemu.Cosi.{Outcome, ok, err, is_not_found}
use talemu.Outputs.{Store, cleanup, reconcile}
use talemu.Affiliates.{AffiliateSpec}
use talemu.Discovery.{
  PbAffiliate, PbEndpoint, OtherEndpoint, KubeSpanEndpoint, ProtoEqual, pb_affiliate, pb_endpoints,
  pb_other_endpoints, spec_affiliate, equal_endpoints, equal_other_endpoints,
}

-- cluster.ConfigSpec with the version of its resource
pub record ServiceEndpoint : Type 0 where
  pub endpoint : Text
  pub insecure : Bool

pub record DiscoveryConfig : Type 0 where
  pub version : ℕ
  pub endpoints : List ServiceEndpoint
  pub key : Text
  pub cluster_id : Text

-- discoveryclient.Options, without the lifetime and the version of the client, which are fixed
pub record Options : Type 0 where
  pub key : Text
  pub endpoint : Text
  pub cluster_id : Text
  pub affiliate_id : Text
  pub insecure : Bool

-- The client of the discovery service: NewClient, SetLocalData, DeleteLocalAffiliate, GetAffiliates.
-- None is an error.
pub record Library : Type 1 where
  pub Client : Type 0
  pub new : Options → Option Client
  pub set_local :
      PbAffiliate → Option (List PbEndpoint) → Option (List OtherEndpoint) → Client → Option Client
  pub delete_local : Client → Client
  pub affiliates : Client → List (PbAffiliate × Option (List PbEndpoint))

-- The fields of the controller and the variables of Run; `running` is that there is a function that
-- cancels the client.
pub record Session (C : Type 0) : Type 0 where
  pub config_version : Option ℕ
  pub local_id : Text
  pub running : Bool
  pub client : Option C
  pub prev_data : Option PbAffiliate
  pub prev_endpoints : Option (List PbEndpoint)
  pub prev_others : Option (List OtherEndpoint)

-- What a round reads, and whether the inputs can be updated.
pub record Reads : Type 0 where
  pub config : Outcome DiscoveryConfig
  pub identity : Outcome Text
  pub update_inputs : Text → Bool
  pub affiliate : Text → Outcome AffiliateSpec
  pub endpoints : Option (List KubeSpanEndpoint)
  pub reset_signal : Outcome (Unit {0})

-- cleanupClient
abbrev pub cleanup_client : {C : Type 0} → Session C → Session C
cleanup_client s =
    if s.running
    then record {
      config_version = s.config_version;
      local_id = s.local_id;
      running = false;
      client = none;
      prev_data = none;
      prev_endpoints = none;
      prev_others = none;
    }
    else s

-- The end of the client, with or without an error other than its cancellation.
abbrev pub client_ended : {C : Type 0} → Bool → Session C → Session C × Bool
client_ended failed s = (record s { running = false }, not failed)

-- Version.Equal, with the version that is not defined
abbrev pub is_version : ℕ → Option ℕ → Bool
is_version v none = false
is_version v (some w) = v == w

-- aes.NewCipher
abbrev pub is_key : Text → Bool
is_key k = (length k == 16) || (length k == 24) || (length k == 32)

-- `service/%s`
abbrev pub service_id : Text → Text
service_id i = codes "service/" ++ i

module _ (parse_type : Text → Text) (same : ProtoEqual) (lib : Library)
    (store : Store AffiliateSpec) where
  abbrev pub Round : Type 0
  Round = (Session lib.Client × store.State) × Bool

  -- The affiliates that the client has discovered, with the IDs of their resources.
  abbrev pub discovered : lib.Client → List (Text × AffiliateSpec)
  discovered c =
      map (λ a. (service_id a.0.node_id, spec_affiliate parse_type a.0 a.1)) (lib.affiliates c)

  -- Run: `if client == nil`
  unfoldable pub connect :
      DiscoveryConfig
      → ServiceEndpoint
      → Session lib.Client
      → Option (Session lib.Client × lib.Client)
  connect c e s = elim s.client [
    | some cl ↦ some (s, cl)
    | none ↦
        if is_key c.key
        then elim (lib.new (record {
          key = c.key;
          endpoint = e.endpoint;
          cluster_id = c.cluster_id;
          affiliate_id = s.local_id;
          insecure = e.insecure;
        })) [
          | none ↦ none
          | some cl ↦
              some
                (record s { client = some cl; running = true; config_version = some c.version }, cl)
        ]
        else none
  ]

  -- Run: the local data differ from those that were sent.
  abbrev pub is_changed : AffiliateSpec → List KubeSpanEndpoint → Session lib.Client → Bool
  is_changed a others s =
      not (same.affiliate (pb_affiliate a) s.prev_data)
      || not (equal_endpoints same (pb_endpoints a) s.prev_endpoints)
      || not (equal_other_endpoints same (pb_other_endpoints others) s.prev_others)

  -- Run: delete or update the local affiliate.
  unfoldable pub update_local :
      (is_reset : Bool)
      → AffiliateSpec
      → List KubeSpanEndpoint
      → Session lib.Client × lib.Client
      → Option (Session lib.Client × lib.Client)
  update_local true a others (s, cl) =
      some (record s { client = some (lib.delete_local cl) }, lib.delete_local cl)
  update_local false a others (s, cl) =
      if is_changed a others s
      then elim (lib.set_local (pb_affiliate a) (pb_endpoints a) (pb_other_endpoints others) cl) [
        | none ↦ none
        | some cl' ↦ some (
          record {
            config_version = s.config_version;
            local_id = s.local_id;
            running = s.running;
            client = some cl';
            prev_data = some (pb_affiliate a);
            prev_endpoints = pb_endpoints a;
            prev_others = pb_other_endpoints others;
          },
          cl',
        )
      ]
      else some (s, cl)

  -- Run: discover other nodes.
  unfoldable pub discover : Session lib.Client × lib.Client → store.State → Round
  discover (s, cl) out = let (out', done) = reconcile store (discovered cl) out in ((s, out'), done)

  -- Run: from the client on
  unfoldable pub exchange :
      (is_reset : Bool)
      → DiscoveryConfig
      → ServiceEndpoint
      → AffiliateSpec
      → List KubeSpanEndpoint
      → Session lib.Client
      → store.State
      → Round
  unfolding connect update_local discover
  exchange is_reset c e a others s out = elim (connect c e s) [
    | none ↦ ((s, out), false)
    | some (s', cl) ↦ elim (update_local is_reset a others (s', cl)) [
      | none ↦ ((s', out), false)
      | some r ↦ discover r out
    ]
  ]

  -- Run: the reads of the local affiliate, the endpoints and the reset signal
  unfoldable pub publish :
      Reads → DiscoveryConfig → ServiceEndpoint → Session lib.Client → store.State → Round
  unfolding exchange
  publish reads c e s out = elim (reads.affiliate s.local_id) [
    | err x ↦ ((s, out), is_not_found x)
    | ok a ↦ elim reads.endpoints [
      | none ↦ ((s, out), false)
      | some others ↦ elim reads.reset_signal [
        | ok u ↦ exchange true c e a others s out
        | err x ↦ if is_not_found x then exchange false c e a others s out else ((s, out), false)
      ]
    ]
  ]

  -- Run: the local identity
  unfoldable pub identify :
      Reads → DiscoveryConfig → ServiceEndpoint → Session lib.Client → store.State → Round
  unfolding publish
  identify reads c e s out = elim reads.identity [
    | err x ↦ ((s, out), is_not_found x)
    | ok i ↦
        if text_eq s.local_id i
        then publish reads c e s out
        else if reads.update_inputs i
        then publish reads c e (cleanup_client (record s { local_id = i })) out
        else ((record s { local_id = i }, out), false)
  ]

  -- Run: discovery is disabled.
  unfoldable pub disabled : Session lib.Client → store.State → Round
  disabled s out =
      let (out', done) = cleanup store [] out in
      ((if done then cleanup_client s else s, out'), done)

  -- Run: one round. False is an error.
  unfoldable pub discovery_round : Reads → Session lib.Client → store.State → Round
  unfolding identify disabled
  discovery_round reads s out = elim reads.config [
    | err x ↦ if is_not_found x then disabled s out else ((s, out), false)
    | ok c ↦ elim c.endpoints [
      | [] ↦ disabled s out
      | e ∷ es ↦
          identify reads c e (if is_version c.version s.config_version then s else cleanup_client s)
            out
    ]
  ]
