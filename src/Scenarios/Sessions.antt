-- ===== src/Scenarios/Sessions.antt =====
-- Rounds of the discovery service controller.
use native.Mathlib.Decide.{ℕ_discrete}
use talemu.Prelude.{codes, Bool, true, false, [], ◌∷◌, Option, none, some, ◌≡◌, ◌↔◌, refl, inl, ap}
use talemu.Cosi.{ok, err, not_found}
use talemu.Affiliates.{AffiliateSpec}
use talemu.Discovery.{
  pb_other_endpoints, PbEndpoint, PbAffiliate, ProtoEqual, pb_affiliate, pb_endpoints,
}
use talemu.Discovery.Equality.{IsProtoEqual}
use talemu.Discovery.Sessions.{
  DiscoveryConfig, ServiceEndpoint, Library, Session, Reads, discovery_round,
}
use talemu.Discovery.Connecting.{Sent, IsLibrary, Found}
use talemu.Discovery.Published.{IsPublished, discovery_round-IsPublished, discovery_round-quiet}
use talemu.Scenarios.Stores.{listed, shown, listed-IsStore}
use talemu.Scenarios.Affiliates.{spanned}

PbEndpoint-discrete : Discrete PbEndpoint
PbEndpoint-discrete = hlevel ℕ_discrete

PbAffiliate-discrete : Discrete PbAffiliate
PbAffiliate-discrete = hlevel ℕ_discrete

abbrev decided : {P : Type 0} → Dec P → Bool
decided (yes p) = true
decided (no p) = false

decided_iff : {P : Type 0} (d : Dec P) → (decided d ≡ true) ↔ P
decided_iff (yes p) = (λ h. p, λ q. refl)
decided_iff (no n) = (λ h. cc, λ q. absurd (n q))

abbrev affiliate_or : PbAffiliate → Option PbAffiliate → PbAffiliate
affiliate_or a none = a
affiliate_or a (some b) = b

abbrev same : ProtoEqual
same = record {
  endpoint = λ a b. decided (PbEndpoint-discrete a b);
  affiliate = λ a o. elim o [ none ↦ false | some b ↦ decided (PbAffiliate-discrete b a) ];
}

affiliate_same :
    (a : PbAffiliate) (o : Option PbAffiliate) → (same.affiliate a o ≡ true) ↔ (o ≡ some a)
affiliate_same a none = (λ h. cc, λ e. cc)
affiliate_same a (some b) =
    let both = decided_iff (PbAffiliate-discrete b a) in
    (λ h. ap (λ x. some x) (both.0 h), λ e. both.1 (ap (λ o. affiliate_or a o) e))

same-IsProtoEqual : IsProtoEqual same
same-IsProtoEqual = record {
  endpoint_iff = λ a b. decided_iff (PbEndpoint-discrete a b);
  affiliate_iff = affiliate_same;
}

abbrev neighbour : PbAffiliate
neighbour = record {
  node_id = codes "n2";
  addresses = (10 ∷ 0 ∷ 0 ∷ 2 ∷ []) ∷ [];
  hostname = codes "worker-2";
  nodename = codes "worker-2";
  machine_type = codes "worker";
  operating_system = codes "Talos (v1.11.0)";
  kube_span = none;
  control_plane = none;
}

-- A client that keeps its local data, and has discovered one neighbour.
abbrev library : Library
library = record {
  Client = Option Sent;
  new = λ o. some none;
  set_local = λ d es os c. some (some (record { affiliate = d; endpoints = es; others = os }));
  delete_local = λ c. none;
  affiliates = λ c. (neighbour, none) ∷ [];
}

library-IsLibrary : IsLibrary library (λ c. c)
library-IsLibrary = record {
  builds = λ o. (none, refl);
  sets = λ d es os c. (some (record { affiliate = d; endpoints = es; others = os }), refl, refl);
}

abbrev service : ServiceEndpoint
service = record { endpoint = codes "discovery.talos.dev:443"; insecure = false }

abbrev discovery_config : DiscoveryConfig
discovery_config = record {
  version = 3;
  endpoints = service ∷ [];
  key = codes "0123456789abcdef";
  cluster_id = codes "cluster";
}

abbrev reads : Reads
reads = record {
  config = ok discovery_config;
  identity = ok (codes "n1");
  update_inputs = λ i. true;
  affiliate = λ i. ok spanned;
  endpoints = some [];
  reset_signal = err not_found;
}

abbrev found : Found reads
found = record {
  config = discovery_config;
  endpoint = service;
  more = [];
  local_id = codes "n1";
  spec = spanned;
  others = [];
  config_read = refl;
  is_enabled = refl;
  has_key = refl;
  identity_read = refl;
  inputs_updated = refl;
  affiliate_read = refl;
  others_read = refl;
  no_reset = refl;
}

-- Before the first round, and after it.
abbrev initial : Session (Option Sent)
initial = record {
  config_version = none;
  local_id = [];
  running = false;
  client = none;
  prev_data = none;
  prev_endpoints = none;
  prev_others = none;
}

abbrev connected_sent : Option Sent
connected_sent =
    some
      (record { affiliate = pb_affiliate spanned; endpoints = pb_endpoints spanned; others = none })

abbrev connected : Session (Option Sent)
connected = record {
  config_version = some 3;
  local_id = codes "n1";
  running = true;
  client = some (
      some (record {
        affiliate = pb_affiliate spanned;
        endpoints = pb_endpoints spanned;
        others = none;
      }));
  prev_data = some (pb_affiliate spanned);
  prev_endpoints = pb_endpoints spanned;
  prev_others = none;
}

discovery_round-IsPublished_example :
    IsPublished
      (λ t. t)
      same
      same-IsProtoEqual
      library
      (λ c. c)
      (listed AffiliateSpec)
      (shown AffiliateSpec)
      found
      []
      (discovery_round (λ t. t) same library (listed AffiliateSpec) reads initial [])
discovery_round-IsPublished_example =
    discovery_round-IsPublished (λ t. t) same same-IsProtoEqual library (λ c. c)
      (listed AffiliateSpec) (shown AffiliateSpec) (listed-IsStore AffiliateSpec) library-IsLibrary
      reads found initial [] (inl (refl, refl)) (λ c. (inl refl, tt))

discovery_round-quiet_example :
    (discovery_round (λ t. t) same library (listed AffiliateSpec) reads connected []).0.0
    ≡ connected
unfolding pb_other_endpoints
discovery_round-quiet_example =
    discovery_round-quiet (λ t. t) same same-IsProtoEqual library (λ c. c) (listed AffiliateSpec)
      reads found connected connected_sent [] refl (refl, refl, refl, refl, refl)
