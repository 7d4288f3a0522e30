-- ===== src/Scenarios/Access.antt =====
-- Routing, roles and tokens.
use talemu.Prelude.{
  ℕ, some, none, Text, codes, text_eq, has_prefix, true, false, ◌≡◌, ◌≢◌, refl, inl, arith, List,
  [], ◌∷◌, Option, is_some, if◌then◌else◌,
}
use talemu.Metadata.{Metadata, lookup}
use talemu.Director.{
  Router, one_to_one, one_to_many, route, is_cosi, director, connect_all, aggregate_director,
  single_director, proxy_switch, proxy_director,
}
use talemu.Director.Routes.{Connects, aggregated_targets}
use talemu.Director.LocalAddress.{
  LocalAddrProvider, handle_events, is_local_target, has_key, last_addresses, last_hostnames,
  is_local_target-handle_events,
}
use talemu.Director.LocalAddress
use talemu.Authz.{Roles, Network, Peer, Context, is_siderolink_peer, enabled, Authorizer}
use talemu.Authz
use talemu.Authz.Access.{call, call_enabled}
use talemu.Token
use talemu.Token.{
  new_token_credentials, get_request_metadata, intercept, intercept-get_request_metadata,
  intercept_without_token,
}

-- A router to backends that are named by the first byte of their address; 0 is this node.
abbrev router : Router ℕ
router = record {
  local_backend = 0;
  connect = λ t. elim t [ [] ↦ none | x ∷ xs ↦ some x ];
  is_local_target = λ t. false;
  node_proxying_disabled = false;
}

abbrev to_two : Metadata
to_two = (codes "nodes", (1 ∷ []) ∷ (2 ∷ []) ∷ []) ∷ []

abbrev to_one : Metadata
to_one = (codes "node", (1 ∷ []) ∷ []) ∷ []

abbrev forwarded : Metadata
forwarded = (codes "proxyfrom", [] ∷ []) ∷ to_two

abbrev version_method : Text
version_method = codes "/machine.MachineService/Version"

to_two-route : director router (some to_two) version_method ≡ route one_to_many (1 ∷ 2 ∷ [])
unfolding director proxy_director proxy_switch aggregate_director connect_all lookup text_eq
    has_prefix
to_two-route = refl

to_one-route : director router (some to_one) version_method ≡ route one_to_one (1 ∷ [])
unfolding director proxy_director proxy_switch single_director lookup text_eq has_prefix
to_one-route = refl

one_not_local : 1 ≢ router.local_backend
one_not_local h = ground arith

aggregated_targets_example :
    (nodes : List Text) × (lookup (codes "nodes") to_two ≡ some nodes)
    × Connects router nodes (1 ∷ 2 ∷ [])
    × (router.node_proxying_disabled ≡ true
        → (nodes ≢ []) × ((t : Text) → nodes ≡ t ∷ [] → router.is_local_target t ≡ true))
aggregated_targets_example =
    aggregated_targets router to_two version_method (1 ∷ 2 ∷ []) to_two-route

forwarded_already : is_some (lookup (codes "proxyfrom") forwarded) ≡ true
unfolding lookup text_eq
forwarded_already = refl

list_is_cosi : is_cosi (codes "/cosi.resource.State/List") ≡ true
unfolding has_prefix
list_is_cosi = refl

-- Sets of roles as lists of names.
abbrev role_lists : Roles
role_lists = record {
  Set = List Text;
  includes_any = λ a b. LocalAddress.has_key (codes "os:admin") b;
  is_impersonator = λ s. LocalAddress.has_key (codes "os:impersonator") s;
  parse = λ s. s;
  all_roles = codes "os:admin" ∷ [];
  zero_roles = [];
  admin_roles = codes "os:admin" ∷ [];
  reader_roles = codes "os:reader" ∷ [];
}

-- Every address is from elsewhere.
abbrev elsewhere : Network
elsewhere = record {
  Addr = Text;
  host_of = λ t. some t;
  parse_addr = λ t. some t;
  is_siderolink_ula = λ a. false;
}

abbrev reader_peer : Peer
reader_peer = record {
  address = codes "10.0.0.1";
  certificates = some ((codes "os:reader" ∷ []) ∷ []);
}

abbrev reader_call : Context role_lists
reader_call = record { roles = none; metadata = none; peer = some reader_peer }

not_impersonator : has_key (codes "os:impersonator") (codes "os:reader" ∷ []) ≡ false
unfolding has_key text_eq
not_impersonator = refl

abbrev reboot_method : Text
reboot_method = codes "/machine.MachineService/Reboot"

-- Two rules, the second for the method of the call.
abbrev authorizer : Authorizer role_lists
authorizer = record {
  rules = (reboot_method, codes "os:admin" ∷ []) ∷ (version_method, codes "os:reader" ∷ []) ∷ [];
  fallback_roles = codes "os:admin" ∷ [];
}

abbrev answer : Context role_lists → Option ℕ
answer ctx = some 1

other_method : text_eq reboot_method version_method ≡ false
unfolding text_eq
other_method = refl

call_enabled_example : call elsewhere authorizer version_method enabled answer reader_call ≡ (
    if has_key (codes "os:admin") (codes "os:reader" ∷ [])
    then some (Authz.handled 1)
    else some Authz.not_authorized)
call_enabled_example =
    call_enabled elsewhere authorizer version_method answer reader_call reader_peer
      (codes "os:reader" ∷ []) [] (codes "os:reader" ∷ []) refl refl refl not_impersonator
      (inl ((reboot_method, codes "os:admin" ∷ []) ∷ [], [], refl, (other_method, tt)))

intercept-get_request_metadata_example :
    intercept
      (new_token_credentials (codes "a"))
      is_some
      (get_request_metadata (new_token_credentials (codes "a")))
    ≡ Token.handled (is_some (get_request_metadata (new_token_credentials (codes "a"))))
intercept-get_request_metadata_example =
    (intercept-get_request_metadata (codes "a") (codes "a") is_some).0 refl

abbrev renamed : List (LocalAddress.EventType × LocalAddress.Watched)
renamed =
    (LocalAddress.updated, LocalAddress.hostname_status (codes "node-1") (codes "node-1.local"))
    ∷ (LocalAddress.destroyed, LocalAddress.node_address [])
    ∷ []

abbrev unknown : LocalAddrProvider
unknown = record { local_addresses = codes "10.0.0.2" ∷ []; local_hostnames = [] }
