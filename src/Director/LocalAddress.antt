-- ===== src/Director/LocalAddress.antt =====
-- The provider of local addresses: internal/pkg/machine/services/apid/pkg/director/local_address.go.
use talemu.Prelude.{
  Text, text_eq, Bool, true, false, ◌||◌, List, [], ◌∷◌, if◌then◌else◌, ◌≡◌, refl, arith,
}

-- LocalAddrProvider: the keys of its two maps.
pub record LocalAddrProvider : Type 0 where
  pub local_addresses : List Text
  pub local_hostnames : List Text

-- state.EventType
pub data EventType : Type 0 where
  created updated noop destroyed bootstrapped errored : EventType

-- The resources of the two watches: the addresses as text, or the hostname and the FQDN.
pub data Watched : Type 0 where
  node_address : List Text → Watched
  hostname_status : Text → Text → Watched

-- The assignments of handleEvent.
unfoldable pub learn : Watched → LocalAddrProvider → LocalAddrProvider
learn (node_address addresses) p = record p { local_addresses = addresses }
learn (hostname_status hostname fqdn) p = record p { local_hostnames = hostname ∷ fqdn ∷ [] }

-- handleEvent
unfoldable pub handle_event : EventType → Watched → LocalAddrProvider → LocalAddrProvider
handle_event created resource p = learn resource p
handle_event updated resource p = learn resource p
handle_event noop resource p = learn resource p
handle_event _ resource p = p

unfoldable pub has_key : Text → List Text → Bool
has_key t [] = false
has_key t (x ∷ xs) = text_eq x t || has_key t xs

-- IsLocalTarget
unfoldable pub is_local_target : LocalAddrProvider → Text → Bool
is_local_target p target = has_key target p.local_addresses || has_key target p.local_hostnames

-- The loop of Run over the events that arrive.
unfoldable pub handle_events : List (EventType × Watched) → LocalAddrProvider → LocalAddrProvider
handle_events [] p = p
handle_events ((kind, resource) ∷ events) p = handle_events events (handle_event kind resource p)

-- What the last event that counts said of a kind of resource.
abbrev counts : EventType → Bool
counts created = true
counts updated = true
counts noop = true
counts _ = false

abbrev pub last_addresses : List Text → List (EventType × Watched) → List Text
last_addresses a [] = a
last_addresses a ((kind, node_address addresses) ∷ events) =
    last_addresses (if counts kind then addresses else a) events
last_addresses a ((kind, hostname_status h f) ∷ events) = last_addresses a events

abbrev pub last_hostnames : List Text → List (EventType × Watched) → List Text
last_hostnames a [] = a
last_hostnames a ((kind, node_address addresses) ∷ events) = last_hostnames a events
last_hostnames a ((kind, hostname_status h f) ∷ events) =
    last_hostnames (if counts kind then h ∷ f ∷ [] else a) events

handle_event_lem :
    (kind : EventType) (resource : Watched) (p : LocalAddrProvider)
    → handle_event kind resource p ≡ (if counts kind then learn resource p else p)
unfolding handle_event
handle_event_lem created resource p = refl
handle_event_lem _ resource p = refl

-- After any events a target is local exactly if it is among the addresses of the last created,
-- updated or no-op address event, or is the hostname or the FQDN of the last such hostname event;
-- what was known before the first such event stays.
pub is_local_target-handle_events :
    (events : List (EventType × Watched)) (p : LocalAddrProvider) (target : Text)
    → is_local_target (handle_events events p) target ≡ (
        has_key target (last_addresses p.local_addresses events)
        || has_key target (last_hostnames p.local_hostnames events))
unfolding is_local_target handle_events learn
is_local_target-handle_events [] p target = refl
is_local_target-handle_events ((kind, node_address a) ∷ events) p target = ground (
  arith,
  handle_event_lem kind (node_address a) p,
  is_local_target-handle_events events p target,
  is_local_target-handle_events events (record p { local_addresses = a }) target,
)
is_local_target-handle_events ((kind, hostname_status h f) ∷ events) p target = ground (
  arith,
  handle_event_lem kind (hostname_status h f) p,
  is_local_target-handle_events events p target,
  is_local_target-handle_events events (record p { local_hostnames = h ∷ f ∷ [] }) target,
)
