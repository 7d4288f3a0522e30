-- ===== src/Events.antt =====
-- The event sink of internal/pkg/machine/events/events.go: what generateEvents publishes for the
-- updates that its watch gives, and the retries around it. The client of the sink is a dependency:
-- whether it takes an event is an argument, and so is how each write of the sink's state fares, which the
-- other loops write too. Reads of the state answer.
pub mod Versions
pub mod Backoff
pub mod Address
use talemu.Prelude.{
  ℕ, ◌+◌, ◌-◌, ◌*◌, ◌%◌, ◌^◌, Text, text_eq, leb, Bool, true, false, not, ◌&&◌, List, [], ◌∷◌,
  Option, none, some, is_some, if◌then◌else◌,
}

-- A resource as the watch gives it. The kind is its type; the three services share one.
pub record Update : Type 0 where
  pub kind : Text
  pub id : Text
  pub version : ℕ
  pub payload : Text

-- talos.EventSinkState: the last version published of each type, uint64.
abbrev pub Versions : Type 0
Versions = List (Text × ℕ)

-- How StateUpdateWithConflicts fares with a changed state: each write that conflicts with one of
-- another loop is followed by an attempt that finds the versions as that one left them, and the last
-- write is stored or fails.
pub record Contention : Type 0 where
  pub conflicts : List Versions
  pub stored : Bool

-- A write that is stored at once.
abbrev pub alone : Contention
alone = record { conflicts = []; stored = true }

pub data WatchEvent : Type 0 where
  errored bootstrapped destroyed noop : WatchEvent
  created updated : Update → Contention → WatchEvent

unfoldable pub version_of : Versions → Text → Option ℕ
version_of [] kind = none
version_of ((k, n) ∷ vs) kind = if text_eq k kind then some n else version_of vs kind

unfoldable pub set_version : Text → ℕ → Versions → Versions
set_version kind n [] = (kind, n) ∷ []
set_version kind n ((k, m) ∷ vs) =
    let rest = set_version kind n vs in if text_eq k kind then (kind, n) ∷ vs else (k, m) ∷ rest

-- The sink's state, if it was created, and what the client took, newest first.
pub record Sink : Type 0 where
  pub versions : Option Versions
  pub published : List Update

-- Whether the callback makes an event of a resource, and whether the client takes it.
pub record Client : Type 0 where
  pub converts : Update → Bool
  pub takes : List Update → Update → Bool

-- The versions found, created empty where there are none.
unfoldable pub ensure_versions : Sink → Versions × Sink
ensure_versions k = elim k.versions [
  | some vs ↦ (vs, k)
  | none ↦ ([], record k { versions = some [] })
]

-- How many events before the watch are asked for: the difference of two uint64, as an int.
unfoldable pub backlog : Option Update → Versions → ℕ
backlog none vs = 0
backlog (some r) vs = elim (version_of vs r.kind) [
  | none ↦ r.version
  | some v ↦ (r.version + (2 ^ 64 - v)) % 2 ^ 64
]

-- `v, ok := Versions[kind]; ok && version <= v`
unfoldable pub is_published : Update → Versions → Bool
is_published r vs = elim (version_of vs r.kind) [ none ↦ false | some v ↦ leb r.version v ]

-- The attempts of StateUpdateWithConflicts for one resource, the callback of each run on the
-- versions that it found: false on an error.
unfoldable pub publish_from :
    Client → Update → Bool → List Versions → Versions → List Update → Bool × Sink
publish_from client r stored [] vs published =
    if is_published r vs
    then (true, record { versions = some vs; published = published })
    else if not (client.converts r && client.takes published r)
    then (false, record { versions = some vs; published = published })
    else if stored
    then (
      true,
      record { versions = some (set_version r.kind r.version vs); published = r ∷ published },
    )
    else (false, record { versions = some vs; published = r ∷ published })
publish_from client r stored (found ∷ conflicts) vs published =
    let rest = publish_from client r stored conflicts found (r ∷ published) in
    if is_published r vs
    then (true, record { versions = some vs; published = published })
    else if not (client.converts r && client.takes published r)
    then (false, record { versions = some vs; published = published })
    else rest

-- The update of the sink's state for one resource.
unfoldable pub publish : Client → Update → Contention → Sink → Bool × Sink
unfolding publish_from
publish client r c k = elim k.versions [
  | none ↦ (false, k)
  | some vs ↦ publish_from client r c.stored c.conflicts vs k.published
]

unfoldable pub handle : Client → WatchEvent → Sink → Bool × Sink
handle client errored k = (false, k)
handle client bootstrapped k = (true, k)
handle client destroyed k = (true, k)
handle client noop k = (true, k)
handle client (created r c) k = publish client r c k
handle client (updated r c) k = publish client r c k

-- The loop over the watch, which an error ends.
unfoldable pub consume : Client → List WatchEvent → Sink → Bool × Sink
consume client [] k = (true, k)
consume client (e ∷ es) k =
    let (go, k') = handle client e k in
    let rest = consume client es k' in if go then rest else (false, k')

-- generateEvents, on the events that its watch gives until the context ends.
unfoldable pub generate_events : Client → List WatchEvent → Sink → Bool × Sink
generate_events client es k = consume client es (ensure_versions k).1

-- One round of runWithRetries: whether the callback failed, whether the context ended during the
-- sleep, and what rand.Intn(10) drew.
pub record Attempt : Type 0 where
  pub failed : Bool
  pub ended : Bool
  pub drawn : ℕ

-- `min(backoff*2 + rand, 30s)`, in seconds
unfoldable pub next_backoff : ℕ → ℕ → ℕ
next_backoff n drawn = if leb (n * 2 + drawn) 30 then n * 2 + drawn else 30

-- The sleeps of runWithRetries.
unfoldable pub sleeps_from : ℕ → List Attempt → List ℕ
sleeps_from n [] = []
sleeps_from n (a ∷ rest) =
    let later = sleeps_from (next_backoff n a.drawn) rest in
    if not a.failed then [] else if a.ended then n ∷ [] else n ∷ later

unfoldable pub run_with_retries : List Attempt → List ℕ
run_with_retries = sleeps_from 1
