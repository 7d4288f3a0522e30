-- ===== src/Events/Versions.antt =====
-- Which updates generateEvents publishes.
use talemu.Prelude.{
  ℕ, zero, suc, length, ◌<◌, Text, text_eq, text_eq_refl, text_eq_iff, ltb, Bool, true, false, not,
  ◌&&◌, ◌||◌, List, [], ◌∷◌, none, some, if◌then◌else◌, ◌≡◌, refl, ap, ◌∙◌, ◌⊎◌, inl, inr, arith,
  Bool-cases,
}
use talemu.Events.{
  Update, Contention, alone, WatchEvent, errored, bootstrapped, destroyed, noop, created, updated,
  Versions, version_of, set_version, Sink, Client, ensure_versions, is_published, publish_from,
  publish, handle, consume, generate_events,
}

-- No update of the type `kind` in the list has the version `n` or a later one.
unfoldable pub all_below : Text → ℕ → List Update → Bool
all_below kind n [] = true
all_below kind n (r ∷ rs) = (not (text_eq r.kind kind) || ltb r.version n) && all_below kind n rs

-- The versions of each type only grow, from the last of the list, the oldest, on.
unfoldable pub is_growing : List Update → Bool
is_growing [] = true
is_growing (r ∷ rs) = all_below r.kind r.version rs && is_growing rs

-- Each update of the list has a version recorded for its type, and not an earlier one.
unfoldable pub recorded : Versions → List Update → Bool
recorded vs [] = true
recorded vs (r ∷ rs) = is_published r vs && recorded vs rs

version_of-set_version :
    (kind : Text) (n : ℕ) (vs : Versions) (other : Text)
    → version_of (set_version kind n vs) other
      ≡ (if text_eq kind other then some n else version_of vs other)
unfolding version_of set_version
version_of-set_version kind n [] other = refl
version_of-set_version kind n ((k, m) ∷ vs) other = ground (
  arith,
  version_of-set_version kind n vs other,
  text_eq_iff k kind,
  text_eq_iff k other,
  text_eq_iff kind other,
)

-- An update that is recorded stands below any that is not, of the same type.
recorded-below :
    (vs : Versions) (r : Update) (rs : List Update)
    → is_published r vs ≡ false
    → recorded vs rs ≡ true
    → all_below r.kind r.version rs ≡ true
unfolding recorded all_below is_published
recorded-below vs r [] h k = refl
recorded-below vs r (q ∷ rs) h k = ground (arith, recorded-below vs r rs, text_eq_iff q.kind r.kind)

recorded-set :
    (vs : Versions) (r : Update) (rs : List Update)
    → is_published r vs ≡ false
    → recorded vs rs ≡ true
    → recorded (set_version r.kind r.version vs) rs ≡ true
unfolding recorded is_published
recorded-set vs r [] h k = refl
recorded-set vs r (q ∷ rs) h k = ground (
  arith,
  recorded-set vs r rs,
  version_of-set_version r.kind r.version vs q.kind,
  text_eq_iff r.kind q.kind,
)

recorded_self :
    (r : Update) (vs : Versions) → is_published r (set_version r.kind r.version vs) ≡ true
unfolding is_published
recorded_self r vs =
    ground (arith, version_of-set_version r.kind r.version vs r.kind, text_eq_refl r.kind)

-- What the sink keeps: the versions published of each type grow, and the last is recorded.
abbrev pub IsOrdered : Sink → Type 0
IsOrdered k =
    (vs : Versions) × (k.versions ≡ some vs)
    × (recorded vs k.published ≡ true)
    × (is_growing k.published ≡ true)

publish_from-IsOrdered :
    (client : Client) (r : Update) (vs : Versions) (published : List Update)
    → recorded vs published ≡ true
    → is_growing published ≡ true
    → IsOrdered (publish_from client r true [] vs published).1
unfolding publish_from is_growing recorded
publish_from-IsOrdered client r vs published h g = elim (Bool-cases (is_published r vs)) [
  | inl y ↦ (vs, ground arith, ground arith, ground arith)
  | inr y ↦ elim (Bool-cases (client.converts r && client.takes published r)) [
    | inl z ↦ (
      set_version r.kind r.version vs,
      ground arith,
      ground (arith, recorded-set vs r published, recorded_self r vs),
      ground (arith, recorded-below vs r published),
    )
    | inr z ↦ (vs, ground arith, ground arith, ground arith)
  ]
]

-- Nothing else writes the sink's state, and the write is stored.
abbrev pub IsCalm : Contention → Type 0
IsCalm c = (c.conflicts ≡ []) × (c.stored ≡ true)

abbrev pub AreCalm : List WatchEvent → Type 0
AreCalm [] = Unit
AreCalm (created r c ∷ es) = IsCalm c × AreCalm es
AreCalm (updated r c ∷ es) = IsCalm c × AreCalm es
AreCalm (_ ∷ es) = AreCalm es

publish-IsOrdered :
    (client : Client) (r : Update) (c : Contention) (k : Sink)
    → IsCalm c
    → IsOrdered k
    → IsOrdered (publish client r c k).1
unfolding publish
publish-IsOrdered client r c k (none_lost, stored) (vs, e, h, g) =
    rw (e, none_lost, stored) (publish_from-IsOrdered client r vs k.published h g)

if-IsOrdered :
    (b : Bool) (x y : Bool × Sink)
    → IsOrdered x.1
    → IsOrdered y.1
    → IsOrdered (if b then x else y).1
if-IsOrdered true x y h k = h
if-IsOrdered false x y h k = k

handle-IsOrdered :
    (client : Client) (e : WatchEvent) (k : Sink)
    → AreCalm (e ∷ [])
    → IsOrdered k
    → IsOrdered (handle client e k).1
unfolding handle
handle-IsOrdered client errored k calm h = h
handle-IsOrdered client bootstrapped k calm h = h
handle-IsOrdered client destroyed k calm h = h
handle-IsOrdered client noop k calm h = h
handle-IsOrdered client (created r c) k calm h = publish-IsOrdered client r c k calm.0 h
handle-IsOrdered client (updated r c) k calm h = publish-IsOrdered client r c k calm.0 h

AreCalm-cons :
    (e : WatchEvent) (es : List WatchEvent) → AreCalm (e ∷ es) → AreCalm (e ∷ []) × AreCalm es
AreCalm-cons errored es h = (tt, h)
AreCalm-cons bootstrapped es h = (tt, h)
AreCalm-cons destroyed es h = (tt, h)
AreCalm-cons noop es h = (tt, h)
AreCalm-cons (created r c) es h = ((h.0, tt), h.1)
AreCalm-cons (updated r c) es h = ((h.0, tt), h.1)

consume-IsOrdered :
    (client : Client) (es : List WatchEvent) (k : Sink)
    → AreCalm es
    → IsOrdered k
    → IsOrdered (consume client es k).1
unfolding consume
consume-IsOrdered client [] k calm h = h
consume-IsOrdered client (e ∷ es) k calm h =
    let (now, later) = AreCalm-cons e es calm in
    let h' = handle-IsOrdered client e k now h in
    if-IsOrdered _ _ _ (consume-IsOrdered client es (handle client e k).1 later h') h'

-- A sink that has published nothing, or one whose published versions are in order.
abbrev pub IsStarted : Sink → Type 0
IsStarted k = ((k.versions ≡ none) × (k.published ≡ [])) ⊎ IsOrdered k

ensure_versions-IsOrdered : (k : Sink) → IsStarted k → IsOrdered (ensure_versions k).1
unfolding ensure_versions recorded is_growing
ensure_versions-IsOrdered k (inl (e, p)) = ([], ground arith, ground arith, ground arith)
ensure_versions-IsOrdered k (inr (vs, e, h, g)) = (vs, ground arith, ground arith, ground arith)

-- While no other loop writes the sink's state and each write of it is stored, whatever the watch
-- gives and wherever the conversion or the client fails, each run of generateEvents publishes, of
-- each type of resource, versions that only grow, also across runs: no version of a resource is
-- published twice, and none after a later one. A sink that starts anew or was left by such a run is
-- started.
pub generate_events-IsOrdered :
    (client : Client) (es : List WatchEvent) (k : Sink)
    → AreCalm es
    → IsStarted k
    → IsOrdered (generate_events client es k).1
unfolding generate_events
generate_events-IsOrdered client es k calm h =
    consume-IsOrdered client es _ calm (ensure_versions-IsOrdered k h)

-- A client that takes every event.
abbrev pub taking : Client
taking = record { converts = λ _. true; takes = λ _ _. true }

-- The updates of one type, each with a later version than the one before.
unfoldable pub ascends : Text → ℕ → List Update → Bool
ascends kind low [] = true
ascends kind low (r ∷ rs) = text_eq r.kind kind && ltb low r.version && ascends kind r.version rs

unfoldable pub updates : List Update → List WatchEvent
updates [] = []
updates (r ∷ rs) = updated r alone ∷ updates rs

-- The updates on top of those published before, the last one first.
unfoldable pub push : List Update → List Update → List Update
push [] published = published
push (r ∷ rs) published = push rs (r ∷ published)

publish_fresh :
    (r : Update) (vs : Versions) (published : List Update) (low : ℕ)
    → version_of vs r.kind ≡ some low
    → low < r.version
    → publish taking r alone (record { versions = some vs; published = published }) ≡ (
      true,
      record { versions = some (set_version r.kind r.version vs); published = r ∷ published },
    )
unfolding publish publish_from is_published
publish_fresh r vs published low h k = ground arith

-- With a client that takes every event and writes of the sink's state that are stored at once, the
-- updates of one type that come in the order of their versions, all above the version recorded for
-- the type, are all published, in that order, and the run goes on.
pub generate_events_complete :
    (rs : List Update) (kind : Text) (low : ℕ) (vs : Versions) (published : List Update)
    → version_of vs kind ≡ some low
    → ascends kind low rs ≡ true
    → let (go, k) =
        generate_events taking
          (updates rs)
          (record { versions = some vs; published = published }) in
      (go ≡ true) × (k.published ≡ push rs published)
unfolding generate_events ensure_versions consume updates push ascends handle
generate_events_complete [] kind low vs published h a = (refl, refl)
generate_events_complete (r ∷ rs) kind low vs published h a =
    let same : r.kind ≡ kind = ground (arith, text_eq_iff r.kind kind) in
    let first = publish_fresh r vs published low (ap (version_of vs) same ∙ h) (ground arith) in
    let now : version_of (set_version r.kind r.version vs) kind ≡ some r.version =
      ground (arith, version_of-set_version r.kind r.version vs kind, text_eq_iff r.kind kind) in
    rw first (
      generate_events_complete rs kind r.version (set_version r.kind r.version vs) (r ∷ published)
        now (ground arith))

-- None of the versions records the update, or a later one of its type.
abbrev pub AreBehind : Update → List Versions → Type 0
AreBehind r [] = Unit
AreBehind r (vs ∷ found) = (is_published r vs ≡ false) × AreBehind r found

-- The last of the versions found.
abbrev pub last_found : Versions → List Versions → Versions
last_found vs [] = vs
last_found vs (next ∷ found) = last_found next found

-- The update sent so many more times.
abbrev pub sent_again : ℕ → Update → List Update → List Update
sent_again zero r published = published
sent_again (suc n) r published = sent_again n r (r ∷ published)

publish_from-sent_again :
    (r : Update) (conflicts : List Versions) (vs : Versions) (published : List Update)
    → AreBehind r (vs ∷ conflicts)
    → publish_from taking r true conflicts vs published ≡ (
      true,
      record {
        versions = some (set_version r.kind r.version (last_found vs conflicts));
        published = sent_again (suc (length conflicts)) r published;
      },
    )
unfolding publish_from
publish_from-sent_again r [] vs published (h, behind) = ground arith
publish_from-sent_again r (found ∷ conflicts) vs published (h, behind) =
    rw h (publish_from-sent_again r conflicts found (r ∷ published) behind)

-- An update is sent inside the callback that a conflict runs again: with a client that takes every
-- event, an update that no version found by an attempt covers is sent once for each attempt, one
-- more than the writes that conflicted, and its version is recorded on top of what the last attempt
-- found.
pub generate_events-sent_again :
    (r : Update) (conflicts : List Versions) (vs : Versions) (published : List Update)
    → AreBehind r (vs ∷ conflicts)
    → generate_events taking
        (updated r (record { conflicts = conflicts; stored = true }) ∷ [])
        (record { versions = some vs; published = published })
      ≡ (
        true,
        record {
          versions = some (set_version r.kind r.version (last_found vs conflicts));
          published = sent_again (suc (length conflicts)) r published;
        },
      )
unfolding generate_events ensure_versions consume handle publish
generate_events-sent_again r conflicts vs published behind =
    rw (publish_from-sent_again r conflicts vs published behind) refl
