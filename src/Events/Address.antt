-- ===== src/Events/Address.antt =====
-- The loop of Handler.Run that keeps the event sink on the machine's SideroLink address, and
-- siderolinkAddress, of internal/pkg/machine/events/events.go. The dial of startEventSink is a
-- dependency, and its outcome is part of what happens. Addresses are compared as texts, and none of
-- a resource is the zero address.
use talemu.Prelude.{
  Text, text_eq, text_eq_iff, has_prefix, Bool, true, false, List, [], ◌∷◌, ◌++◌, Option, none,
  some, if◌then◌else◌, ◌≡◌, refl, ap, ◌⊎◌, inl, inr, arith, Bool-cases, Option-cases,
}

-- network.AddressStatus, as far as it is read
pub record AddressStatus : Type 0 where
  pub link_name : Text
  pub address : Text

-- What the loop meets: an event of the watch, with the addresses that are then listed, `none` where
-- the list fails, and whether the sink starts if it is to start; or the end of the context or an
-- error of the watch.
pub data Step : Type 0 where
  changed : Option (List AddressStatus) → Bool → Step
  failed : Step

-- The variables of the loop: boundAddr, and the address and link of the sink that runs, if any.
pub record Watcher : Type 0 where
  pub bound : Option Text
  pub runner : Option (Text × Text)

unfoldable pub idle : Watcher
idle = record { bound = none; runner = none }

abbrev is_bound : Text → Option Text → Bool
is_bound addr none = false
is_bound addr (some b) = text_eq addr b

-- The round for an address that was found: the sink moves there unless it is bound there.
unfoldable pub move_sink : Text → Text → Bool → Watcher → Bool × Watcher
move_sink addr link starts k =
    if is_bound addr k.bound
    then (true, k)
    else (starts, record { bound = some addr; runner = if starts then some (addr, link) else none })

module _ (link_prefix : Text) where
  -- siderolinkAddress: the first whose link is a SideroLink one.
  unfoldable pub siderolink_address : List AddressStatus → Option (Text × Text)
  siderolink_address [] = none
  siderolink_address (a ∷ rest) =
      if has_prefix a.link_name link_prefix
      then some (a.address, a.link_name)
      else siderolink_address rest

  -- One round: whether the loop goes on. The deferred teardown is that of `watch`.
  unfoldable pub round : Step → Watcher → Bool × Watcher
  round failed k = (false, k)
  round (changed none starts) k = (false, k)
  round (changed (some addresses) starts) k = elim (siderolink_address addresses) [
    | none ↦ (true, k)
    | some (addr, link) ↦ move_sink addr link starts k
  ]

  -- The loop of Run: false once it returned, with the sink torn down.
  unfoldable pub watch : List Step → Watcher → Bool × Watcher
  watch [] k = (true, k)
  watch (e ∷ es) k =
      let (go, k') = round e k in
      let rest = watch es k' in if go then rest else (false, record k' { runner = none })

-- The sink runs on the bound address, and only there.
abbrev pub IsOn : Option Text → Watcher → Type 0
IsOn a k =
    (k.bound ≡ a)
    × (((a ≡ none) × (k.runner ≡ none))
        ⊎ ((addr : Text) × (link : Text) × (a ≡ some addr) × (k.runner ≡ some (addr, link))))

move_sink-IsOn :
    (addr link : Text) (starts : Bool) (a : Option Text) (k : Watcher)
    → IsOn a k
    → (move_sink addr link starts k).0 ≡ true
    → IsOn (some addr) (move_sink addr link starts k).1
unfolding move_sink
move_sink-IsOn addr link starts a k (e, inl (n, r)) h =
    (ground arith, inr (addr, link, refl, ground arith))
move_sink-IsOn addr link starts a k (e, inr (b, l, s, r)) h = elim (Bool-cases (text_eq addr b)) [
  | inl y ↦
      (ground (arith, text_eq_iff addr b), inr (addr, l, refl, ground (arith, text_eq_iff addr b)))
  | inr y ↦ (ground arith, inr (addr, link, refl, ground arith))
]

module _ (link_prefix : Text) where
  -- No link of the list has the prefix.
  abbrev pub Lacks : List AddressStatus → Type 0
  Lacks [] = Unit
  Lacks (a ∷ rest) = (has_prefix a.link_name link_prefix ≡ false) × Lacks rest

  -- The address is that of the first link of the list with the prefix.
  abbrev pub IsFirst : List AddressStatus → Text → Text → Type 0
  IsFirst addresses addr link =
      (before : List AddressStatus) × (a : AddressStatus) × (after : List AddressStatus)
      × (addresses ≡ before ++ a ∷ after)
      × Lacks before
      × (has_prefix a.link_name link_prefix ≡ true)
      × (a.address ≡ addr)
      × (a.link_name ≡ link)

  -- From `a`, the lists of the steps lead to `b`: each to the first address on a link with the
  -- prefix, and nowhere else where there is none.
  abbrev pub Follows : List Step → Option Text → Option Text → Type 0
  Follows [] a b = a ≡ b
  Follows (failed ∷ es) a b = ⊥
  Follows (changed none starts ∷ es) a b = ⊥
  Follows (changed (some addresses) starts ∷ es) a b =
      (Lacks addresses × Follows es a b)
      ⊎ ((addr : Text) × (link : Text) × IsFirst addresses addr link × Follows es (some addr) b)

  siderolink_address-Lacks :
      (addresses : List AddressStatus)
      → siderolink_address link_prefix addresses ≡ none
      → Lacks addresses
  unfolding siderolink_address
  siderolink_address-Lacks [] h = tt
  siderolink_address-Lacks (a ∷ rest) h = elim (Bool-cases (has_prefix a.link_name link_prefix)) [
    | inl e ↦ absurd (ground arith)
    | inr e ↦ (e, siderolink_address-Lacks rest (ground arith))
  ]

  siderolink_address-IsFirst :
      (addresses : List AddressStatus) (addr link : Text)
      → siderolink_address link_prefix addresses ≡ some (addr, link)
      → IsFirst addresses addr link
  unfolding siderolink_address
  siderolink_address-IsFirst [] addr link h = cc
  siderolink_address-IsFirst (a ∷ rest) addr link h =
      elim (Bool-cases (has_prefix a.link_name link_prefix)) [
        | inl e ↦ ([], a, rest, refl, tt, e, ground arith, ground arith)
        | inr e ↦
            let (before, b, after, split, lacks, has, same, named) =
              siderolink_address-IsFirst rest addr link (ground arith) in
            (a ∷ before, b, after, ap (λ t. a ∷ t) split, (e, lacks), has, same, named)
      ]

  round_missed :
      (addresses : List AddressStatus) (starts : Bool) (k : Watcher)
      → siderolink_address link_prefix addresses ≡ none
      → round link_prefix (changed (some addresses) starts) k ≡ (true, k)
  unfolding round
  round_missed addresses starts k n = ground arith

  round_failed :
      (starts : Bool) (k : Watcher)
      → (round link_prefix failed k ≡ (false, k))
        × (round link_prefix (changed none starts) k ≡ (false, k))
  unfolding round
  round_failed starts k = (refl, refl)

  round_found :
      (addresses : List AddressStatus) (starts : Bool) (k : Watcher) (addr link : Text)
      → siderolink_address link_prefix addresses ≡ some (addr, link)
      → round link_prefix (changed (some addresses) starts) k ≡ move_sink addr link starts k
  unfolding round
  round_found addresses starts k addr link n = ground arith

  -- From a sink on the address `a`, or none where that is none, as at the start: while the loop has
  -- not returned, the sink runs on the address where the listed addresses lead from `a`, each list
  -- to its first address on a link with the SideroLink prefix and a list without one nowhere else;
  -- once the loop returned, no sink runs.
  pub watch-IsOn :
      (es : List Step) (a : Option Text) (k : Watcher)
      → IsOn a k
      → ((watch link_prefix es k).0 ≡ true
          → (b : Option Text) × Follows es a b × IsOn b (watch link_prefix es k).1)
        × ((watch link_prefix es k).0 ≡ false → (watch link_prefix es k).1.runner ≡ none)
  unfolding watch
  watch-IsOn [] a k on = ((λ h. (a, refl, on)), (λ h. cc))
  watch-IsOn (failed ∷ es) a k on = rw ((round_failed true k).0) ((λ h. cc), (λ h. refl))
  watch-IsOn (changed none starts ∷ es) a k on =
      rw ((round_failed starts k).1) ((λ h. cc), (λ h. refl))
  watch-IsOn (changed (some addresses) starts ∷ es) a k on =
      elim (Option-cases (siderolink_address link_prefix addresses)) [
        | inl n ↦
            let later = watch-IsOn es a k on in
            rw (round_missed addresses starts k n) (
              (λ h.
                  let (b, follows, end) = later.0 h in
                  (b, inl (siderolink_address-Lacks addresses n, follows), end)),
              later.1,
            )
        | inr ((addr, link), n) ↦ elim (Bool-cases (move_sink addr link starts k).0) [
          | inl y ↦
              let later =
                watch-IsOn es (some addr) (move_sink addr link starts k).1
                  (move_sink-IsOn addr link starts a k on y) in
              rw (round_found addresses starts k addr link n, y)
                (
                  (λ h.
                      let (b, follows, end) = later.0 h in
                      (
                        b,
                        inr (addr, link, siderolink_address-IsFirst addresses addr link n, follows),
                        end,
                      )),
                  later.1,
                )
          | inr y ↦ rw (round_found addresses starts k addr link n, y) ((λ h. cc), (λ h. refl))
        ]
      ]
