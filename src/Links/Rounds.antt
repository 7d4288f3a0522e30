-- ===== src/Links/Rounds.antt =====
-- A round of the controller over all specs.
use talemu.Cosi.{Phase}
use talemu.Prelude.{
  Text, text_eq, text_eq_sym, true, false, List, [], ◌∷◌, none, some, ◌≡◌, ◌≢◌, refl, sym, ap, ◌∙◌,
  ◌⊎◌, inl, inr, arith,
}
use talemu.Wireguard.Encode.{IsSound}
use talemu.Links.{
  LinkMessage, LinkSpec, Kernel, Talos, find_link, sync_link, sync_links, add_finalizers, run_round,
}
use talemu.Links.Kernels.{IsWorking}
use talemu.Links.Settle.{attempt_lem}
use talemu.Links.Sync.{HasLink, IsWireguard, sync_link_lem}

-- No spec of the list has the name.
abbrev pub AreApart : Text → List LinkSpec → Type 0
AreApart n [] = Unit
AreApart n (x ∷ xs) = (text_eq x.name n ≡ false) × AreApart n xs

abbrev pub AreDistinct : List LinkSpec → Type 0
AreDistinct [] = Unit
AreDistinct (x ∷ xs) = AreApart x.name xs × AreDistinct xs

-- Running specs of WireGuard links, whose links have a kind where they exist.
abbrev pub AreWireguard : Talos → List LinkMessage → List LinkSpec → Type 0
AreWireguard talos now [] = Unit
AreWireguard talos now (x ∷ xs) =
    (x.phase ≡ Phase.running)
    × IsWireguard talos x
    × ((m : LinkMessage) → find_link x.name now ≡ some m → m.info ≢ none)
    × AreWireguard talos now xs

abbrev pub HaveLinks : List LinkSpec → List LinkMessage → Type 0
HaveLinks [] now = Unit
HaveLinks (x ∷ xs) now = HasLink x now × HaveLinks xs now

-- The list of the links shows those of the specs as they are.
abbrev Agree : List LinkSpec → List LinkMessage → List LinkMessage → Type 0
Agree [] links now = Unit
Agree (x ∷ xs) links now = (find_link x.name links ≡ find_link x.name now) × Agree xs links now

phase_cases : (p : Phase) → (p ≡ Phase.running) ⊎ (p ≡ Phase.tearing_down)
phase_cases Phase.running = inl refl
phase_cases Phase.tearing_down = inr refl

Agree-refl : (xs : List LinkSpec) (now : List LinkMessage) → Agree xs now now
Agree-refl [] now = tt
Agree-refl (x ∷ xs) now = (refl, Agree-refl xs now)

Agree-apart :
    (n : Text) (xs : List LinkSpec) (links now links' now' : List LinkMessage)
    → AreApart n xs
    → ((o : Text)
        → text_eq n o ≡ false
        → find_link o links ≡ find_link o now
        → find_link o links' ≡ find_link o now')
    → Agree xs links now
    → Agree xs links' now'
Agree-apart n [] links now links' now' a f h = tt
Agree-apart n (x ∷ xs) links now links' now' a f h =
    (f x.name (text_eq_sym x.name n a.0) h.0, Agree-apart n xs links now links' now' a.1 f h.1)

AreWireguard-apart :
    (talos : Talos) (n : Text) (xs : List LinkSpec) (now now' : List LinkMessage)
    → AreApart n xs
    → ((o : Text) → text_eq n o ≡ false → find_link o now' ≡ find_link o now)
    → AreWireguard talos now xs
    → AreWireguard talos now' xs
AreWireguard-apart talos n [] now now' a f h = tt
AreWireguard-apart talos n (x ∷ xs) now now' a f (r, w, i, h) = (
  r,
  w,
  λ m e. i m (sym (f x.name (text_eq_sym x.name n a.0)) ∙ e),
  AreWireguard-apart talos n xs now now' a.1 f h,
)

module _ (k : Kernel) (talos : Talos) (view : k.State → List LinkMessage)
    (works : IsWorking k talos view) (sound : IsSound talos.codec) where
  sync_links_lem :
      (specs : List LinkSpec) (s : k.State) (links : List LinkMessage)
      → AreDistinct specs
      → AreWireguard talos (view s) specs
      → Agree specs links (view s)
      → let o = sync_links k talos specs links s in
        (o.succeeded ≡ true)
        × HaveLinks specs (view o.state)
        × ((n : Text) → AreApart n specs → find_link n (view o.state) ≡ find_link n (view s))
  unfolding sync_links
  sync_links_lem [] s links d w a = (refl, tt, λ n h. refl)
  sync_links_lem (x ∷ xs) s links d (r, w, i, ws) a =
      let first = sync_link k talos x links s in
      let b = sync_link_lem k talos view works sound s x links r w a.0 i in
      let (ok, have, frame) =
        sync_links_lem xs first.state first.links d.1
          (AreWireguard-apart talos x.name xs (view s) (view first.state) d.0 b.others ws)
          (Agree-apart x.name xs links (view s) first.links (view first.state) d.0 b.agrees a.1) in
      (
        ground (arith, b.succeeds),
        (
          record {
            link = b.has.link;
            found = frame x.name d.0 ∙ b.has.found;
            same_type = b.has.same_type;
            same_kind = b.has.same_kind;
            same_up = b.has.same_up;
            same_mtu = b.has.same_mtu;
          },
          have,
        ),
        λ n h. frame n h.1 ∙ b.others n h.0,
      )

  add_finalizers_lem :
      (specs : List LinkSpec) (s : k.State)
      → ((add_finalizers k talos specs s).1 ≡ true)
        × (view (add_finalizers k talos specs s).0 ≡ view s)
  unfolding add_finalizers
  add_finalizers_lem [] s = (refl, refl)
  add_finalizers_lem (x ∷ xs) s = elim (phase_cases x.phase) [
    | inl e ↦
        let a = works.adds s x.id in
        let (ok, same) = add_finalizers_lem xs (k.add_finalizer x.id s).0 in
        let eq : add_finalizers k talos (x ∷ xs) s
            ≡ add_finalizers k talos xs (k.add_finalizer x.id s).0 =
          ground (
            arith,
            e,
            attempt_lem k talos view works (k.add_finalizer x.id s) (add_finalizers k talos xs) a.0,
          ) in
        rw eq (ok, same ∙ a.1)
    | inr e ↦
        let eq : add_finalizers k talos (x ∷ xs) s ≡ add_finalizers k talos xs s =
          ground (arith, e) in
        rw eq (add_finalizers_lem xs s)
  ]

  -- Where no call of the kernel fails and the comparison of peers is sound, a round over running
  -- specs of logical WireGuard links ends without an error, and then the kernel has, for each spec, a
  -- link with its name, its type and its kind, which is up if and only if the spec is, and has its
  -- MTU where that is not zero.  Links that no spec names stay as they were.  This assumes that the names of
  -- the specs are distinct, that Encode takes their settings, and that the links of their names that
  -- exist have a kind.
  pub run_round-HaveLinks :
      (specs : List LinkSpec) (s : k.State)
      → AreDistinct specs
      → AreWireguard talos (view s) specs
      → let end = run_round k talos specs s in
        (end.1 ≡ true)
        × HaveLinks specs (view end.0)
        × ((n : Text) → AreApart n specs → find_link n (view end.0) ≡ find_link n (view s))
  unfolding run_round
  run_round-HaveLinks specs s d ws =
      let held = add_finalizers k talos specs s in
      let (ok, same) = add_finalizers_lem specs s in
      let (fine, have, frame) =
        sync_links_lem specs held.0 (view held.0) d (rw same ws) (Agree-refl specs (view held.0)) in
      let o = sync_links k talos specs (view held.0) held.0 in
      let eq : run_round k talos specs s ≡ (o.state, o.succeeded) =
        ground (arith, ok, works.lists held.0) in
      rw eq (fine, have, λ n h. frame n h ∙ ap (find_link n) same)
