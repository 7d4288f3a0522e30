-- ===== src/Outputs/Reconcile.antt =====
-- What a controller leaves of its resources.
use talemu.Prelude.{
  Text, text_eq, text_eq_iff, text_eq_refl, Bool, true, false, not, ◌&&◌, List, [], ◌∷◌, map,
  Option, none, some, if◌then◌else◌, ◌≡◌, refl, ap, sym, ◌∙◌, ◌⊎◌, inl, inr, arith, Bool-cases,
  Option-cases,
}
use talemu.Outputs.{
  Entry, Store, is_touched, attempt, write_all, destroy_untouched, cleanup, reconcile,
}

module _ {A : Type 0} where
  abbrev pub find_entry : Text → List (Entry A) → Option (Entry A)
  find_entry i [] = none
  find_entry i (e ∷ es) = let rest = find_entry i es in if text_eq e.id i then some e else rest

  abbrev pub AreDistinct : List (Entry A) → Type 0
  AreDistinct [] = Unit
  AreDistinct (e ∷ es) = (find_entry e.id es ≡ none) × AreDistinct es

  -- Nothing is there, or a resource of the controller.
  abbrev pub IsFree : Option (Entry A) → Type 0
  IsFree o = (o ≡ none) ⊎ ((e : Entry A) × (o ≡ some e) × (e.mine ≡ true))

  abbrev pub owned : Text → A → Entry A
  owned i v = record { id = i; mine = true; spec = v }

  -- The last of the values wanted under an ID.
  abbrev pub last_wanted : Text → List (Text × A) → Option A
  last_wanted j [] = none
  last_wanted j (d ∷ ds) = elim (last_wanted j ds) [
    | some v ↦ some v
    | none ↦ if text_eq d.0 j then some d.1 else none
  ]

  -- What is left where nothing is wanted: the resources of others.
  abbrev pub foreign : Option (Entry A) → Option (Entry A)
  foreign none = none
  foreign (some e) = if e.mine then none else some e

  -- What a controller should leave under an ID.
  abbrev pub expected : List (Text × A) → (Text → Option (Entry A)) → Text → Option (Entry A)
  expected wanted now j = elim (last_wanted j wanted) [
    | some v ↦ some (owned j v)
    | none ↦ foreign (now j)
  ]

-- What the documentation of the runtime promises where no call fails: the list shows what is there,
-- and a controller may write and destroy what is free or its own.
pub record IsStore {A : Type 0} (store : Store A) (view : store.State → Text → Option (Entry A))
    : Type 0 where
  pub lists :
      (s : store.State)
      → (es : List (Entry A)) × (store.list s ≡ some es)
        × AreDistinct es
        × ((i : Text) → find_entry i es ≡ view s i)
  pub writes :
      (s : store.State) (i : Text) (v : A)
      → IsFree (view s i)
      → ((store.write i v s).1 ≡ true)
        × ((j : Text)
            → view (store.write i v s).0 j ≡ (if text_eq i j then some (owned i v) else view s j))
  pub destroys :
      (s : store.State) (e : Entry A)
      → view s e.id ≡ some e
      → e.mine ≡ true
      → ((store.destroy e.id s).1 ≡ true)
        × ((j : Text)
            → view (store.destroy e.id s).0 j ≡ (if text_eq e.id j then none else view s j))

module _ {A : Type 0} where
  pub find_entry_id :
      (i : Text) (es : List (Entry A)) (e : Entry A) → find_entry i es ≡ some e → e.id ≡ i
  find_entry_id i [] e h = cc
  find_entry_id i (x ∷ xs) e h = elim (Bool-cases (text_eq x.id i)) [
    | inl y ↦ ground (arith, (text_eq_iff x.id i).0 y)
    | inr y ↦ find_entry_id i xs e (ground arith)
  ]

  -- In a list of distinct entries the tail does not have the ID of the head.
  pub find_entry_tail :
      (i : Text) (x e : Entry A) (xs : List (Entry A))
      → find_entry x.id xs ≡ none
      → find_entry i xs ≡ some e
      → text_eq x.id i ≡ false
  find_entry_tail i x e xs h f = elim (Bool-cases (text_eq x.id i)) [
    | inl y ↦ ground (arith, ap (λ t. find_entry t xs) ((text_eq_iff x.id i).0 y))
    | inr y ↦ y
  ]

  abbrev pub AreFree : List (Text × A) → (Text → Option (Entry A)) → Type 0
  AreFree [] now = Unit
  AreFree (d ∷ ds) now = IsFree (now d.0) × AreFree ds now

  -- A write leaves free what was free.
  AreFree-write :
      (i : Text) (v : A) (ds : List (Text × A)) (now now' : Text → Option (Entry A))
      → ((j : Text) → now' j ≡ (if text_eq i j then some (owned i v) else now j))
      → AreFree ds now
      → AreFree ds now'
  AreFree-write i v [] now now' h f = tt
  AreFree-write i v (d ∷ ds) now now' h (f, fs) = (
    elim (Bool-cases (text_eq i d.0)) [
      | inl y ↦ inr (owned i v, ground (arith, h d.0), refl)
      | inr y ↦ elim f [
        | inl n ↦ inl (ground (arith, h d.0))
        | inr (e, n, m) ↦ inr (e, ground (arith, h d.0), m)
      ]
    ],
    AreFree-write i v ds now now' h fs,
  )

module _ {A : Type 0} (store : Store A) (view : store.State → Text → Option (Entry A))
    (works : IsStore store view) where
  attempt_lem :
      (r : store.State × Bool) (rest : store.State → store.State × Bool)
      → r.1 ≡ true
      → attempt store r rest ≡ rest r.0
  attempt_lem (s, true) rest h = refl
  attempt_lem (s, false) rest h = cc

  write_all_lem :
      (ds : List (Text × A)) (s : store.State)
      → AreFree ds (view s)
      → let end = write_all store ds s in
        (end.1 ≡ true)
        × ((j : Text)
            → view end.0 j
              ≡ elim (last_wanted j ds) [ some v ↦ some (owned j v) | none ↦ view s j ])
  unfolding write_all
  write_all_lem [] s f = (refl, λ j. refl)
  write_all_lem (d ∷ ds) s f =
      let (done, now) = works.writes s d.0 d.1 f.0 in
      let t = (store.write d.0 d.1 s).0 in
      let (ok, rest) = write_all_lem ds t (AreFree-write d.0 d.1 ds (view s) (view t) now f.1) in
      rw (attempt_lem (store.write d.0 d.1 s) (write_all store ds) done) (
        ok,
        λ j. rest j ∙ elim (Bool-cases (text_eq d.0 j)) [
          | inl y ↦ ground (arith, now j, ap (λ i. some (owned i d.1)) ((text_eq_iff d.0 j).0 y))
          | inr y ↦ ground (arith, now j)
        ],
      )

  -- The listed resources are there.
  abbrev Shows : List (Entry A) → store.State → Type 0
  Shows es s = (i : Text) (e : Entry A) → find_entry i es ≡ some e → view s i ≡ some e

  -- What the loop that destroys leaves of an entry.
  abbrev pub kept : List Text → Text → Option (Entry A) → Option (Entry A) → Option (Entry A)
  kept touched j none now = now
  kept touched j (some e) now = if e.mine && not (is_touched j touched) then none else now

  destroy_untouched_lem :
      (touched : List Text) (es : List (Entry A)) (s : store.State)
      → AreDistinct es
      → Shows es s
      → let end = destroy_untouched store touched es s in
        (end.1 ≡ true) × ((j : Text) → view end.0 j ≡ kept touched j (find_entry j es) (view s j))
  unfolding destroy_untouched
  destroy_untouched_lem touched [] s d h = (refl, λ j. refl)
  destroy_untouched_lem touched (e ∷ es) s d h =
      elim (Bool-cases (e.mine && not (is_touched e.id touched))) [
        | inl y ↦
            let shown = h e.id e (ground (arith, text_eq_refl e.id)) in
            let (done, now) = works.destroys s e shown (ground arith) in
            let t = (store.destroy e.id s).0 in
            let (ok, rest) =
              destroy_untouched_lem touched es t d.1
                (λ i f k. ground (arith, now i, find_entry_tail i e f es d.0 k, h i f)) in
            let eq : destroy_untouched store touched (e ∷ es) s
                ≡ destroy_untouched store touched es t =
              ground (
                arith,
                attempt_lem (store.destroy e.id s) (destroy_untouched store touched es) done,
              ) in
            rw eq (
              ok,
              λ j. rest j ∙ elim (Bool-cases (text_eq e.id j)) [
                | inl z ↦
                    let q = (text_eq_iff e.id j).0 z in
                    ground
                      (arith, now j, ap (λ i. find_entry i es) q, ap (λ i. is_touched i touched) q)
                | inr z ↦ ground (arith, now j)
              ],
            )
        | inr y ↦
            let (ok, rest) =
              destroy_untouched_lem touched es s d.1
                (λ i f k. ground (arith, find_entry_tail i e f es d.0 k, h i f)) in
            let eq : destroy_untouched store touched (e ∷ es) s
                ≡ destroy_untouched store touched es s =
              ground arith in
            rw eq (
              ok,
              λ j. rest j ∙ elim (Bool-cases (text_eq e.id j)) [
                | inl z ↦
                    let q = (text_eq_iff e.id j).0 z in
                    ground (arith, ap (λ i. find_entry i es) q, ap (λ i. is_touched i touched) q)
                | inr z ↦ ground arith
              ],
            )
      ]

  pub cleanup_lem :
      (touched : List Text) (s : store.State)
      → let end = cleanup store touched s in
        (end.1 ≡ true) × ((j : Text) → view end.0 j ≡ kept touched j (view s j) (view s j))
  unfolding cleanup
  cleanup_lem touched s =
      let (es, l, d, shown) = works.lists s in
      let (ok, rest) = destroy_untouched_lem touched es s d (λ i e f. sym (shown i) ∙ f) in
      let eq : cleanup store touched s ≡ destroy_untouched store touched es s = ground (arith, l) in
      rw eq (ok, λ j. rest j ∙ ap (λ o. kept touched j o (view s j)) (shown j))

  is_touched_wanted :
      (j : Text) (ds : List (Text × A))
      → is_touched j (map (λ d. d.0) ds) ≡ elim (last_wanted j ds) [ some v ↦ true | none ↦ false ]
  is_touched_wanted j [] = refl
  is_touched_wanted j (d ∷ ds) = ground (arith, is_touched_wanted j ds)

  -- Where no call fails, a reconciliation ends without an error, and leaves under every ID what is
  -- expected: the last of the values wanted under it, and where none is wanted the resource of
  -- another controller, if there is one.  This assumes that no resource of another controller has
  -- an ID that is wanted.
  pub reconcile-expected :
      (wanted : List (Text × A)) (s : store.State)
      → AreFree wanted (view s)
      → let end = reconcile store wanted s in
        (end.1 ≡ true) × ((j : Text) → view end.0 j ≡ expected wanted (view s) j)
  unfolding reconcile
  reconcile-expected wanted s f =
      let t = (write_all store wanted s).0 in
      let (done, written) = write_all_lem wanted s f in
      let (ok, left) = cleanup_lem (map (λ d. d.0) wanted) t in
      let eq : reconcile store wanted s ≡ cleanup store (map (λ d. d.0) wanted) t =
        attempt_lem (write_all store wanted s) (cleanup store (map (λ d. d.0) wanted)) done in
      rw eq (
        ok,
        λ j. left j ∙ elim (Option-cases (last_wanted j wanted)) [
          | inl n ↦ elim (Option-cases (view s j)) [
            | inl z ↦ ground (arith, written j, is_touched_wanted j wanted)
            | inr (e, z) ↦ ground (arith, written j, is_touched_wanted j wanted)
          ]
          | inr (v, n) ↦ ground (arith, written j, is_touched_wanted j wanted)
        ],
      )
