-- ===== src/Cosi.antt =====
-- The resource state of the COSI runtime (github.com/cosi-project/runtime, package state), on which
-- every component of the emulator stands. The runtime is a dependency: it enters as the record
-- `State` of operations, and what its documentation promises as the record `IsState` of laws.
-- A state is seen one resource type at a time: `Coll A` holds the resources of one type and
-- namespace, whose specs are of type `A`, under their IDs.
pub mod InMemory
pub mod Laws
use mathlib.Core.List.{Perm}
use talemu.Prelude.{ℕ, Text, text_eq, Bool, true, false, List, ◌∷◌, ◌≡◌, if◌then◌else◌, ◌⊎◌}

-- The classes of error that the program tells apart: state.IsNotFoundError, IsConflictError,
-- IsPhaseConflictError, and any other.
pub data StateError : Type 0 where
  not_found conflict phase_conflict failed : StateError

abbrev pub is_not_found : StateError → Bool
is_not_found not_found = true
is_not_found _ = false

-- A phase conflict is a conflict too.
abbrev pub is_conflict : StateError → Bool
is_conflict conflict = true
is_conflict phase_conflict = true
is_conflict _ = false

abbrev pub is_phase_conflict : StateError → Bool
is_phase_conflict phase_conflict = true
is_phase_conflict _ = false

pub data Outcome (A : Type 0) : Type 0 where
  ok : A → Outcome A
  err : StateError → Outcome A

pub data Phase : Type 0 where
  running tearing_down : Phase

-- A resource: the metadata that the program reads, and its typed spec.
pub record Resource (A : Type 0) : Type 0 where
  pub id : Text
  pub phase : Phase
  pub value : A

abbrev pub fresh : {A : Type 0} → Text → A → Resource A
fresh i v = record { id = i; phase = running; value = v }

pub record State : Type 1 where
  pub Coll : Type 0 → Type 0
  -- safe.ReaderGetByID, State.Get
  pub get : {A : Type 0} → Coll A → Text → Outcome (Resource A)
  -- safe.ReaderListAll
  pub list : {A : Type 0} → Coll A → Outcome (List (Resource A))
  -- State.Create
  pub create : {A : Type 0} → Coll A → Text → A → Outcome (Unit {0}) × Coll A
  -- safe.StateUpdateWithConflicts: the function updates the spec or refuses.
  pub update : {A : Type 0} → Coll A → Text → (A → Outcome A) → Outcome (Resource A) × Coll A
  -- State.Modify, safe.WriterModify: creates the empty resource given where there is none. What
  -- the callback assigns to variables outside it is its second result.
  pub modify : {A B : Type 0} → Coll A → Text → A → (A → A × B) → Outcome B × Coll A
  -- State.Teardown: tells whether the resource is ready to be destroyed.
  pub teardown : {A : Type 0} → Coll A → Text → Outcome Bool × Coll A
  -- State.WatchFor with state.WithFinalizerEmpty: waits until no finalizer is left.
  pub wait_finalizers : {A : Type 0} → Coll A → Text → Outcome (Unit {0})
  -- State.Destroy
  pub destroy : {A : Type 0} → Coll A → Text → Outcome (Unit {0}) × Coll A

-- What the operations promise of a resource that is there, and of one that is not, in a state
-- without transport errors and without finalizers of other owners.
pub record IsState (s : State) : Type 1 where
  pub create_absent :
      (A : Type 0) (c : s.Coll A) (i : Text) (v : A)
      → s.get c i ≡ err not_found
      → (s.create c i v).0 ≡ ok tt
  pub get-create :
      (A : Type 0) (c : s.Coll A) (i : Text) (v : A) (j : Text)
      → s.get c i ≡ err not_found
      → s.get (s.create c i v).1 j ≡ (if text_eq i j then ok (fresh i v) else s.get c j)
  pub create_present :
      (A : Type 0) (c : s.Coll A) (i : Text) (v : A) {r : Resource A}
      → s.get c i ≡ ok r
      → s.create c i v ≡ (err conflict, c)
  pub list-create :
      (A : Type 0) (c : s.Coll A) (i : Text) (v : A) {rs : List (Resource A)}
      → s.get c i ≡ err not_found
      → s.list c ≡ ok rs
      → (rs' : List (Resource A)) × (s.list (s.create c i v).1 ≡ ok rs') × Perm rs' (fresh i v ∷ rs)
  pub update_absent :
      (A : Type 0) (c : s.Coll A) (i : Text) (f : A → Outcome A)
      → s.get c i ≡ err not_found
      → s.update c i f ≡ (err not_found, c)
  pub update_refused :
      (A : Type 0) (c : s.Coll A) (i : Text) (f : A → Outcome A) {r : Resource A} {e : StateError}
      → s.get c i ≡ ok r
      → r.phase ≡ running
      → f r.value ≡ err e
      → s.update c i f ≡ (err e, c)
  pub update_present :
      (A : Type 0) (c : s.Coll A) (i : Text) (f : A → Outcome A) {r : Resource A} {v : A}
      → s.get c i ≡ ok r
      → r.phase ≡ running
      → f r.value ≡ ok v
      → (s.update c i f).0 ≡ ok (record r { value = v })
  pub get-update :
      (A : Type 0) (c : s.Coll A) (i : Text) (f : A → Outcome A) {r : Resource A} {v : A} (j : Text)
      → s.get c i ≡ ok r
      → r.phase ≡ running
      → f r.value ≡ ok v
      → s.get (s.update c i f).1 j
        ≡ (if text_eq i j then ok (record r { value = v }) else s.get c j)
  pub modify_absent :
      (A B : Type 0) (c : s.Coll A) (i : Text) (e : A) (f : A → A × B)
      → s.get c i ≡ err not_found
      → (s.modify c i e f).0 ≡ ok (f e).1
  pub get-modify_absent :
      (A B : Type 0) (c : s.Coll A) (i : Text) (e : A) (f : A → A × B) (j : Text)
      → s.get c i ≡ err not_found
      → s.get (s.modify c i e f).1 j ≡ (if text_eq i j then ok (fresh i (f e).0) else s.get c j)
  pub modify_present :
      (A B : Type 0) (c : s.Coll A) (i : Text) (e : A) (f : A → A × B) {r : Resource A}
      → s.get c i ≡ ok r
      → r.phase ≡ running
      → (s.modify c i e f).0 ≡ ok (f r.value).1
  pub get-modify_present :
      (A B : Type 0) (c : s.Coll A) (i : Text) (e : A) (f : A → A × B) {r : Resource A} (j : Text)
      → s.get c i ≡ ok r
      → r.phase ≡ running
      → s.get (s.modify c i e f).1 j
        ≡ (if text_eq i j then ok (record r { value = (f r.value).0 }) else s.get c j)
  pub teardown_absent :
      (A : Type 0) (c : s.Coll A) (i : Text)
      → s.get c i ≡ err not_found
      → s.teardown c i ≡ (err not_found, c)
  pub teardown_present :
      (A : Type 0) (c : s.Coll A) (i : Text) {r : Resource A}
      → s.get c i ≡ ok r
      → (s.teardown c i).0 ≡ ok true
  pub get-teardown :
      (A : Type 0) (c : s.Coll A) (i : Text) {r : Resource A} (j : Text)
      → s.get c i ≡ ok r
      → s.get (s.teardown c i).1 j
        ≡ (if text_eq i j then ok (record r { phase = tearing_down }) else s.get c j)
  pub wait_ends :
      (A : Type 0) (c : s.Coll A) (i : Text) {r : Resource A}
      → s.get c i ≡ ok r
      → s.wait_finalizers c i ≡ ok tt
  pub destroy_present :
      (A : Type 0) (c : s.Coll A) (i : Text) {r : Resource A}
      → s.get c i ≡ ok r
      → (s.destroy c i).0 ≡ ok tt
  pub get-destroy :
      (A : Type 0) (c : s.Coll A) (i : Text) {r : Resource A} (j : Text)
      → s.get c i ≡ ok r
      → s.get (s.destroy c i).1 j ≡ (if text_eq i j then err not_found else s.get c j)

-- A resource that can be read is there, or it is not: the state answers.
abbrev pub IsReadable : (s : State) {A : Type 0} → s.Coll A → Text → Type 0
IsReadable s {A} c i = (s.get c i ≡ err not_found) ⊎ ((r : Resource A) × (s.get c i ≡ ok r))

-- What a resource holds, if it is there and not torn down, and `d` if it is not there.
abbrev pub Holds : (s : State) {A : Type 0} → s.Coll A → Text → A → A → Type 0
Holds s {A} c i d v =
    ((s.get c i ≡ err not_found) × (v ≡ d))
    ⊎ ((r : Resource A) × (s.get c i ≡ ok r) × (r.phase ≡ running) × (r.value ≡ v))

-- A resource that is there, is not torn down, and holds `v`.
abbrev pub Present : (s : State) {A : Type 0} → s.Coll A → Text → A → Type 0
Present s {A} c i v = (r : Resource A) × (s.get c i ≡ ok r) × (r.phase ≡ running) × (r.value ≡ v)
