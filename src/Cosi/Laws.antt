-- ===== src/Cosi/Laws.antt =====
-- The laws of a state at the resource that is written, and at the others.
use talemu.Prelude.{
  Text, text_eq, text_eq_refl, text_eq_iff, Bool-cases, true, ◌≡◌, ◌≢◌, refl, inl, inr,
  if◌then◌else◌,
}
use talemu.Cosi.{
  not_found, Outcome, ok, err, Resource, running, tearing_down, fresh, State, IsState, Holds,
}

pub if_self {ℓ} : {A : Type ℓ} (i : Text) (x y : A) → (if text_eq i i then x else y) ≡ x
if_self i x y = rw text_eq_refl

pub if_ne {ℓ} : {A : Type ℓ} (i j : Text) (x y : A) → i ≢ j → (if text_eq i j then x else y) ≡ y
if_ne i j x y h = elim (Bool-cases (text_eq i j)) [
  | inl e ↦ absurd (h ((text_eq_iff i j).0 e))
  | inr e ↦ rw e
]

module _ {s : State} (laws : IsState s) {A : Type 0} (c : s.Coll A) (i : Text) where
  pub create_self :
      (v : A)
      → s.get c i ≡ err not_found
      → ((s.create c i v).0 ≡ ok tt) × (s.get (s.create c i v).1 i ≡ ok (fresh i v))
  create_self v h = (laws.create_absent A c i v h, rw (laws.get-create A c i v i h) (if_self i _ _))

  pub update_self :
      (f : A → Outcome A) {r : Resource A} {v : A}
      → s.get c i ≡ ok r
      → r.phase ≡ running
      → f r.value ≡ ok v
      → ((s.update c i f).0 ≡ ok (record r { value = v }))
        × (s.get (s.update c i f).1 i ≡ ok (record r { value = v }))
  update_self f h p e =
      (laws.update_present A c i f h p e, rw (laws.get-update A c i f i h p e) (if_self i _ _))

  pub modify_self :
      {B : Type 0} (d : A) (f : A → A × B) {v : A}
      → Holds s c i d v
      → ((s.modify c i d f).0 ≡ ok (f v).1) × Holds s (s.modify c i d f).1 i d (f v).0
  modify_self {B} d f (inl (h, e)) = rw e (
    laws.modify_absent A B c i d f h,
    inr (fresh i (f d).0, rw (laws.get-modify_absent A B c i d f i h) (if_self i _ _), refl, refl),
  )
  modify_self {B} d f (inr (r, h, p, e)) = rw (← e) (
    laws.modify_present A B c i d f h p,
    inr (
      record r { value = (f r.value).0 },
      rw (laws.get-modify_present A B c i d f i h p) (if_self i _ _),
      p,
      refl,
    ),
  )

  -- A resource that was torn down and whose finalizers are gone can be destroyed.
  pub destroy_self :
      {r : Resource A}
      → s.get c i ≡ ok r
      → let c' = (s.teardown c i).1 in
        ((s.teardown c i).0 ≡ ok true)
        × (s.wait_finalizers c' i ≡ ok tt)
        × ((s.destroy c' i).0 ≡ ok tt)
        × (s.get (s.destroy c' i).1 i ≡ err not_found)
  destroy_self {r} h =
      let c' = (s.teardown c i).1 in
      let torn : s.get c' i ≡ ok (record r { phase = tearing_down }) =
        rw (laws.get-teardown A c i i h) (if_self i _ _) in
      (
        laws.teardown_present A c i h,
        laws.wait_ends A c' i torn,
        laws.destroy_present A c' i torn,
        rw (laws.get-destroy A c' i i torn) (if_self i _ _),
      )
