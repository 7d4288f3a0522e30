-- ===== src/Cosi/InMemory.antt =====
-- A state in memory: it has the operations and keeps the laws of the parent module, so that the
-- theorems that assume them can be applied to runs.
use mathlib.Core.List.Perm
use talemu.Prelude.{
  Text, text_eq, text_eq_iff, Bool, true, List, [], ◌∷◌, ◌≡◌, refl, if◌then◌else◌, arith,
}
use talemu.Cosi.{
  not_found, conflict, phase_conflict, Outcome, ok, err, Phase, running, tearing_down, Resource,
  fresh, State, IsState,
}

module _ {A : Type 0} where
  find : List (Text × Resource A) → Text → Outcome (Resource A)
  find [] i = err not_found
  find ((j, r) ∷ c) i = if text_eq j i then ok r else find c i

  without : List (Text × Resource A) → Text → List (Text × Resource A)
  without [] i = []
  without ((j, r) ∷ c) i = if text_eq j i then without c i else (j, r) ∷ without c i

  store : List (Text × Resource A) → Text → Resource A → List (Text × Resource A)
  store c i r = (i, r) ∷ without c i

  find-without :
      (c : List (Text × Resource A)) (i j : Text)
      → find (without c i) j ≡ (if text_eq i j then err not_found else find c j)
  unfolding find without
  find-without [] i j = ground arith
  find-without ((k, r) ∷ c) i j =
      ground (arith, find-without c i j, text_eq_iff k i, text_eq_iff k j, text_eq_iff i j)

  find-store :
      (c : List (Text × Resource A)) (i j : Text) (r : Resource A)
      → find (store c i r) j ≡ (if text_eq i j then ok r else find c j)
  unfolding find store
  find-store c i j r = ground (arith, find-without c i j)

  values : List (Text × Resource A) → List (Resource A)
  values [] = []
  values ((i, r) ∷ c) = r ∷ values c

  without_absent :
      (c : List (Text × Resource A)) (i : Text) → find c i ≡ err not_found → without c i ≡ c
  unfolding find without
  without_absent [] i h = refl
  without_absent ((j, r) ∷ c) i h = ground (arith, without_absent c i)

  create : List (Text × Resource A) → Text → A → Outcome (Unit {0}) × List (Text × Resource A)
  create c i v = elim (find c i) [
    | ok r ↦ (err conflict, c)
    | err e ↦ (ok tt, store c i (fresh i v))
  ]

  set_value :
      List (Text × Resource A)
      → Text
      → Resource A
      → Outcome A
      → Outcome (Resource A) × List (Text × Resource A)
  set_value c i r (ok v) = (ok (record r { value = v }), store c i (record r { value = v }))
  set_value c i r (err e) = (err e, c)

  when_running :
      {B : Type 0}
      → Phase
      → List (Text × Resource A)
      → Outcome B × List (Text × Resource A)
      → Outcome B × List (Text × Resource A)
  when_running running c done = done
  when_running tearing_down c done = (err phase_conflict, c)

  update :
      List (Text × Resource A)
      → Text
      → (A → Outcome A)
      → Outcome (Resource A) × List (Text × Resource A)
  update c i f = elim (find c i) [
    | ok r ↦ when_running r.phase c (set_value c i r (f r.value))
    | err e ↦ (err e, c)
  ]

  modify :
      {B : Type 0}
      → List (Text × Resource A)
      → Text
      → A
      → (A → A × B)
      → Outcome B × List (Text × Resource A)
  modify c i e f = elim (find c i) [
    | ok r ↦
        when_running r.phase c (ok (f r.value).1, store c i (record r { value = (f r.value).0 }))
    | err _ ↦ (ok (f e).1, store c i (fresh i (f e).0))
  ]

  teardown : List (Text × Resource A) → Text → Outcome Bool × List (Text × Resource A)
  teardown c i = elim (find c i) [
    | ok r ↦ (ok true, store c i (record r { phase = tearing_down }))
    | err e ↦ (err e, c)
  ]

  wait_finalizers : List (Text × Resource A) → Text → Outcome (Unit {0})
  wait_finalizers c i = elim (find c i) [ ok r ↦ ok tt | err e ↦ err e ]

  destroy : List (Text × Resource A) → Text → Outcome (Unit {0}) × List (Text × Resource A)
  destroy c i = elim (find c i) [ ok r ↦ (ok tt, without c i) | err e ↦ (err e, c) ]

unfoldable pub in_memory : State
unfolding find store without values create set_value when_running update modify teardown
    wait_finalizers destroy
in_memory = record {
  Coll = λ A. List (Text × Resource A);
  get = find;
  list = λ c. ok (values c);
  create = create;
  update = update;
  modify = modify;
  teardown = teardown;
  wait_finalizers = wait_finalizers;
  destroy = destroy;
}

pub in_memory-IsState : IsState in_memory
unfolding in_memory
in_memory-IsState = record {
  create_absent = λ A c i v h. rw (h, create);
  get-create = λ A c i v j h. rw (h, create) (find-store c i j (fresh i v));
  create_present = λ A c i v h. rw (h, create);
  list-create = λ A c i v {rs} h l. (
    fresh i v ∷ rs,
    rw (h, create) (rw (without_absent c i h) (ground arith)),
    Perm.refl (fresh i v ∷ rs),
  );
  update_absent = λ A c i f h. rw (h, update);
  update_refused = λ A c i f h p q. rw (h, update) (ground arith);
  update_present = λ A c i f h p q. ground arith;
  get-update = λ A c i f {r} {v} j h p q. ground (arith, find-store c i j (record r { value = v }));
  modify_absent = λ A B c i e f h. ground arith;
  get-modify_absent = λ A B c i e f j h. rw (h, modify) (find-store c i j (fresh i (f e).0));
  modify_present = λ A B c i e f h p. ground arith;
  get-modify_present = λ A B c i e f {r} j h p.
      ground (arith, find-store c i j (record r { value = (f r.value).0 }));
  teardown_absent = λ A c i h. ground arith;
  teardown_present = λ A c i h. ground arith;
  get-teardown =
      λ A c i {r} j h. rw (h, teardown) (find-store c i j (record r { phase = tearing_down }));
  wait_ends = λ A c i h. ground arith;
  destroy_present = λ A c i h. ground arith;
  get-destroy = λ A c i j h. rw (h, destroy) (find-without c i j);
}
