-- ===== src/Provider/Slots.antt =====
-- pickFreeSlot, and the UUID of a slot.
use talemu.Prelude.{
  ℕ, zero, suc, ◌+◌, ◌<◌, ◌≤◌, true, false, List, [], ◌∷◌, none, some, ◌==◌, length, if◌then◌else◌,
  ◌≡◌, ◌≢◌, refl, inl, inr, arith, Bool-cases, Option-cases, dec_lt, ◌∙◌,
}
use talemu.Provider.{in_use, pick_from, pick_free_slot, max_machine_count, six_digits, uuid_of_slot}

pick_from-least :
    (rounds i : ℕ) (used : List ℕ) {slot : ℕ}
    → pick_from rounds i used ≡ some slot
    → (i ≤ slot)
      × (slot < i + rounds)
      × (in_use slot used ≡ false)
      × ((j : ℕ) → i ≤ j → j < slot → in_use j used ≡ true)
unfolding pick_from
pick_from-least zero i used h = cc
pick_from-least (suc rounds) i used {slot} h = elim (Bool-cases (in_use i used)) [
  | inl e ↦
      let later = pick_from-least rounds (suc i) used {slot = slot} (ground arith) in
      (
        omega (arith, later.0),
        omega (arith, later.1),
        later.2,
        (λ j p q. elim (dec_lt i j) [
          | yes lt ↦ later.3 j lt q
          | no ge ↦ let same : j ≡ i = omega arith in rw same e
        ]),
      )
  | inr e ↦
      let found : i ≡ slot = ground arith in
      (
        omega (arith, found),
        omega (arith, found),
        rw (← found) e,
        (λ j p q. absurd (omega (arith, found))),
      )
]

-- A slot that is picked is at least 1 and below the machine limit, is not in use, and every lower
-- one from 1 on is.
pub pick_free_slot-least :
    (used : List ℕ) (slot : ℕ)
    → pick_free_slot used ≡ some slot
    → (1 ≤ slot)
      × (slot < max_machine_count)
      × (in_use slot used ≡ false)
      × ((j : ℕ) → 1 ≤ j → j < slot → in_use j used ≡ true)
unfolding pick_free_slot
pick_free_slot-least used slot h =
    let found = pick_from-least 99999 1 used {slot = slot} h in
    (found.0, omega (arith, found.1), found.2, found.3)

-- All occurrences of a slot removed.
remove : ℕ → List ℕ → List ℕ
remove i [] = []
remove i (x ∷ xs) = if x == i then remove i xs else x ∷ remove i xs

length-remove-le : (i : ℕ) (xs : List ℕ) → length (remove i xs) ≤ length xs
unfolding remove
length-remove-le i [] = omega arith
length-remove-le i (x ∷ xs) = ground (arith, length-remove-le i xs)

length-remove : (i : ℕ) (xs : List ℕ) → in_use i xs ≡ true → length (remove i xs) < length xs
unfolding remove in_use
length-remove i [] h = cc
length-remove i (x ∷ xs) h = ground (arith, length-remove-le i xs, length-remove i xs)

in_use-remove : (i j : ℕ) (xs : List ℕ) → i ≢ j → in_use j (remove i xs) ≡ in_use j xs
unfolding remove in_use
in_use-remove i j [] n = refl
in_use-remove i j (x ∷ xs) n = ground (arith, in_use-remove i j xs n)

pick_from-remove :
    (rounds i k : ℕ) (used : List ℕ)
    → k < i
    → pick_from rounds i (remove k used) ≡ pick_from rounds i used
unfolding pick_from
pick_from-remove zero i k used h = refl
pick_from-remove (suc rounds) i k used h = rw (
  in_use-remove k i used (λ e. omega arith),
  pick_from-remove rounds (suc i) k used (omega arith),
)

pick_from-none :
    (rounds i : ℕ) (used : List ℕ) → pick_from rounds i used ≡ none → rounds ≤ length used
unfolding pick_from
pick_from-none zero i used h = omega arith
pick_from-none (suc rounds) i used h = elim (Bool-cases (in_use i used)) [
  | inl e ↦
      let rest : pick_from rounds (suc i) used ≡ none = ground arith in
      let smaller =
        pick_from-none rounds (suc i) (remove i used)
          (pick_from-remove rounds (suc i) i used (omega arith) ∙ rest) in
      omega (arith, smaller, length-remove i used e)
  | inr e ↦ absurd (ground arith)
]

-- With fewer machine tasks than there are slots, a slot is found.
pub pick_free_slot_total :
    (used : List ℕ)
    → suc (length used) < max_machine_count
    → (slot : ℕ) × (pick_free_slot used ≡ some slot)
unfolding pick_free_slot
pick_free_slot_total used h = elim (Option-cases (pick_from 99999 1 used)) [
  | inl e ↦ absurd (omega (arith, pick_from-none 99999 1 used e))
  | inr found ↦ found
]

-- Machines in different slots are given different UUIDs.
pub uuid_of_slot-injective :
    (a b : ℕ)
    → a < max_machine_count
    → b < max_machine_count
    → uuid_of_slot a ≡ uuid_of_slot b
    → a ≡ b
unfolding uuid_of_slot six_digits
uuid_of_slot-injective a b ha hb h = ground arith
