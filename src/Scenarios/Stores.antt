-- ===== src/Scenarios/Stores.antt =====
-- A store of resources as a list, of which the first entry of an ID counts.
use talemu.Prelude.{
  Text, text_eq, text_eq_iff, text_eq_refl, true, List, [], ◌∷◌, Option, none, some, if◌then◌else◌,
  ◌≡◌, refl, ap, inl, inr, arith, Bool-cases,
}
use talemu.Outputs.{Entry, Store}
use talemu.Outputs.Reconcile.{find_entry, AreDistinct, owned, IsStore}

module _ {A : Type 0} where
  abbrev pub remove : Text → List (Entry A) → List (Entry A)
  remove i [] = []
  remove i (e ∷ es) = let rest = remove i es in if text_eq e.id i then rest else e ∷ rest

  abbrev pub firsts : List (Entry A) → List (Entry A)
  firsts [] = []
  firsts (e ∷ es) = e ∷ remove e.id (firsts es)

  find_entry-remove :
      (i j : Text) (es : List (Entry A))
      → find_entry j (remove i es) ≡ (if text_eq i j then none else find_entry j es)
  find_entry-remove i j [] = ground arith
  find_entry-remove i j (e ∷ es) = elim (Bool-cases (text_eq e.id i)) [
    | inl y ↦
        ground (arith, find_entry-remove i j es, ap (λ t. text_eq t j) ((text_eq_iff e.id i).0 y))
    | inr y ↦ elim (Bool-cases (text_eq i j)) [
      | inl z ↦
          ground (arith, find_entry-remove i j es, ap (λ t. text_eq e.id t) ((text_eq_iff i j).0 z))
      | inr z ↦ ground (arith, find_entry-remove i j es)
    ]
  ]

  AreDistinct-remove : (i : Text) (es : List (Entry A)) → AreDistinct es → AreDistinct (remove i es)
  AreDistinct-remove i [] d = tt
  AreDistinct-remove i (e ∷ es) d = elim (Bool-cases (text_eq e.id i)) [
    | inl y ↦ ground (arith, AreDistinct-remove i es d.1)
    | inr y ↦
        let eq : remove i (e ∷ es) ≡ e ∷ remove i es = ground arith in
        rw eq (ground (arith, find_entry-remove i e.id es, d.0), AreDistinct-remove i es d.1)
  ]

  AreDistinct-firsts : (es : List (Entry A)) → AreDistinct (firsts es)
  AreDistinct-firsts [] = tt
  AreDistinct-firsts (e ∷ es) = (
    ground (arith, find_entry-remove e.id e.id (firsts es), text_eq_refl e.id),
    AreDistinct-remove e.id (firsts es) (AreDistinct-firsts es),
  )

  find_entry-firsts : (j : Text) (es : List (Entry A)) → find_entry j (firsts es) ≡ find_entry j es
  find_entry-firsts j [] = refl
  find_entry-firsts j (e ∷ es) =
      ground (arith, find_entry-remove e.id j (firsts es), find_entry-firsts j es)

-- The store of a list; its writes and removals do not fail.
abbrev pub listed : (A : Type 0) → Store A
listed A = record {
  State = List (Entry A);
  list = λ es. some (firsts es);
  write = λ i v es. (owned i v ∷ es, true);
  destroy = λ i es. (remove i es, true);
}

abbrev pub shown : (A : Type 0) → List (Entry A) → Text → Option (Entry A)
shown A es i = find_entry i es

pub listed-IsStore : (A : Type 0) → IsStore (listed A) (shown A)
listed-IsStore A = record {
  lists = λ es. (firsts es, refl, AreDistinct-firsts es, λ i. find_entry-firsts i es);
  writes = λ es i v f. (refl, λ j. refl);
  destroys = λ es e f m. (refl, λ j. find_entry-remove e.id j es);
}
