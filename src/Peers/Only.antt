-- ===== src/Peers/Only.antt =====
-- Of resources that are read, the only one with a node ID or a node name.
use talemu.Prelude.{
  Text, text_eq, text_eq_iff, text_eq_refl, true, false, List, [], ◌∷◌, ◌++◌, map, Option, none,
  some, ◌≡◌, refl, ap, sym, ◌∙◌, inl, inr, arith, Bool-cases, Option-cases,
}
use talemu.Outputs.{Entry, Store}
use talemu.Outputs.Reconcile.{find_entry, AreDistinct, IsStore, find_entry_tail}
use talemu.Affiliates.{AffiliateSpec}
use talemu.Affiliates.Merging.{collected}
use talemu.Affiliates.Members.{last_named}
use talemu.Peers.{read_all}

abbrev spec_of : {A : Type 0} → Entry A → Option (Entry A) → A
spec_of x none = x.spec
spec_of x (some e) = e.spec

module _ {A : Type 0} (key : A → Text) (n : Text) where
  -- None of the list has the key.
  abbrev pub AreOthers : List A → Type 0
  AreOthers [] = Unit
  AreOthers (x ∷ xs) = (text_eq (key x) n ≡ false) × AreOthers xs

  -- The resource with the ID is the only one with the key.
  abbrev pub IsOnly : (Text → Option (Entry A)) → Text → Type 0
  IsOnly view i = (j : Text) (e : Entry A) → view j ≡ some e → text_eq (key e.spec) n ≡ true → j ≡ i

  later :
      (x : Entry A) (xs : List (Entry A))
      → find_entry x.id xs ≡ none
      → (j : Text) (e : Entry A) → find_entry j xs ≡ some e
      → find_entry j (x ∷ xs) ≡ some e
  later x xs h j e f = ground (arith, find_entry_tail j x e xs h f, f)

  others :
      (es : List (Entry A))
      → AreDistinct es
      → ((j : Text) (e : Entry A) → find_entry j es ≡ some e → text_eq (key e.spec) n ≡ false)
      → AreOthers (map (λ e. e.spec) es)
  others [] d h = tt
  others (x ∷ xs) d h = (
    h x.id x (ground (arith, text_eq_refl x.id)),
    others xs d.1 (λ j e f. h j e (later x xs d.0 j e f)),
  )

  split_only :
      (es : List (Entry A)) (i : Text) (e : Entry A)
      → AreDistinct es
      → find_entry i es ≡ some e
      → text_eq (key e.spec) n ≡ true
      → IsOnly (λ j. find_entry j es) i
      → (pre : List A) × (post : List A) × (map (λ x. x.spec) es ≡ pre ++ e.spec ∷ post)
        × AreOthers pre
        × AreOthers post
  split_only [] i e d f k only = cc
  split_only (x ∷ xs) i e d f k only = elim (Bool-cases (text_eq x.id i)) [
    | inl y ↦
        let same : some x ≡ some e = ground (arith, f, y) in
        (
          [],
          map (λ x. x.spec) xs,
          ap (λ o. spec_of x o ∷ map (λ x. x.spec) xs) same,
          tt,
          others xs d.1 (λ j e' g. elim (Bool-cases (text_eq (key e'.spec) n)) [
            | inl t ↦
                let at_i = only j e' (later x xs d.0 j e' g) t ∙ sym ((text_eq_iff x.id i).0 y) in
                ground (arith, ap (λ a. find_entry a xs) at_i, d.0, g)
            | inr t ↦ t
          ]),
        )
    | inr y ↦
        let (pre, post, eq, p, q) =
          split_only xs i e d.1 (ground (arith, f, y)) k
            (λ j e' g t. only j e' (later x xs d.0 j e' g) t) in
        let apart : text_eq (key x.spec) n ≡ false = elim (Bool-cases (text_eq (key x.spec) n)) [
          | inl t ↦
              let at_i = only x.id x (ground (arith, text_eq_refl x.id)) t in
              ground (arith, y, (text_eq_iff x.id i).1 at_i)
          | inr t ↦ t
        ] in
        (x.spec ∷ pre, post, ap (λ r. x.spec ∷ r) eq, (apart, p), q)
  ]

collected_others :
    (merge : AffiliateSpec → AffiliateSpec → AffiliateSpec) (n : Text) (k : Option AffiliateSpec)
    (xs ys : List AffiliateSpec)
    → AreOthers (λ a. a.node_id) n xs
    → collected merge n k (xs ++ ys) ≡ collected merge n k ys
collected_others merge n k [] ys h = refl
collected_others merge n k (x ∷ xs) ys h = ground (arith, collected_others merge n k xs ys h.1, h.0)

collected_end :
    (merge : AffiliateSpec → AffiliateSpec → AffiliateSpec) (n : Text) (k : Option AffiliateSpec)
    (xs : List AffiliateSpec)
    → AreOthers (λ a. a.node_id) n xs
    → collected merge n k xs ≡ k
collected_end merge n k [] h = refl
collected_end merge n k (x ∷ xs) h = ground (arith, collected_end merge n k xs h.1, h.0)

pub collected_only :
    (merge : AffiliateSpec → AffiliateSpec → AffiliateSpec) (n : Text)
    (pre post : List AffiliateSpec) (a : AffiliateSpec)
    → AreOthers (λ a. a.node_id) n pre
    → AreOthers (λ a. a.node_id) n post
    → text_eq a.node_id n ≡ true
    → collected merge n none (pre ++ a ∷ post) ≡ some a
collected_only merge n pre post a h g e =
    collected_others merge n none pre (a ∷ post) h
    ∙ ground (arith, e, collected_end merge n (some a) post g)

last_named_others :
    (n : Text) (xs ys : List AffiliateSpec)
    → AreOthers (λ a. a.nodename) n xs
    → last_named n (xs ++ ys) ≡ last_named n ys
last_named_others n [] ys h = refl
last_named_others n (x ∷ xs) ys h = elim (Option-cases (last_named n ys)) [
  | inl z ↦ ground (arith, last_named_others n xs ys h.1, h.0, z)
  | inr (a, z) ↦ ground (arith, last_named_others n xs ys h.1, h.0, z)
]

last_named_end :
    (n : Text) (xs : List AffiliateSpec) → AreOthers (λ a. a.nodename) n xs → last_named n xs ≡ none
last_named_end n [] h = refl
last_named_end n (x ∷ xs) h = ground (arith, last_named_end n xs h.1, h.0)

pub last_named_only :
    (n : Text) (pre post : List AffiliateSpec) (a : AffiliateSpec)
    → AreOthers (λ a. a.nodename) n pre
    → AreOthers (λ a. a.nodename) n post
    → text_eq a.nodename n ≡ true
    → last_named n (pre ++ a ∷ post) ≡ some a
last_named_only n pre post a h g e =
    last_named_others n pre (a ∷ post) h ∙ ground (arith, e, last_named_end n post g)

-- What is read is the affiliate among others.
pub read_only :
    (store : Store AffiliateSpec) (view : store.State → Text → Option (Entry AffiliateSpec))
    → IsStore store view
    → (key : AffiliateSpec → Text) (n : Text) (s : store.State) (i : Text) (e : Entry AffiliateSpec)
    → view s i ≡ some e
    → text_eq (key e.spec) n ≡ true
    → IsOnly key n (view s) i
    → (pre : List AffiliateSpec) × (post : List AffiliateSpec) × (read_all store s
        ≡ some (pre ++ e.spec ∷ post))
      × AreOthers key n pre
      × AreOthers key n post
read_only store view works key n s i e f k only =
    let (es, l, d, shows) = works.lists s in
    let (pre, post, eq, p, q) =
      split_only key n es i e d (shows i ∙ f) k (λ j e' g t. only j e' (sym (shows j) ∙ g) t) in
    (pre, post, ground (arith, l, ap (λ xs. some xs) eq), p, q)
