-- ===== src/Hostname/Merging.antt =====
-- The hostname that the merge chooses.
use talemu.Prelude.{
  ℕ, ◌<◌, true, false, List, [], ◌∷◌, ◌++◌, map, Option, none, some, ltb, if◌then◌else◌, ◌≡◌, refl,
  ◌⊎◌, inl, inr, arith, Option-cases,
}
use talemu.Image.{is_empty}
use talemu.Cosi.{Resource, State, IsState, Holds, ok}
use talemu.Cosi.Laws.{modify_self}
use talemu.Hostname.{HostnameSpec, no_hostname, merge_from, merge, hostname_id, merge_round}

-- Every spec is of a layer below `n`.
abbrev pub AreBelow : ℕ → List HostnameSpec → Type 0
AreBelow n [] = Unit
AreBelow n (x ∷ xs) = (x.layer < n) × AreBelow n xs

-- Every spec has a hostname.
abbrev pub AreNamed : List HostnameSpec → Type 0
AreNamed [] = Unit
AreNamed (x ∷ xs) = (is_empty x.hostname ≡ false) × AreNamed xs

-- The first of the specs of the highest layer.
unfoldable pub highest : List HostnameSpec → Option HostnameSpec
highest [] = none
highest (x ∷ xs) = elim (highest xs) [
  | none ↦ some x
  | some y ↦ if ltb x.layer y.layer then some y else some x
]

merge_kept :
    (x : HostnameSpec) (ys : List HostnameSpec)
    → is_empty x.hostname ≡ false
    → AreBelow x.layer ys
    → merge_from x ys ≡ x
unfolding merge_from
merge_kept x [] n h = refl
merge_kept x (y ∷ ys) n h = ground (arith, merge_kept x ys n h.1, h.0)

merge_reaches :
    (f x : HostnameSpec) (xs ys : List HostnameSpec)
    → is_empty x.hostname ≡ false
    → (is_empty f.hostname ≡ true) ⊎ (f.layer < x.layer)
    → AreBelow x.layer xs
    → AreBelow x.layer ys
    → merge_from f (xs ++ x ∷ ys) ≡ x
unfolding merge_from
merge_reaches f x [] ys n (inl e) h k = ground (arith, merge_kept x ys n k)
merge_reaches f x [] ys n (inr e) h k = ground (arith, merge_kept x ys n k)
merge_reaches f x (z ∷ zs) ys n (inl e) h k =
    ground (arith, merge_reaches z x zs ys n (inr h.0) h.1 k)
merge_reaches f x (z ∷ zs) ys n (inr e) h k =
    ground
      (arith, merge_reaches z x zs ys n (inr h.0) h.1 k, merge_reaches f x zs ys n (inr e) h.1 k)

-- Wherever a spec with a hostname stands among specs of lower layers, which may lack a hostname,
-- the merge chooses it.
pub merge_top :
    (x : HostnameSpec) (xs ys : List HostnameSpec)
    → is_empty x.hostname ≡ false
    → AreBelow x.layer xs
    → AreBelow x.layer ys
    → merge (xs ++ x ∷ ys) ≡ x
merge_top x xs ys n h k = merge_reaches no_hostname x xs ys n (inl refl) h k

abbrev pub or_none : Option HostnameSpec → HostnameSpec
or_none none = no_hostname
or_none (some x) = x

merge-highest_from :
    (f : HostnameSpec) (xs : List HostnameSpec)
    → is_empty f.hostname ≡ false
    → AreNamed xs
    → merge_from f xs ≡ or_none (highest (f ∷ xs))
unfolding merge_from highest
merge-highest_from f [] n h = refl
merge-highest_from f (x ∷ xs) n h = elim (Option-cases (highest xs)) [
  | inl e ↦ ground (arith, merge-highest_from f xs n h.1, merge-highest_from x xs h.0 h.1)
  | inr (y, e) ↦ ground (arith, merge-highest_from f xs n h.1, merge-highest_from x xs h.0 h.1)
]

-- Of specs that all have a hostname, the merge chooses the first of those of the highest layer, and
-- of no specs none.
pub merge-highest : (xs : List HostnameSpec) → AreNamed xs → merge xs ≡ or_none (highest xs)
unfolding merge_from highest
merge-highest [] h = refl
merge-highest (x ∷ xs) h = merge-highest_from x xs h.0 h.1

-- A round of the merge over listed specs, of which it chooses one with a hostname, succeeds and
-- leaves that one as the hostname of the machine, whether the resource was there or not.  This
-- assumes that the resource, where it is there, is not torn down.
pub merge_round_lem :
    {s : State}
    → IsState s
    → (specs merged : s.Coll HostnameSpec) (rs : List (Resource HostnameSpec)) (old : HostnameSpec)
    → s.list specs ≡ ok rs
    → is_empty (merge (map (λ r. r.value) rs)).hostname ≡ false
    → Holds s merged hostname_id no_hostname old
    → ((merge_round s specs merged).0 ≡ true)
      × Holds s
          (merge_round s specs merged).1
          hostname_id
          no_hostname
          (merge (map (λ r. r.value) rs))
unfolding merge_round
merge_round_lem {s} laws specs merged rs old l n h =
    let final = merge (map (λ r. r.value) rs) in
    let (done, holds) = modify_self laws merged hostname_id no_hostname (λ o. (final, tt)) h in
    let e : merge_round s specs merged
        ≡ (true, (s.modify merged hostname_id no_hostname (λ o. (final, tt))).1) =
      ground (arith, l, done) in
    rw e (refl, holds)
