-- ===== src/Prelude/Strings.antt =====
-- Go strings as byte sequences, with the functions of package `strings` that the program calls:
-- HasPrefix, HasSuffix, Contains, IndexByte, Split, Cut, TrimSuffix.
use Prim.Native.Nat.{ℕ}
use Prim.Native.Char.{code}
use Prim.Native.String.{String}
use mathlib.Core.Path.{◌≡◌, refl, sym}
use mathlib.Core.Logic.{◌↔◌, inl, inr}
use mathlib.Core.Bool.{Bool, true, false, ◌&&◌, ◌||◌}
use mathlib.Core.List.{List, [], ◌∷◌, ◌++◌, reverse}
use native.Mathlib.Omega.{arith}
use talemu.Prelude.Tests.{◌==◌ as nat_eq, if◌then◌else◌, Bool-cases}

abbrev pub Text : Type 0
Text = List ℕ

-- The bytes of an ASCII literal.
abbrev pub codes : String → Text
codes String.[] = []
codes (String.◌∷◌ c s) = code c ∷ codes s

-- Go's `==` on strings.
unfoldable pub text_eq : Text → Text → Bool
text_eq [] [] = true
text_eq (x ∷ xs) (y ∷ ys) = nat_eq x y && text_eq xs ys
text_eq _ _ = false

pub text_eq_refl : (a : Text) → text_eq a a ≡ true
unfolding text_eq
text_eq_refl [] = refl
text_eq_refl (x ∷ xs) = ground (arith, text_eq_refl xs)

pub eq_of_text_eq : (a b : Text) → text_eq a b ≡ true → a ≡ b
unfolding text_eq
eq_of_text_eq [] [] h = refl
eq_of_text_eq [] (y ∷ ys) h = cc
eq_of_text_eq (x ∷ xs) [] h = cc
eq_of_text_eq (x ∷ xs) (y ∷ ys) h = ground (arith, eq_of_text_eq xs ys)

pub text_eq_iff : (a b : Text) → (text_eq a b ≡ true) ↔ (a ≡ b)
text_eq_iff a b = (eq_of_text_eq a b, λ e. rw e (text_eq_refl b))

pub text_eq_sym : (a b : Text) → text_eq a b ≡ false → text_eq b a ≡ false
text_eq_sym a b h = elim (Bool-cases (text_eq b a)) [
  | inl e ↦ ground (arith, (text_eq_iff a b).1 (sym ((text_eq_iff b a).0 e)))
  | inr e ↦ e
]

-- strings.HasPrefix(s, p).
unfoldable pub has_prefix : Text → Text → Bool
has_prefix s [] = true
has_prefix [] (y ∷ ys) = false
has_prefix (x ∷ xs) (y ∷ ys) = nat_eq x y && has_prefix xs ys

-- strings.HasSuffix(s, p).
unfoldable pub has_suffix : Text → Text → Bool
unfolding has_prefix
has_suffix s p = has_prefix (reverse s) (reverse p)

-- strings.Contains(s, p).
unfoldable pub contains : Text → Text → Bool
unfolding has_prefix
contains [] p = has_prefix [] p
contains (x ∷ xs) p = has_prefix (x ∷ xs) p || contains xs p

-- strings.IndexByte(s, b) != -1.
unfoldable pub has_byte : ℕ → Text → Bool
has_byte b [] = false
has_byte b (x ∷ xs) = nat_eq x b || has_byte b xs

-- s[:strings.IndexByte(s, b)], the whole of `s` where `b` does not occur.
unfoldable pub before : ℕ → Text → Text
before b [] = []
before b (x ∷ xs) = if nat_eq x b then [] else x ∷ before b xs

-- What follows the first `b`, as strings.Cut returns it; nothing where `b` does not occur.
unfoldable pub after : ℕ → Text → Text
after b [] = []
after b (x ∷ xs) = if nat_eq x b then xs else after b xs

-- strings.Contains with a pattern of one byte.
pub contains-one : (b : ℕ) (s : Text) → contains s (b ∷ []) ≡ has_byte b s
unfolding contains has_byte has_prefix
contains-one b [] = refl
contains-one b (x ∷ xs) = ground (arith, contains-one b xs)

-- strings.Split(s, b) with a separator of one byte: the first part, and the parts that follow it.
unfoldable pub split : ℕ → Text → Text × List Text
split b [] = ([], [])
split b (x ∷ xs) =
    let (first, rest) = split b xs in if nat_eq x b then ([], first ∷ rest) else (x ∷ first, rest)

-- The last of a sequence that begins with `d`.
unfoldable pub last_or {ℓ} : {A : Type ℓ} → A → List A → A
last_or d [] = d
last_or d (x ∷ xs) = last_or x xs

-- `b` does not occur.
abbrev pub Lacks : ℕ → Text → Type 0
Lacks b s = has_byte b s ≡ false

pub Lacks-append : (b : ℕ) (s t : Text) → Lacks b s → Lacks b t → Lacks b (s ++ t)
unfolding has_byte
Lacks-append b [] t hs ht = ht
Lacks-append b (x ∷ xs) t hs ht = ground (arith, Lacks-append b xs t)

pub before-Lacks : (b : ℕ) (s : Text) → Lacks b s → before b s ≡ s
unfolding before has_byte
before-Lacks b [] h = refl
before-Lacks b (x ∷ xs) h = ground (arith, before-Lacks b xs)

pub before-append : (b : ℕ) (s t : Text) → Lacks b s → before b (s ++ b ∷ t) ≡ s
unfolding before has_byte
before-append b [] t h = ground arith
before-append b (x ∷ xs) t h = ground (arith, before-append b xs t)

pub after-append : (b : ℕ) (s t : Text) → Lacks b s → after b (s ++ b ∷ t) ≡ t
unfolding after has_byte
after-append b [] t h = ground arith
after-append b (x ∷ xs) t h = ground (arith, after-append b xs t)

pub has_byte-append : (b : ℕ) (s t : Text) → has_byte b (s ++ b ∷ t) ≡ true
unfolding has_byte
has_byte-append b [] t = ground arith
has_byte-append b (x ∷ xs) t = ground (arith, has_byte-append b xs t)

pub split-Lacks : (b : ℕ) (s : Text) → Lacks b s → split b s ≡ (s, [])
unfolding split has_byte
split-Lacks b [] h = refl
split-Lacks b (x ∷ xs) h = ground (arith, split-Lacks b xs)

pub split-append :
    (b : ℕ) (s t : Text) → Lacks b s → split b (s ++ b ∷ t) ≡ (s, (split b t).0 ∷ (split b t).1)
unfolding split has_byte
split-append b [] t h = ground arith
split-append b (x ∷ xs) t h = ground (arith, split-append b xs t)

-- The last part of what ends in a separator and a part.
pub last-split-append : (b : ℕ) (s t d : Text) → Lacks b t → last_or d (split b (s ++ b ∷ t)).1 ≡ t
unfolding split last_or
last-split-append b [] t d h = ground (arith, split-Lacks b t)
last-split-append b (x ∷ xs) t d h =
    ground (arith, last-split-append b xs t d, last-split-append b xs t (split b (xs ++ b ∷ t)).0)
