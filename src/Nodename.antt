-- ===== src/Nodename.antt =====
-- FromHostname of internal/pkg/machine/controllers/nodename.go, with strings.Map and strings.Trim. A
-- byte of a multi-byte rune is above 127 and is dropped, as the rune is.
pub mod Rounds
use talemu.Prelude.{
  ℕ, ◌+◌, ◌-◌, Text, Bool, true, false, not, ◌&&◌, ◌||◌, [], ◌∷◌, Option, none, some, leb, ◌==◌,
  if◌then◌else◌, ◌≡◌, refl, ◌↔◌, inl, inr, arith, ap, ◌∙◌, sym, Bool-cases,
}
use talemu.Image.{is_empty}

abbrev pub between : ℕ → ℕ → ℕ → Bool
between low high r = leb low r && leb r high

-- The function that strings.Map applies: `none` is -1.
abbrev pub map_rune : ℕ → Option ℕ
map_rune r =
    if between 97 122 r
    then some r
    else if between 65 90 r
    then some (r - 65 + 97)
    else if between 48 57 r
    then some r
    else if (r == 45) || (r == 95)
    then some 45
    else if r == 46
    then some 46
    else none

-- strings.Map
unfoldable pub map_text : Text → Text
map_text [] = []
map_text (r ∷ rs) = elim (map_rune r) [ none ↦ map_text rs | some c ↦ c ∷ map_text rs ]

-- The cutset "-."
abbrev pub is_cut : ℕ → Bool
is_cut r = (r == 45) || (r == 46)

-- strings.Trim, from the left and from the right
unfoldable pub trim_left : Text → Text
trim_left [] = []
trim_left (r ∷ rs) = let rest = trim_left rs in if is_cut r then rest else r ∷ rs

unfoldable pub trim_right : Text → Text
trim_right [] = []
trim_right (r ∷ rs) = let rest = trim_right rs in if is_empty rest && is_cut r then [] else r ∷ rest

unfoldable pub from_hostname : Text → Option Text
from_hostname hostname =
    let nodename = trim_right (trim_left (map_text hostname)) in
    if is_empty nodename then none else some nodename

-- A lowercase letter or a digit, and with them a dash or a dot.
abbrev pub is_alphanumeric : ℕ → Bool
is_alphanumeric r = between 97 122 r || between 48 57 r

unfoldable pub is_clean : Text → Bool
is_clean [] = true
is_clean (r ∷ rs) = (is_alphanumeric r || is_cut r) && is_clean rs

abbrev pub starts_well : Text → Bool
starts_well [] = true
starts_well (r ∷ rs) = is_alphanumeric r

unfoldable pub ends_well : Text → Bool
ends_well [] = true
ends_well (r ∷ rs) = let rest = ends_well rs in if is_empty rs then is_alphanumeric r else rest

-- A node name: letters, digits, dashes and dots, of which none stands at an end.
abbrev pub is_nodename : Text → Bool
is_nodename t = not (is_empty t) && is_clean t && starts_well t && ends_well t

is_clean-map_text : (h : Text) → is_clean (map_text h) ≡ true
unfolding is_clean map_text
is_clean-map_text [] = refl
is_clean-map_text (r ∷ rs) = ground (arith, is_clean-map_text rs)

map_text_clean : (t : Text) → is_clean t ≡ true → map_text t ≡ t
unfolding is_clean map_text
map_text_clean [] h = refl
map_text_clean (r ∷ rs) h = ground (arith, map_text_clean rs)

is_clean-trim_left : (t : Text) → is_clean t ≡ true → is_clean (trim_left t) ≡ true
unfolding is_clean trim_left
is_clean-trim_left [] h = refl
is_clean-trim_left (r ∷ rs) h = ground (arith, is_clean-trim_left rs)

is_clean-trim_right : (t : Text) → is_clean t ≡ true → is_clean (trim_right t) ≡ true
unfolding is_clean trim_right
is_clean-trim_right [] h = refl
is_clean-trim_right (r ∷ rs) h = ground (arith, is_clean-trim_right rs)

starts_well-trim_left : (t : Text) → is_clean t ≡ true → starts_well (trim_left t) ≡ true
unfolding is_clean trim_left
starts_well-trim_left [] h = refl
starts_well-trim_left (r ∷ rs) h = ground (arith, starts_well-trim_left rs)

starts_well-trim_right : (t : Text) → starts_well t ≡ true → starts_well (trim_right t) ≡ true
unfolding trim_right
starts_well-trim_right [] h = refl
starts_well-trim_right (r ∷ rs) h = ground arith

ends_well-trim_right : (t : Text) → is_clean t ≡ true → ends_well (trim_right t) ≡ true
unfolding is_clean ends_well trim_right
ends_well-trim_right [] h = refl
ends_well-trim_right (r ∷ rs) h = ground (arith, ends_well-trim_right rs)

trim_left_well : (t : Text) → starts_well t ≡ true → trim_left t ≡ t
unfolding trim_left
trim_left_well [] h = refl
trim_left_well (r ∷ rs) h = ground arith

trim_right_well : (t : Text) → ends_well t ≡ true → trim_right t ≡ t
unfolding trim_right ends_well
trim_right_well [] h = refl
trim_right_well (r ∷ []) h = ground arith
trim_right_well (r ∷ x ∷ xs) h = ground (arith, trim_right_well (x ∷ xs))

has_alphanumeric : Text → Bool
has_alphanumeric [] = false
has_alphanumeric (r ∷ rs) = is_alphanumeric r || has_alphanumeric rs

-- A letter of either case or a digit.
unfoldable pub has_letter_or_digit : Text → Bool
has_letter_or_digit [] = false
has_letter_or_digit (r ∷ rs) = is_alphanumeric r || between 65 90 r || has_letter_or_digit rs

has_alphanumeric-map_text : (h : Text) → has_alphanumeric (map_text h) ≡ has_letter_or_digit h
unfolding has_alphanumeric has_letter_or_digit map_text
has_alphanumeric-map_text [] = refl
has_alphanumeric-map_text (r ∷ rs) = ground (arith, has_alphanumeric-map_text rs)

has_alphanumeric-trim_left :
    (t : Text) → is_clean t ≡ true → has_alphanumeric (trim_left t) ≡ has_alphanumeric t
unfolding has_alphanumeric is_clean trim_left
has_alphanumeric-trim_left [] h = refl
has_alphanumeric-trim_left (r ∷ rs) h = ground (arith, has_alphanumeric-trim_left rs)

is_empty-trim_right :
    (t : Text) → is_clean t ≡ true → is_empty (trim_right t) ≡ not (has_alphanumeric t)
unfolding has_alphanumeric is_clean trim_right
is_empty-trim_right [] h = refl
is_empty-trim_right (r ∷ rs) h = ground (arith, is_empty-trim_right rs)

trimmed : Text → Text
trimmed h = trim_right (trim_left (map_text h))

is_empty-trimmed : (h : Text) → is_empty (trimmed h) ≡ not (has_letter_or_digit h)
unfolding trimmed
is_empty-trimmed h =
    is_empty-trim_right (trim_left (map_text h))
      (is_clean-trim_left (map_text h) (is_clean-map_text h))
    ∙ ap not (
        has_alphanumeric-trim_left (map_text h) (is_clean-map_text h) ∙ has_alphanumeric-map_text h)

is_nodename-trimmed : (h : Text) → is_empty (trimmed h) ≡ false → is_nodename (trimmed h) ≡ true
unfolding trimmed
is_nodename-trimmed h e =
    let c = is_clean-map_text h in
    let left = trim_left (map_text h) in
    let d = is_clean-trim_left (map_text h) c in
    ground (
      arith,
      is_clean-trim_right left d,
      starts_well-trim_right left (starts_well-trim_left (map_text h) c),
      ends_well-trim_right left d,
    )

-- FromHostname fails on exactly the hostnames that have no ASCII letter and no digit.
pub from_hostname_fails : (h : Text) → (from_hostname h ≡ none) ↔ (has_letter_or_digit h ≡ false)
unfolding from_hostname trimmed
from_hostname_fails h =
    (λ e. ground (arith, is_empty-trimmed h), λ e. ground (arith, is_empty-trimmed h))

is_nodename-from_hostname : (h n : Text) → from_hostname h ≡ some n → is_nodename n ≡ true
unfolding from_hostname trimmed
is_nodename-from_hostname h n e = elim (Bool-cases (is_empty (trimmed h))) [
  | inl y ↦ ground arith
  | inr y ↦
      let same : trimmed h ≡ n = ground arith in sym (ap is_nodename same) ∙ is_nodename-trimmed h y
]

from_hostname_same : (h : Text) → is_nodename h ≡ true → from_hostname h ≡ some h
unfolding from_hostname
from_hostname_same h e = ground (arith, map_text_clean h, trim_left_well h, trim_right_well h)

-- What FromHostname returns are lowercase letters, digits, dashes and dots, with a letter or a digit
-- at both ends.  It returns a text unchanged if and only if the text is of that form.
pub from_hostname_lem :
    (h : Text)
    → ((n : Text) → from_hostname h ≡ some n → is_nodename n ≡ true)
      × ((from_hostname h ≡ some h) ↔ (is_nodename h ≡ true))
from_hostname_lem h =
    (is_nodename-from_hostname h, (is_nodename-from_hostname h h, from_hostname_same h))
