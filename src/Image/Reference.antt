-- ===== src/Image/Reference.antt =====
-- ParseImageRef on references that are put together from their parts, and on pinned ones.
use talemu.Prelude.{
  ℕ, Text, text_eq, before, has_byte, contains-one, split, last_or, Lacks, Lacks-append,
  before-Lacks, before-append, after-append, has_byte-append, split-append, last-split-append,
  false, not, ◌&&◌, List, [], ◌∷◌, ◌++◌, some, if◌then◌else◌, ◌≡◌, refl, arith, ◌≢◌, Bool-cases,
  inl, inr, text_eq_iff, ◌==◌,
}
use talemu.Image.{ImageRef, is_empty, parsed_ref, parse_image_ref, pin_image_reference}

-- host/dir/name:tag
abbrev pub full_reference : Text → Text → Text → Text → Text
full_reference host dir name tag = host ++ b'/' ∷ (dir ++ b'/' ∷ (name ++ b':' ∷ tag))

Lacks-join :
    (b c : ℕ) (s t : Text) → (c == b) ≡ false → Lacks b s → Lacks b t → Lacks b (s ++ c ∷ t)
unfolding has_byte
Lacks-join b c s t e hs ht = Lacks-append b s (c ∷ t) hs (rw e ht)

-- The parser's view of a reference: its first part, and its last.
parse-parts :
    (factory_host ref first : Text) (rest : List Text) (name tag : Text)
    → Lacks b'@' ref
    → split b'/' ref ≡ (first, rest)
    → last_or first rest ≡ name ++ b':' ∷ tag
    → Lacks b':' name
    → is_empty rest ≡ false
    → parse_image_ref factory_host ref
      ≡ some (record {
        host = first;
        schematic = if not (is_empty first) && text_eq first factory_host then name else [];
        version = tag;
      })
unfolding parse_image_ref
parse-parts factory_host ref first rest name tag p q r s e = rw (
  before-Lacks b'@' ref p,
  q,
  r,
  has_byte-append b':' name tag,
  e,
  before-append b':' name tag s,
  after-append b':' name tag s,
)

pub parse-full_reference :
    (factory_host host dir name tag : Text)
    → Lacks b'/' host
    → Lacks b'@' host
    → Lacks b'@' dir
    → Lacks b'/' name
    → Lacks b'@' name
    → Lacks b':' name
    → Lacks b'/' tag
    → Lacks b'@' tag
    → parse_image_ref factory_host (full_reference host dir name tag)
      ≡ some (record {
        host = host;
        schematic = if not (is_empty host) && text_eq host factory_host then name else [];
        version = tag;
      })
unfolding last_or
parse-full_reference factory_host host dir name tag p q r s t u v w =
    let base = name ++ b':' ∷ tag in
    let tail = dir ++ b'/' ∷ base in
    parse-parts factory_host (full_reference host dir name tag) host
      ((split b'/' tail).0 ∷ (split b'/' tail).1) name tag
      (Lacks-join b'@' b'/' host tail refl q
        (Lacks-join b'@' b'/' dir base refl r (Lacks-join b'@' b':' name tag refl t w)))
      (split-append b'/' host tail p)
      (last-split-append b'/' dir base (split b'/' tail).0 (Lacks-join b'/' b':' name tag refl s v))
      u refl

before-pin : (ref digest : Text) → before b'@' (pin_image_reference ref digest) ≡ before b'@' ref
unfolding pin_image_reference
before-pin ref digest = rw (contains-one b'@' ref) (elim (Bool-cases (has_byte b'@' ref)) [
  | inl e ↦ rw e
  | inr e ↦ rw (e, before-append b'@' ref digest e, before-Lacks b'@' ref e)
])

-- The digest that a pull appends is not seen by the parser.
pub parse-pin :
    (factory_host ref digest : Text)
    → parse_image_ref factory_host (pin_image_reference ref digest)
      ≡ parse_image_ref factory_host ref
unfolding parse_image_ref
parse-pin factory_host ref digest = rw before-pin

-- Pinning again changes nothing.
pub pin-pin :
    (ref digest other : Text)
    → pin_image_reference (pin_image_reference ref digest) other ≡ pin_image_reference ref digest
unfolding pin_image_reference
pin-pin ref digest other = ground (
  arith,
  contains-one b'@' ref,
  contains-one b'@' (ref ++ b'@' ∷ digest),
  has_byte-append b'@' ref digest,
)

parsed_ref-needs_host :
    (factory_host first : Text) (rest : List Text)
    → (parsed_ref factory_host first rest).schematic ≢ []
    → (parsed_ref factory_host first rest).host ≡ factory_host
unfolding parsed_ref
parsed_ref-needs_host factory_host first rest n = ground (arith, text_eq_iff first factory_host)

-- Only a reference on the factory's own host names a schematic.
pub schematic-needs_host :
    (factory_host ref : Text) {parsed : ImageRef}
    → parse_image_ref factory_host ref ≡ some parsed
    → parsed.schematic ≢ []
    → parsed.host ≡ factory_host
unfolding parse_image_ref
schematic-needs_host factory_host ref h n =
    let parts = split b'/' (before b'@' ref) in
    ground (arith, parsed_ref-needs_host factory_host parts.0 parts.1)
