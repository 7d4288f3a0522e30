-- ===== src/Image.antt =====
-- Image references: internal/pkg/machine/runtime/resources/talos/image.go and pinImageReference of
-- internal/pkg/machine/services/image.go.
pub mod Reference
mod Examples
use talemu.Prelude.{
  ℕ, Text, codes, text_eq, before, after, has_byte, contains, split, last_or, Bool, true, false,
  not, ◌&&◌, List, [], ◌∷◌, ◌++◌, Option, none, some, if◌then◌else◌,
}

-- ImageRef
pub record ImageRef : Type 0 where
  pub host : Text
  pub schematic : Text
  pub version : Text

abbrev pub is_empty {ℓ} : {A : Type ℓ} → List A → Bool
is_empty [] = true
is_empty (x ∷ xs) = false

-- The two assignments under `if` in ParseImageRef, on the parts of the reference.
parsed_ref : Text → Text → List Text → ImageRef
parsed_ref factory_host first rest =
    let last = last_or first rest in
    let host = if is_empty rest then [] else first in
    record {
      host = host;
      schematic = if not (is_empty host) && text_eq host factory_host then before b':' last else [];
      version = after b':' last;
    }

-- ParseImageRef: `none` where it fails, for want of a tag.
unfoldable pub parse_image_ref : Text → Text → Option ImageRef
unfolding parsed_ref
parse_image_ref factory_host image_ref =
    let (first, rest) = split b'/' (before b'@' image_ref) in
    if has_byte b':' (last_or first rest) then some (parsed_ref factory_host first rest) else none

-- pinImageReference
unfoldable pub pin_image_reference : Text → Text → Text
pin_image_reference ref digest = if contains ref (b'@' ∷ []) then ref else ref ++ b'@' ∷ digest
