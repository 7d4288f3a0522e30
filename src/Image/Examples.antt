-- ===== src/Image/Examples.antt =====
-- Image references, on examples.
use talemu.Prelude.{codes, ◌≡◌, refl, some, none, before, after, has_byte, split, last_or, text_eq}
use talemu.Image.{parse_image_ref}

parse_tag :
    parse_image_ref (codes "f.dev") (codes "f.dev/installer/abc:v1.9@sha256:0")
    ≡ some (record { host = codes "f.dev"; schematic = codes "abc"; version = codes "v1.9" })
unfolding parse_image_ref before after has_byte split last_or text_eq
parse_tag = refl

parse_no_host :
    parse_image_ref (codes "f.dev") (codes "abc:v1.9")
    ≡ some (record { host = codes ""; schematic = codes ""; version = codes "v1.9" })
unfolding parse_image_ref before after has_byte split last_or text_eq
parse_no_host = refl

parse_no_tag : parse_image_ref (codes "f.dev") (codes "f.dev/a:1/abc") ≡ none
unfolding parse_image_ref before after has_byte split last_or text_eq
parse_no_tag = refl
