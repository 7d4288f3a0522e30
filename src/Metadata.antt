-- ===== src/Metadata.antt =====
-- gRPC metadata (metadata.MD), as the interceptors and the router read it: values under keys.
use talemu.Prelude.{Text, text_eq, List, [], ◌∷◌, Option, none, some, if◌then◌else◌}

abbrev pub Metadata : Type 0
Metadata = List (Text × List Text)

-- `v, ok := md[key]`
unfoldable pub lookup : Text → Metadata → Option (List Text)
lookup k [] = none
lookup k ((j, v) ∷ md) = if text_eq j k then some v else lookup k md

-- `md[key]`, which is empty where the key is absent.
abbrev pub or_empty : Option (List Text) → List Text
or_empty none = []
or_empty (some v) = v
