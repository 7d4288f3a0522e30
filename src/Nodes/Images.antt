-- ===== src/Nodes/Images.antt =====
-- The versions that a node reports of its images.
use talemu.Prelude.{Text, ◌++◌, ◌∷◌, ◌≡◌, Lacks, after-append}
use talemu.Nodes.{get_image_version}

-- Of a reference the version is all that follows the first colon: the tag, where the name has no
-- colon, and where the registry has a port, the port, the path and the tag.
pub get_image_version_lem :
    (registry rest tag : Text)
    → Lacks 58 registry
    → (get_image_version (registry ++ 58 ∷ tag) ≡ tag)
      × (get_image_version (registry ++ 58 ∷ (rest ++ 58 ∷ tag)) ≡ rest ++ 58 ∷ tag)
unfolding get_image_version
get_image_version_lem registry rest tag h =
    (after-append 58 registry tag h, after-append 58 registry (rest ++ 58 ∷ tag) h)
