-- ===== src/Factory/Sources.antt =====
-- Which factory a machine's image comes from.
use talemu.Prelude.{
  Text, split, before, has_byte, last_or, false, [], ◌∷◌, Option, none, some, ◌≡◌, refl, arith,
}
use talemu.Specs.{ImageSpec}
use talemu.Image.{ImageRef, is_empty, parse_image_ref}
use talemu.Service.Installer.{assign_image}
use talemu.Factory.{resolve_image_source_url}

-- A reference without a tag, such as the empty one, does not parse.
parse-nonempty :
    (factory_host ref : Text) {parsed : ImageRef}
    → parse_image_ref factory_host ref ≡ some parsed
    → is_empty ref ≡ false
unfolding parse_image_ref split before has_byte last_or
parse-nonempty factory_host [] h = cc
parse-nonempty factory_host (x ∷ xs) h = refl

-- Installing does not change where the image comes from: with an install image that parses, the
-- factory that the configuration gives before the install is the one that the installed image gives
-- after it, whatever the configuration is by then.
pub resolve-assign_image :
    (host_of : Text → Option Text) (factory_host boot_factory_url ref : Text) (parsed : ImageRef)
    (image : ImageSpec) (cfg : Option Text)
    → parse_image_ref factory_host ref ≡ some parsed
    → resolve_image_source_url host_of
        (some (assign_image parsed image).0)
        cfg
        factory_host
        boot_factory_url
      ≡ resolve_image_source_url host_of none (some ref) factory_host boot_factory_url
unfolding resolve_image_source_url assign_image
resolve-assign_image host_of factory_host boot_factory_url ref parsed image cfg h =
    ground (arith, parse-nonempty factory_host ref h)
