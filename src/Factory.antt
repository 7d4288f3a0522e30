-- ===== src/Factory.antt =====
-- Image factories: internal/pkg/factory/enterprise.go and the choice of the factory in
-- internal/pkg/machine/controllers/image_source.go. HTTP and the parsing of URLs are dependencies:
-- the first is an answer for each request that is attempted, with the header `Server`, and the
-- second gives the host of a URL, if it parses.
pub mod Probes
pub mod Sources
use talemu.Prelude.{
  Text, codes, text_eq, contains, Bool, true, false, List, [], ◌∷◌, ◌++◌, Option, none, some,
  if◌then◌else◌,
}
use talemu.Specs.{ImageSpec, MachineConfig}
use talemu.Image.{ImageRef, is_empty, parse_image_ref}

-- EnterpriseChecker: the cache, and the URLs of the requests attempted, newest first.
pub record EnterpriseChecker : Type 0 where
  pub cache : List (Text × Bool)
  pub requests : List Text

-- NewEnterpriseChecker
abbrev pub new_enterprise_checker : EnterpriseChecker
new_enterprise_checker = record { cache = []; requests = [] }

-- What net/http answers to a request, after those attempted before; `none` is an error, of the
-- request or of the transport.
abbrev pub Web : Type 0
Web = List Text → Text → Option Text

unfoldable pub lookup : Text → List (Text × Bool) → Option Bool
lookup k [] = none
lookup k ((j, b) ∷ rest) = if text_eq j k then some b else lookup k rest

-- strings.TrimSuffix(s, "/")
unfoldable pub trim_slash : Text → Text
trim_slash [] = []
trim_slash (x ∷ []) = if text_eq (x ∷ []) (codes "/") then [] else x ∷ []
trim_slash (x ∷ y ∷ ys) = x ∷ trim_slash (y ∷ ys)

-- EnterpriseChecker.IsEnterprise: `none` on an error.
unfoldable pub is_enterprise : Web → Text → EnterpriseChecker → Option Bool × EnterpriseChecker
is_enterprise web base_url checker =
    if is_empty base_url then (some false, checker) else elim (lookup base_url checker.cache) [
      | some enterprise ↦ (some enterprise, checker)
      | none ↦
          (let url = trim_slash base_url ++ codes "/versions" in
            elim (web checker.requests url) [
              | none ↦ (none, record checker { requests = url ∷ checker.requests })
              | some server ↦ (
                some (contains server (codes "Enterprise")),
                record {
                  cache = (base_url, contains server (codes "Enterprise")) ∷ checker.cache;
                  requests = url ∷ checker.requests;
                },
              )
            ])
    ]

-- factoryURLForHost; `host_of` is url.Parse with the field Host.
unfoldable pub factory_url_for_host : (Text → Option Text) → Text → Text → Text
factory_url_for_host host_of host boot_factory_url =
    if is_empty host then [] else elim (host_of boot_factory_url) [
      | none ↦ codes "https://" ++ host
      | some parsed ↦ if text_eq parsed host then boot_factory_url else codes "https://" ++ host
    ]

-- resolveImageSourceURL, for the installed image and the machine's configuration if there are any.
-- The configuration is given by its install image.
unfoldable pub resolve_image_source_url :
    (Text → Option Text) → Option ImageSpec → Option Text → Text → Text → Text
resolve_image_source_url host_of (some image) cfg factory_host boot_factory_url =
    factory_url_for_host host_of image.host boot_factory_url
resolve_image_source_url host_of none (some install_image) factory_host boot_factory_url =
    if is_empty install_image then [] else elim (parse_image_ref factory_host install_image) [
      | none ↦ []
      | some parsed ↦ factory_url_for_host host_of parsed.host boot_factory_url
    ]
resolve_image_source_url host_of none none factory_host boot_factory_url = boot_factory_url
