-- ===== src/Service/Meta.antt =====
-- The META partition and the image cache: MetaWrite, MetaDelete and ImagePull of
-- internal/pkg/machine/services/machined.go, and Pull of
-- internal/pkg/machine/services/image.go. The texts of the meta keys' tags, the tag of the UUID
-- override and the digest of a reference are dependencies, and enter as arguments.
pub mod Writes
pub mod Cache
use talemu.Prelude.{
  ℕ, ◌%◌, ◌^◌, Text, codes, has_suffix, Bool, true, false, not, List, [], ◌∷◌, Option, none, some,
  ◌==◌, if◌then◌else◌,
}
use talemu.Cosi.{is_not_found, is_conflict, Outcome, ok, err, Resource, State}
use talemu.Specs.{CachedImage}
use talemu.Image.{is_empty, pin_image_reference}
use talemu.Service.{
  invalid_argument, not_found, status, state_error, Fault, Result, Machine, Action, done, fault,
  ◌>>=◌, ◌>>◌, pure, raise, read, write,
}
use talemu.Service.Installer.{destroy_resource}

-- runtime.MetaKeyTagToID on a uint8, and meta.UUIDOverride
pub record MetaTags : Type 0 where
  pub id : ℕ → Text
  pub uuid_override : ℕ

-- runtime.NewUniqueMachineToken and hardware.SystemInformationID
abbrev pub token_id : Text
token_id = codes "unique-machine-token"

abbrev pub system_information_id : Text
system_information_id = codes "systeminformation"

-- The ID of the key of a request, whose number is a uint32.
abbrev pub key_id : MetaTags → ℕ → Text
key_id tags k = tags.id (k % 2 ^ 8)

module _ {s : State} where
  -- createOrUpdateUniqueToken
  unfoldable pub create_or_update_unique_token : Text → Action s (Unit {0})
  create_or_update_unique_token value w = elim (s.get w.tokens token_id) [
    | ok _ ↦
        (let (r, c) = s.update w.tokens token_id (λ _. ok value) in
          elim r [
            | ok _ ↦ pure tt (record w { tokens = c })
            | err e ↦ raise (state_error e) (record w { tokens = c })
          ])
    | err e ↦
        if not (is_not_found e)
        then raise (state_error e) w
        else (let (r, c) = s.create w.tokens token_id value in
            elim r [
              | ok _ ↦ pure tt (record w { tokens = c })
              | err e' ↦ raise (state_error e') (record w { tokens = c })
            ])
  ]

  -- overrideNodeUUID
  unfoldable pub override_node_uuid : Text → Action s (Unit {0})
  override_node_uuid uuid w =
      let (r, c) = s.update w.system_information system_information_id (λ _. ok uuid) in
      elim r [
        | ok _ ↦ pure tt (record w { system_information = c })
        | err e ↦ raise (state_error e) (record w { system_information = c })
      ]

  -- The end of MetaWrite: the key is created, or updated where it is there.
  unfoldable pub put_meta_key : Text → Text → Action s (Unit {0})
  put_meta_key id value w =
      let (made, c) = s.create w.meta_keys id value in
      let (set, c') = s.update c id (λ _. ok value) in
      elim made [
        | ok _ ↦ pure tt (record w { meta_keys = c })
        | err e ↦
            if not (is_conflict e)
            then raise (state_error e) (record w { meta_keys = c })
            else elim set [
              | ok _ ↦ pure tt (record w { meta_keys = c' })
              | err e' ↦ raise (state_error e') (record w { meta_keys = c' })
            ]
      ]

  -- MetaWrite
  unfoldable pub meta_write : MetaTags → ℕ → Text → Action s (Unit {0})
  meta_write tags k value = do
    (if k == 16 then create_or_update_unique_token value else pure tt)
    (if k == tags.uuid_override then override_node_uuid value else pure tt)
    put_meta_key (key_id tags k) value

  -- MetaDelete
  unfoldable pub meta_delete : MetaTags → ℕ → Action s (Unit {0})
  meta_delete tags k w =
      let (r, c) = destroy_resource s w.meta_keys (key_id tags k) in
      elim r [
        | ok _ ↦ pure tt (record w { meta_keys = c })
        | err e ↦
            if not (is_not_found e)
            then raise (state_error e) (record w { meta_keys = c })
            else raise (status not_found) (record w { meta_keys = c })
      ]

  -- cacheImage: `digest` makes the text of the reference's SHA-256 sum.
  unfoldable pub cache_image : (Text → Text) → Text → Action s Text
  cache_image digest ref w =
      let (made, c) = s.create w.cached_images ref (record { digest = digest ref; size = 1024 }) in
      if has_suffix ref (codes "-bad") then raise (status not_found) w else elim made [
        | ok _ ↦ pure (digest ref) (record w { cached_images = c })
        | err e ↦
            if not (is_conflict e)
            then raise (state_error e) (record w { cached_images = c })
            else pure (digest ref) (record w { cached_images = c })
      ]

  -- ImageService.Pull, up to the send of its one response
  unfoldable pub pull : (Text → Text) → Text → Action s Text
  pull digest ref = do
    (if is_empty ref then raise (status invalid_argument) else pure tt)
    d ← cache_image digest ref
    pure (pin_image_reference ref d)

  -- MachineService.ImagePull
  unfoldable pub image_pull : (Text → Text) → Text → Action s (Unit {0})
  image_pull digest ref = do cache_image digest ref; pure tt
