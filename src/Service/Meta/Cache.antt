-- ===== src/Service/Meta/Cache.antt =====
-- Pull and ImagePull.
use talemu.Prelude.{Text, codes, has_suffix, false, ◌≡◌, inl, inr, arith}
use talemu.Cosi.{ok, Resource, fresh, State, IsState, IsReadable}
use talemu.Cosi.Laws.{create_self}
use talemu.Specs.{CachedImage}
use talemu.Image.{is_empty, pin_image_reference}
use talemu.Service.{Machine, done}
use talemu.Service.Meta.{cache_image, pull, image_pull}

module _ {s : State} (laws : IsState s) where
  cache_image_lem :
      (digest : Text → Text) (ref : Text) (w : Machine s)
      → has_suffix ref (codes "-bad") ≡ false
      → IsReadable s w.cached_images ref
      → (c : s.Coll CachedImage) × (r : Resource CachedImage) × (cache_image digest ref w
          ≡ (done (digest ref), record w { cached_images = c }))
        × (s.get c ref ≡ ok r)
  unfolding cache_image
  cache_image_lem digest ref w good (inl h) =
      let new : CachedImage = record { digest = digest ref; size = 1024 } in
      let made = create_self laws w.cached_images ref new h in
      ((s.create w.cached_images ref new).1, fresh ref new, ground (arith, made), made.1)
  cache_image_lem digest ref w good (inr (r, h)) =
      let new : CachedImage = record { digest = digest ref; size = 1024 } in
      (
        w.cached_images,
        r,
        ground (arith, laws.create_present CachedImage w.cached_images ref new h),
        h,
      )

  cache_image_again :
      (digest : Text → Text) (ref : Text) (w : Machine s) {r : Resource CachedImage}
      → has_suffix ref (codes "-bad") ≡ false
      → s.get w.cached_images ref ≡ ok r
      → cache_image digest ref w ≡ (done (digest ref), w)
  unfolding cache_image
  cache_image_again digest ref w good h =
      let new : CachedImage = record { digest = digest ref; size = 1024 } in
      ground (arith, laws.create_present CachedImage w.cached_images ref new h)

  pull_lem :
      (digest : Text → Text) (ref : Text) (w w' : Machine s)
      → is_empty ref ≡ false
      → cache_image digest ref w ≡ (done (digest ref), w')
      → (pull digest ref w ≡ (done (pin_image_reference ref (digest ref)), w'))
        × (image_pull digest ref w ≡ (done tt, w'))
  unfolding pull image_pull
  pull_lem digest ref w w' nonempty run = (ground arith, ground arith)

  -- Two pulls of a reference that is not empty and does not end in "-bad" both succeed with the
  -- same reference, pinned to the digest, where the cache can be read; the second leaves the machine as the first left it, with
  -- the image in the cache. A pull through the machine service does the same to the machine.
  pub pull-pull :
      (digest : Text → Text) (ref : Text) (w : Machine s)
      → is_empty ref ≡ false
      → has_suffix ref (codes "-bad") ≡ false
      → IsReadable s w.cached_images ref
      → (w' : Machine s) × (r : Resource CachedImage) × (pull digest ref w
          ≡ (done (pin_image_reference ref (digest ref)), w'))
        × (pull digest ref w' ≡ (done (pin_image_reference ref (digest ref)), w'))
        × (image_pull digest ref w ≡ (done tt, w'))
        × (s.get w'.cached_images ref ≡ ok r)
  pull-pull digest ref w nonempty good readable =
      let (c, r, run, got) = cache_image_lem digest ref w good readable in
      let w' = record w { cached_images = c } in
      let first = pull_lem digest ref w w' nonempty run in
      let second = pull_lem digest ref w' w' nonempty (cache_image_again digest ref w' good got) in
      (w', r, first.0, second.0, first.1, got)
