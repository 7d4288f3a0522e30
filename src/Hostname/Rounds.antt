-- ===== src/Hostname/Rounds.antt =====
-- HostnameConfigController.Run with apply, of
-- internal/pkg/machine/controllers/hostname_config.go: a round writes its specs under the IDs of
-- their layers, and cleans up the others that the controller owns. The IDs are a dependency.
use talemu.Prelude.{arith, ℕ, Text, Bool, true, false, List, map, Option, ◌≡◌}
use talemu.Outputs.{Entry, Store, reconcile}
use talemu.Outputs.Reconcile.{expected, AreFree, IsStore, reconcile-expected}
use talemu.Hostname.{HostnameSpec, Layers, HostnameReads, refused, waits, specs, specs_of}

module _ (layered_id : ℕ → Text) where
  abbrev pub layered : List HostnameSpec → List (Text × HostnameSpec)
  layered xs = map (λ x. (layered_id x.layer, x)) xs

  -- HostnameConfigController.Run: one round. False is an error.
  unfoldable pub config_round :
      (store : Store HostnameSpec) → Layers → HostnameReads → store.State → store.State × Bool
  config_round store layers reads s = elim (specs_of layers reads) [
    | refused ↦ (s, false)
    | waits ↦ (s, true)
    | specs xs ↦ reconcile store (layered xs) s
  ]

  -- Where no call fails, a round with specs leaves them and the specs of other controllers.  This
  -- assumes that no other controller owns a spec with one of the IDs.
  config_round_lem :
      (store : Store HostnameSpec) (view : store.State → Text → Option (Entry HostnameSpec))
      → IsStore store view
      → (layers : Layers) (reads : HostnameReads) (s : store.State) (xs : List HostnameSpec)
      → specs_of layers reads ≡ specs xs
      → AreFree (layered xs) (view s)
      → let end = config_round store layers reads s in
        (end.1 ≡ true) × ((i : Text) → view end.0 i ≡ expected (layered xs) (view s) i)
  unfolding config_round
  config_round_lem store view works layers reads s xs e f =
      let eq : config_round store layers reads s ≡ reconcile store (layered xs) s =
        ground (arith, e) in
      rw eq (reconcile-expected store view works (layered xs) s f)
