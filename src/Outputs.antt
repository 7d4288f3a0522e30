-- ===== src/Outputs.antt =====
-- How a controller keeps its output resources: it writes those that it wants, and then destroys the
-- others that it owns. The controllers of internal/pkg/machine/controllers share this shape;
-- `cleanup` is cleanupAffiliates of discovery_service.go. The client of the resources, seen at one
-- resource type, is a dependency.
pub mod Reconcile
use talemu.Prelude.{
  Text, text_eq, Bool, true, false, not, ◌&&◌, List, [], ◌∷◌, map, Option, none, some,
  if◌then◌else◌,
}

-- A resource: its ID, whether its owner is the controller, and its spec.
pub record Entry (A : Type 0) : Type 0 where
  pub id : Text
  pub mine : Bool
  pub spec : A

-- controller.Runtime at one resource type: safe.ReaderListAll, safe.WriterModify with a callback
-- that sets the spec, and Destroy. False is an error.
pub record Store (A : Type 0) : Type 1 where
  pub State : Type 0
  pub list : State → Option (List (Entry A))
  pub write : Text → A → State → State × Bool
  pub destroy : Text → State → State × Bool

abbrev pub is_touched : Text → List Text → Bool
is_touched i [] = false
is_touched i (j ∷ js) = let rest = is_touched i js in if text_eq j i then true else rest

module _ {A : Type 0} (store : Store A) where
  -- `if err := ...; err != nil { return err }`
  abbrev pub attempt : store.State × Bool → (store.State → store.State × Bool) → store.State × Bool
  attempt (s, true) rest = rest s
  attempt (s, false) rest = (s, false)

  -- The loop that writes.
  unfoldable pub write_all : List (Text × A) → store.State → store.State × Bool
  write_all [] s = (s, true)
  write_all (d ∷ ds) s = attempt (store.write d.0 d.1 s) (write_all ds)

  -- cleanupAffiliates: the loop
  unfoldable pub destroy_untouched : List Text → List (Entry A) → store.State → store.State × Bool
  destroy_untouched touched [] s = (s, true)
  destroy_untouched touched (e ∷ es) s =
      let skipped = destroy_untouched touched es s in
      let destroyed = attempt (store.destroy e.id s) (destroy_untouched touched es) in
      if not e.mine then skipped else if is_touched e.id touched then skipped else destroyed

  -- cleanupAffiliates
  unfoldable pub cleanup : List Text → store.State → store.State × Bool
  unfolding destroy_untouched
  cleanup touched s = elim (store.list s) [
    | none ↦ (s, false)
    | some es ↦ destroy_untouched touched es s
  ]

  -- Both, where the resources wanted are known beforehand.
  unfoldable pub reconcile : List (Text × A) → store.State → store.State × Bool
  unfolding write_all cleanup
  reconcile wanted s = attempt (write_all wanted s) (cleanup (map (λ d. d.0) wanted))
