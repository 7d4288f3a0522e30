-- ===== src/Director.antt =====
-- The router of apid: internal/pkg/machine/services/apid/pkg/director/director.go. The backends and
-- the factory that connects to a node are dependencies: the type `B` and the argument `connect`,
-- which fails with `none`.
pub mod Routes
pub mod LocalAddress
use talemu.Prelude.{
  Text, codes, has_prefix, Bool, true, false, not, List, [], ◌∷◌, Option, none, some, is_some,
  if◌then◌else◌,
}
use talemu.Metadata.{Metadata, lookup, or_empty}
use talemu.Service.{Code, invalid_argument, unimplemented, internal}

-- proxy.Mode
pub data Mode : Type 0 where
  one_to_one one_to_many : Mode

-- What Director returns: a mode with backends, or a mode with an error.
pub data Routing (B : Type 0) : Type 0 where
  route : Mode → List B → Routing B
  refuse : Mode → Code → Routing B

-- Router; `is_local_target` is the method of its LocalAddressProvider.
pub record Router (B : Type 0) : Type 0 where
  pub local_backend : B
  pub connect : Text → Option B
  pub is_local_target : Text → Bool
  pub node_proxying_disabled : Bool

abbrev pub is_cosi : Text → Bool
is_cosi method = has_prefix method (codes "/cosi.")

abbrev is_single : List Text → Bool
is_single (t ∷ []) = true
is_single _ = false

module _ {B : Type 0} where
  -- The loop over the targets: it stops at the first that fails.
  unfoldable pub connect_all : (Text → Option B) → List Text → Option (List B)
  connect_all connect [] = some []
  connect_all connect (t ∷ ts) =
      let rest = connect_all connect ts in
      elim (connect t) [
        | none ↦ none
        | some b ↦ elim rest [ none ↦ none | some bs ↦ some (b ∷ bs) ]
      ]

  -- aggregateDirector, and the end of directAccessDirector.
  unfoldable pub aggregate_director : Router B → List Text → Routing B
  aggregate_director r targets = elim (connect_all r.connect targets) [
    | none ↦ refuse one_to_many internal
    | some backends ↦ route one_to_many backends
  ]

  -- singleDirector
  unfoldable pub single_director : Router B → Text → Routing B
  single_director r target = elim (r.connect target) [
    | none ↦ refuse one_to_one internal
    | some backend ↦ route one_to_one (backend ∷ [])
  ]

  -- len(nodes) == 1 && !IsLocalTarget(nodes[0])
  abbrev pub is_foreign_single : Router B → List Text → Bool
  is_foreign_single r [] = false
  is_foreign_single r (t ∷ []) = not (r.is_local_target t)
  is_foreign_single r (t ∷ u ∷ ts) = false

  -- directAccessDirector
  unfoldable pub direct_access_director : Router B → Metadata → Text → Routing B
  direct_access_director r md method =
      if is_some (lookup (codes "node") md)
      then refuse one_to_one unimplemented
      else elim (or_empty (lookup (codes "nodes") md)) [
        | [] ↦ route one_to_one (r.local_backend ∷ [])
        | t ∷ ts ↦
            if is_foreign_single r (t ∷ ts)
            then refuse one_to_one invalid_argument
            else if is_cosi method
            then refuse one_to_one invalid_argument
            else aggregate_director r (t ∷ ts)
      ]

  -- The switch of proxyDirector, on what the two keys hold.
  unfoldable pub proxy_switch :
      Router B → Option (List Text) → Option (List Text) → Text → Routing B
  proxy_switch r (some nodes) _ method =
      if is_cosi method then refuse one_to_one invalid_argument else aggregate_director r nodes
  proxy_switch r none (some (t ∷ ts)) method = single_director r t
  proxy_switch r none (some []) method = refuse one_to_one invalid_argument
  proxy_switch r none none method = route one_to_one (r.local_backend ∷ [])

  -- proxyDirector
  unfoldable pub proxy_director : Router B → Metadata → Text → Routing B
  proxy_director r md method = elim (lookup (codes "node") md) [
    | none ↦ proxy_switch r (lookup (codes "nodes") md) none method
    | some node ↦
        if not (is_single node)
        then refuse one_to_one invalid_argument
        else proxy_switch r (lookup (codes "nodes") md) (some node) method
  ]

  -- Director, on the metadata of the incoming context, if it has any.
  unfoldable pub director : Router B → Option Metadata → Text → Routing B
  director r none method = route one_to_one (r.local_backend ∷ [])
  director r (some md) method =
      if is_some (lookup (codes "proxyfrom") md)
      then route one_to_one (r.local_backend ∷ [])
      else if r.node_proxying_disabled
      then direct_access_director r md method
      else proxy_director r md method
