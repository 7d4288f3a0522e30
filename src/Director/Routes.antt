-- ===== src/Director/Routes.antt =====
-- Where the router sends a call.
use talemu.Prelude.{
  Text, codes, true, false, List, [], ◌∷◌, Option, none, some, is_some, Option-cases, Bool-cases,
  ◌≡◌, ◌≢◌, ◌⊎◌, inl, inr, arith,
}
use talemu.Metadata.{Metadata, lookup}
use talemu.Director.{
  one_to_one, one_to_many, route, Router, connect_all, aggregate_director, single_director,
  direct_access_director, proxy_switch, proxy_director, director, is_cosi, is_foreign_single,
}

module _ {B : Type 0} (r : Router B) where
  -- A call that was forwarded already, or that has no metadata, is served by this node whatever
  -- else its metadata asks for and in either mode of the router.
  pub director_stops :
      (md : Option Metadata) (method : Text)
      → (md ≡ none)
        ⊎ ((m : Metadata) × (md ≡ some m) × (is_some (lookup (codes "proxyfrom") m) ≡ true))
      → director r md method ≡ route one_to_one (r.local_backend ∷ [])
  unfolding director
  director_stops md method h = ground arith

  -- No COSI method is ever proxied to many nodes, in either mode of the router.
  pub cosi_not_aggregated :
      (md : Option Metadata) (method : Text) (backends : List B)
      → is_cosi method ≡ true
      → director r md method ≢ route one_to_many backends
  unfolding director direct_access_director proxy_director proxy_switch single_director
  cosi_not_aggregated md method backends h e = ground arith

  -- The backends of some targets, one for one and in order.
  abbrev pub Connects : List Text → List B → Type 0
  Connects [] [] = Unit
  Connects (t ∷ ts) (b ∷ bs) = (r.connect t ≡ some b) × Connects ts bs
  Connects _ _ = ⊥

  connect_all-Connects :
      (ts : List Text) (bs : List B) → connect_all r.connect ts ≡ some bs → Connects ts bs
  unfolding connect_all
  connect_all-Connects [] [] h = tt
  connect_all-Connects [] (b ∷ bs) h = cc
  connect_all-Connects (t ∷ ts) [] h = ground arith
  connect_all-Connects (t ∷ ts) (b ∷ bs) h = ground (arith, connect_all-Connects ts bs)

  backends_of :
      (nodes : List Text) (backends : List B)
      → aggregate_director r nodes ≡ route one_to_many backends
      → Connects nodes backends
  unfolding aggregate_director
  backends_of nodes backends h = connect_all-Connects nodes backends (ground arith)

  single_local :
      (nodes : List Text) (t : Text)
      → is_foreign_single r nodes ≡ false
      → nodes ≡ t ∷ []
      → r.is_local_target t ≡ true
  single_local nodes t h same = elim (Bool-cases (r.is_local_target t)) [
    | inl e ↦ e
    | inr e ↦ absurd (ground arith)
  ]

  direct_targets :
      (m : Metadata) (method : Text) (backends : List B)
      → direct_access_director r m method ≡ route one_to_many backends
      → (nodes : List Text) × (lookup (codes "nodes") m ≡ some nodes)
        × (aggregate_director r nodes ≡ route one_to_many backends)
        × (nodes ≢ [])
        × ((t : Text) → nodes ≡ t ∷ [] → r.is_local_target t ≡ true)
  unfolding direct_access_director
  direct_targets m method backends h = elim (Option-cases (lookup (codes "nodes") m)) [
    | inl e ↦ absurd (ground arith)
    | inr (nodes, e) ↦
        let local : is_foreign_single r nodes ≡ false = ground arith in
        (nodes, e, ground arith, ground arith, (λ t same. single_local nodes t local same))
  ]

  proxy_targets :
      (m : Metadata) (method : Text) (backends : List B)
      → proxy_director r m method ≡ route one_to_many backends
      → (nodes : List Text) × (lookup (codes "nodes") m ≡ some nodes)
        × (aggregate_director r nodes ≡ route one_to_many backends)
  unfolding proxy_director proxy_switch single_director
  proxy_targets m method backends h = elim (Option-cases (lookup (codes "nodes") m)) [
    | inl e ↦ absurd (ground arith)
    | inr (nodes, e) ↦ (nodes, e, ground arith)
  ]

  -- A call that is proxied to many nodes has one backend for each entry of the `nodes` metadata, in
  -- that order, each connected to its entry; and with node proxying disabled there is at least one
  -- entry, and a single one is a local target by the router's own
  -- test of targets.
  pub aggregated_targets :
      (m : Metadata) (method : Text) (backends : List B)
      → director r (some m) method ≡ route one_to_many backends
      → (nodes : List Text) × (lookup (codes "nodes") m ≡ some nodes)
        × Connects nodes backends
        × (r.node_proxying_disabled ≡ true
            → (nodes ≢ []) × ((t : Text) → nodes ≡ t ∷ [] → r.is_local_target t ≡ true))
  unfolding director
  aggregated_targets m method backends h = elim (Bool-cases r.node_proxying_disabled) [
    | inl e ↦
        let found = direct_targets m method backends (ground arith) in
        (found.0, found.1, backends_of found.0 backends found.2, (λ _. (found.3, found.4)))
    | inr e ↦
        let found = proxy_targets m method backends (ground arith) in
        (found.0, found.1, backends_of found.0 backends found.2, (λ d. absurd (cc)))
  ]

  -- A call goes to one other node only with node proxying enabled, and then to the single value of
  -- its `node` metadata, where it has no `nodes`.
  pub single_target :
      (m : Metadata) (method : Text) (b : B)
      → director r (some m) method ≡ route one_to_one (b ∷ [])
      → b ≢ r.local_backend
      → (target : Text) × (r.node_proxying_disabled ≡ false)
        × (lookup (codes "nodes") m ≡ none)
        × (lookup (codes "node") m ≡ some (target ∷ []))
        × (r.connect target ≡ some b)
  unfolding director direct_access_director proxy_director proxy_switch single_director
      aggregate_director
  single_target m method b h n = elim (Option-cases (lookup (codes "node") m)) [
    | inl e ↦ absurd (ground arith)
    | inr ([], e) ↦ absurd (ground arith)
    | inr (t ∷ ts, e) ↦ (t, ground arith, ground arith, ground arith, ground arith)
  ]
