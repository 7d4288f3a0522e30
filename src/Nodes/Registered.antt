-- ===== src/Nodes/Registered.antt =====
-- Rounds of the node controller whose reads succeed.
use talemu.Prelude.{
  ℕ, Text, text_eq, text_eq_refl, Bool, true, false, Option, none, some, if◌then◌else◌, ◌≡◌, ◌≢◌,
  refl, ap, sym, ◌∙◌, ◌⊎◌, inl, inr, arith, Bool-cases, ℕ_discrete,
}
use talemu.Cosi.{ok, err, not_found}
use talemu.Image.{is_empty}
use talemu.Nodes.{Labels, machine_id_label, input_version_label, NodeSpec, NodeStatus}
use talemu.Nodes.Rounds.{
  Node, Api, Nodename, has_label, is_other, World, remove_others, and_then_nodes, register,
}

-- What the documentation of Kubernetes promises where no call fails: an update must have the version
-- that the node has, a node that an update changes has another version, and the update of a node
-- leaves its status as it is.
pub record IsApi (api : Api) (view : api.State → Text → Option Node) : Type 0 where
  pub gets :
      (cl : api.Client) (n : Text) (s : api.State)
      → api.get cl n s ≡ elim (view s n) [ none ↦ err not_found | some x ↦ ok x ]
  pub names : (s : api.State) (n : Text) (x : Node) → view s n ≡ some x → x.name ≡ n
  pub creates :
      (cl : api.Client) (x : Node) (s : api.State)
      → view s x.name ≡ none
      → ((api.create cl x s).1 ≡ true)
        × ((v : Option ℕ) × ((j : Text)
              → view (api.create cl x s).0 j
                ≡ (if text_eq x.name j then some (record x { version = v }) else view s j)))
  pub updates_status :
      (cl : api.Client) (x y : Node) (s : api.State)
      → view s x.name ≡ some y
      → y.version ≡ x.version
      → ((api.update_status cl x s).1 ≡ true)
        × ((v : Option ℕ) × ((j : Text)
              → view (api.update_status cl x s).0 j ≡ (
                  if text_eq x.name j
                  then some (record y { status = x.status; version = v })
                  else view s j))
            × (y.status ≡ x.status → v ≡ y.version)
            × (y.status ≢ x.status → v ≢ y.version))
  pub updates :
      (cl : api.Client) (x y : Node) (s : api.State)
      → view s x.name ≡ some y
      → y.version ≡ x.version
      → ((api.update cl x s).1 ≡ true)
        × ((v : Option ℕ) × ((j : Text)
              → view (api.update cl x s).0 j ≡ (
                  if text_eq x.name j
                  then some (record y { labels = x.labels; spec = x.spec; version = v })
                  else view s j)))
  pub conflicts :
      (cl : api.Client) (x y : Node) (s : api.State)
      → view s x.name ≡ some y
      → y.version ≢ x.version
      → api.update cl x s ≡ (s, false)
  pub deletes :
      (cl : api.Client) (machine version : Text) (s : api.State)
      → ((api.delete_collection cl machine version s).1 ≡ true)
        × ((j : Text)
            → view (api.delete_collection cl machine version s).0 j ≡ elim (view s j) [
              | none ↦ none
              | some x ↦ if is_other machine version x then none else some x
            ])

-- A node of the name has the status and the labels, and no node of the machine has another input
-- version.
abbrev pub IsRegistered :
    (view : Text → Option Node) → Text → Nodename → NodeStatus → Labels → Type 0
IsRegistered view machine n status labels =
    ((x : Node) × (view n.name ≡ some x) × (x.status ≡ status) × (x.labels ≡ labels))
    × ((j : Text) (y : Node)
        → view j ≡ some y
        → has_label machine_id_label machine y.labels ≡ true
        → has_label input_version_label n.version y.labels ≡ true)

abbrev get_or : ℕ → Option ℕ → ℕ
get_or a none = a
get_or a (some m) = m

abbrev labels_of : Node → Option Node → Labels
labels_of x none = x.labels
labels_of x (some y) = y.labels

nat_option_cases : (a b : Option ℕ) → (a ≡ b) ⊎ (a ≢ b)
nat_option_cases none none = inl refl
nat_option_cases none (some b) = inr (λ e. cc)
nat_option_cases (some a) none = inr (λ e. cc)
nat_option_cases (some a) (some b) = elim (ℕ_discrete a b) [
  | yes e ↦ inl (ap (λ n. some n) e)
  | no d ↦ inr (λ e. d (ap (λ o. get_or a o) e))
]

not_other_lem :
    (machine version : Text) (o : Option Node) (y : Node)
    → elim o [ none ↦ none | some x ↦ if is_other machine version x then none else some x ] ≡ some y
    → has_label machine_id_label machine y.labels ≡ true
    → has_label input_version_label version y.labels ≡ true
not_other_lem machine version none y e h = cc
not_other_lem machine version (some x) y e h = elim (Bool-cases (is_other machine version x)) [
  | inl z ↦ ground arith
  | inr z ↦
      let got : some x ≡ some y = ground (arith, e, z) in
      let same = ap (λ o. labels_of x o) got in
      ground (
        arith,
        z,
        h,
        ap (λ ls. has_label machine_id_label machine ls) same,
        ap (λ ls. has_label input_version_label version ls) same,
      )
]

module _ (api : Api) where
  and_then_nodes_lem :
      (w : World api) (r : api.State × Bool) (rest : World api → World api × Bool)
      → r.1 ≡ true
      → and_then_nodes api w r rest ≡ rest (record w { nodes = r.0 })
  and_then_nodes_lem w (s, true) rest h = refl
  and_then_nodes_lem w (s, false) rest h = cc

module _ (api : Api) (view : api.State → Text → Option Node) (laws : IsApi api view) where
  -- The cleanup of the others, after a write.
  remove_others_lem :
      (machine : Text) (n : Nodename) (cl : api.Client) (w : World api) (status : NodeStatus)
      (labels : Labels) (x : Node)
      → view w.nodes n.name ≡ some x
      → x.status ≡ status
      → x.labels ≡ labels
      → has_label input_version_label n.version labels ≡ true
      → (s : api.State) × (remove_others api machine n cl w ≡ (record w { nodes = s }, true))
        × IsRegistered (view s) machine n status labels
  unfolding remove_others
  remove_others_lem machine n cl w status labels x e p q l =
      let (done, left) = laws.deletes cl machine n.version w.nodes in
      (
        (api.delete_collection cl machine n.version w.nodes).0,
        and_then_nodes_lem api w (api.delete_collection cl machine n.version w.nodes)
            (λ w'. (w', true)) done,
        (
          (
            x,
            ground (
              arith,
              left n.name,
              e,
              ap (λ ls. has_label input_version_label n.version ls) q ∙ l,
            ),
            p,
            q,
          ),
          λ j y f. not_other_lem machine n.version (view w.nodes j) y (sym (left j) ∙ f),
        ),
      )

  -- The first write of a node.
  pub register_new :
      (machine : Text) (n : Nodename) (spec : NodeSpec) (status : NodeStatus) (labels : Labels)
      (cl : api.Client) (w : World api)
      → view w.nodes n.name ≡ none
      → has_label input_version_label n.version labels ≡ true
      → (s : api.State) × (register api machine n spec status labels cl w
          ≡ (record w { nodes = s }, true))
        × IsRegistered (view s) machine n status labels
  unfolding register
  register_new machine n spec status labels cl w e l =
      let x : Node = record {
        name = n.name;
        labels = labels;
        spec = spec;
        status = status;
        version = none;
      } in
      let (done, (v, now)) = laws.creates cl x w.nodes e in
      let w' : World api = record w { nodes = (api.create cl x w.nodes).0 } in
      let (s, eq, registered) =
        remove_others_lem machine n cl w' status labels (record x { version = v })
          (ground (arith, now n.name, text_eq_refl n.name)) refl refl l in
      (
        s,
        ground (
          arith,
          laws.gets cl n.name w.nodes,
          e,
          and_then_nodes_lem api w (api.create cl x w.nodes) (remove_others api machine n cl) done,
          eq,
        ),
        registered,
      )

  -- An update of a node that has the status already, and the two cases of one whose status changes.
  pub register_again :
      (machine : Text) (n : Nodename) (spec : NodeSpec) (status : NodeStatus) (labels : Labels)
      (cl : api.Client) (w : World api) (y : Node)
      → view w.nodes n.name ≡ some y
      → is_empty n.name ≡ false
      → has_label input_version_label n.version labels ≡ true
      → ((s : api.State) × (register api machine n spec status labels cl w
            ≡ (record w { nodes = s }, true))
          × IsRegistered (view s) machine n status labels
          × (y.status ≢ status → false ≡ true))
        ⊎ ((y.status ≢ status)
            × ((s : api.State) × (register api machine n spec status labels cl w
                  ≡ (record w { nodes = s }, false))
                × ((v : Option ℕ) × ((j : Text)
                      → view s j ≡ (
                          if text_eq n.name j
                          then some (record y { status = status; version = v })
                          else view w.nodes j)))))
  unfolding register
  register_again machine n spec status labels cl w y e ne l =
      let name : y.name ≡ n.name = laws.names w.nodes n.name y e in
      let x : Node = record y { status = status } in
      let there : view w.nodes x.name ≡ some y = ap (λ i. view w.nodes i) name ∙ e in
      let (done, (v, now, same, differ)) = laws.updates_status cl x y w.nodes there refl in
      let s : api.State = (api.update_status cl x w.nodes).0 in
      let w' : World api = record w { nodes = s } in
      let x' : Node = record x { labels = labels } in
      let z : Node = record y { status = status; version = v } in
      let now' : view s x'.name ≡ some z = ground (arith, now x.name, text_eq_refl x.name) in
      let eq : register api machine n spec status labels cl w
          ≡ and_then_nodes api w' (api.update cl x' s) (remove_others api machine n cl) =
        ground (
          arith,
          laws.gets cl n.name w.nodes,
          e,
          ne,
          ap (λ i. is_empty i) name,
          and_then_nodes_lem api w (api.update_status cl x w.nodes)
              (λ u.
                and_then_nodes api u (api.update cl x' u.nodes) (remove_others api machine n cl))
              done,
        ) in
      elim (nat_option_cases v y.version) [
        | inl k ↦
            let (done', (v', now'')) = laws.updates cl x' z s now' k in
            let t : api.State = (api.update cl x' s).0 in
            let w'' : World api = record w { nodes = t } in
            let last : Node = record z { labels = labels; spec = x'.spec; version = v' } in
            let at_name : view t y.name ≡ some last =
              ground (arith, now'' y.name, text_eq_refl y.name) in
            let (r, eq', registered) =
              remove_others_lem machine n cl w'' status labels last
                (ap (λ i. view t i) (sym name) ∙ at_name) refl refl l in
            inl (
              r,
              eq
                  ∙ and_then_nodes_lem api w' (api.update cl x' s) (remove_others api machine n cl)
                      done'
                  ∙ eq',
              registered,
              λ p. absurd (differ p k),
            )
        | inr k ↦ inr (
          λ p. k (same p),
          (
            s,
            eq ∙ ground (arith, laws.conflicts cl x' z s now' k),
            (v, λ j. now j ∙ ap (λ i. if text_eq i j then some z else view w.nodes j) name),
          ),
        )
      ]
