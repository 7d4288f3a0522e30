-- ===== src/Links/Removal.antt =====
-- The syncs after which a link is gone: that of a spec that is torn down, and that of a spec of
-- another kind than WireGuard.
use talemu.Cosi.{Phase}
use talemu.Prelude.{
  Text, text_eq, true, false, not, ◌||◌, List, none, some, ◌==◌, ◌≡◌, refl, ap, ◌∙◌, arith,
  Option-cases, inl, inr,
}
use talemu.Links.{
  LinkMessage, LinkSpec, Kernel, Talos, kind_wireguard, find_link, done, finish, create_link,
  bring_up, tear_down, sync_link,
}
use talemu.Links.Kernels.{Leaves, IsWorking}

module _ (k : Kernel) (talos : Talos) (view : k.State → List LinkMessage)
    (works : IsWorking k talos view) where
  finish_lem :
      (s t : k.State) (spec : LinkSpec) (links : List LinkMessage)
      → find_link spec.name (view t) ≡ none
      → ((o : Text) → text_eq spec.name o ≡ false → find_link o (view t) ≡ find_link o (view s))
      → let o = finish k talos spec links t in Leaves k view s spec.name none o.state o.succeeded
  finish_lem s t spec links h f =
      let r = works.removes t spec.id in
      let e : finish k talos spec links t ≡ done k talos links (k.remove_finalizer spec.id t).0 =
        ground (arith, r.0) in
      rw e (record {
        succeeds = refl;
        found = ap (find_link spec.name) r.1 ∙ h;
        others = λ n y. ap (find_link n) r.1 ∙ f n y;
      })

  -- Where no call of the kernel fails, a sync of a logical spec that is torn down succeeds: its link
  -- is gone, whether it existed or not, and the others stay.  This assumes that the list of the links
  -- shows the link as it is.
  pub sync_link-torn_down :
      (s : k.State) (spec : LinkSpec) (links : List LinkMessage)
      → spec.phase ≡ Phase.tearing_down
      → spec.logical ≡ true
      → find_link spec.name links ≡ find_link spec.name (view s)
      → let o = sync_link k talos spec links s in Leaves k view s spec.name none o.state o.succeeded
  unfolding sync_link tear_down
  sync_link-torn_down s spec links p l h = elim (Option-cases (find_link spec.name (view s))) [
    | inl e ↦
        let eq : sync_link k talos spec links s ≡ finish k talos spec links s =
          ground (arith, p, l, h, e) in
        rw eq (finish_lem s s spec links e (λ n y. refl))
    | inr (m, e) ↦
        let gone = k.delete m.index s in
        let d = works.deletes s spec.name m e in
        let eq : sync_link k talos spec links s ≡ finish k talos spec (view gone.0) gone.0 =
          ground (arith, p, l, h, e, d.succeeds, works.lists gone.0) in
        rw eq (finish_lem s gone.0 spec (view gone.0) d.found d.others)
  ]

  -- Where no call of the kernel fails, a sync of a running logical spec of another kind than
  -- WireGuard, whose link exists with another type or kind, succeeds and deletes that link without
  -- creating one.  This assumes that the list of the links shows the link as it is.
  pub sync_link-replaced :
      (s : k.State) (spec : LinkSpec) (links : List LinkMessage) (m : LinkMessage) (kind : Text)
      → spec.phase ≡ Phase.running
      → spec.logical ≡ true
      → text_eq spec.kind kind_wireguard ≡ false
      → find_link spec.name links ≡ some m
      → find_link spec.name (view s) ≡ some m
      → m.info ≡ some kind
      → (not (m.link_type == spec.link_type) || not (text_eq kind spec.kind)) ≡ true
      → let o = sync_link k talos spec links s in Leaves k view s spec.name none o.state o.succeeded
  unfolding sync_link bring_up create_link
  sync_link-replaced s spec links m kind p l w h h' i y =
      let gone = k.delete m.index s in
      let d = works.deletes s spec.name m h' in
      let eq : sync_link k talos spec links s ≡ done k talos links gone.0 =
        ground (arith, p, l, w, h, i, d.succeeds) in
      rw eq (record { succeeds = refl; found = d.found; others = d.others })
