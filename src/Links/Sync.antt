-- ===== src/Links/Sync.antt =====
-- One pass over a spec: syncLink, for each phase and kind of link.
use talemu.Cosi.{Phase}
use talemu.Prelude.{
  ℕ, Text, text_eq, text_eq_iff, Bool, true, false, not, ◌&&◌, ◌||◌, List, [], ◌∷◌, none, some,
  ◌==◌, if◌then◌else◌, ◌≡◌, ◌≢◌, refl, sym, ap, ◌∙◌, ◌⊎◌, inl, inr, arith, Bool-cases, Option-cases,
}
use talemu.Wireguard.Encode.{IsSound}
use talemu.Links.{
  LinkMessage, LinkSpec, Kernel, Talos, Outcome, kind_wireguard, find_link, is_up, and_then, done,
  write_mtu, sync_wireguard, sync_up, sync_mtu, settle, create_link, bring_up, sync_link,
}
use talemu.Links.Kernels.{Leaves, IsWorking}
use talemu.Links.Settle.{IsEncodable, brought, is_up-brought, settle_lem}

-- The kernel has the link that the spec asks for.
pub record HasLink (spec : LinkSpec) (links : List LinkMessage) : Type 0 where
  pub link : LinkMessage
  pub found : find_link spec.name links ≡ some link
  pub same_type : link.link_type ≡ spec.link_type
  pub same_kind : link.info ≡ some spec.kind
  pub same_up : is_up link ≡ spec.up
  pub same_mtu : ((spec.mtu == 0) ≡ true) ⊎ (link.mtu ≡ spec.mtu)

found_name :
    (n : Text) (ms : List LinkMessage) (m : LinkMessage) → find_link n ms ≡ some m → m.name ≡ n
unfolding find_link
found_name n [] m h = cc
found_name n (x ∷ xs) m h = elim (Bool-cases (text_eq x.name n)) [
  | inl e ↦ ground (arith, (text_eq_iff x.name n).0 e)
  | inr e ↦ ground (arith, found_name n xs m)
]

find-write_mtu :
    (n o : Text) (mtu : ℕ) (ms : List LinkMessage)
    → text_eq n o ≡ false
    → find_link o (write_mtu n mtu ms) ≡ find_link o ms
unfolding find_link
find-write_mtu n o mtu [] h = refl
find-write_mtu n o mtu (x ∷ xs) h = elim (Bool-cases (text_eq x.name n)) [
  | inl e ↦ ground (arith, ap (λ t. text_eq t o) ((text_eq_iff x.name n).0 e))
  | inr e ↦ ground (arith, find-write_mtu n o mtu xs)
]

brought_mtu :
    (spec : LinkSpec) (m : LinkMessage)
    → ((spec.mtu == 0) ≡ true) ⊎ ((brought spec m).mtu ≡ spec.mtu)
brought_mtu spec m = elim (Bool-cases (spec.mtu == 0)) [
  | inl e ↦ inl e
  | inr e ↦ inr (ground arith)
]

module _ (k : Kernel) (talos : Talos) where
  and_then-links :
      (o : Text) (links : List LinkMessage) (r : k.State × Bool) (rest : k.State → Outcome k)
      → ((s : k.State) → find_link o (rest s).links ≡ find_link o links)
      → find_link o (and_then k talos links r rest).links ≡ find_link o links
  and_then-links o links (s, true) rest h = h s
  and_then-links o links (s, false) rest h = refl

  and_then-write_mtu :
      (n o : Text) (mtu : ℕ) (links : List LinkMessage) (r : k.State × Bool)
      → text_eq n o ≡ false
      → find_link o (and_then k talos links r (done k talos (write_mtu n mtu links))).links
        ≡ find_link o links
  and_then-write_mtu n o mtu links r h =
      and_then-links o links r (done k talos (write_mtu n mtu links))
        (λ s. find-write_mtu n o mtu links h)

  links-if :
      (o : Text) (links : List LinkMessage) (b : Bool) (x y : Outcome k)
      → find_link o x.links ≡ find_link o links
      → find_link o y.links ≡ find_link o links
      → find_link o (if b then x else y).links ≡ find_link o links
  links-if o links true x y h h' = h
  links-if o links false x y h h' = h'

  settle-links :
      (o : Text) (spec : LinkSpec) (m : LinkMessage) (links : List LinkMessage) (s : k.State)
      → text_eq m.name o ≡ false
      → find_link o (settle k talos spec m links s).links ≡ find_link o links
  unfolding settle sync_mtu
  settle-links o spec m links s h = and_then-links o links (sync_wireguard k talos spec s) _ (λ s1.
      and_then-links o links (sync_up k talos spec m s1) _ (λ s2.
        links-if o links (not (spec.mtu == 0) && not (m.mtu == spec.mtu)) _ (done k talos links s2)
          (and_then-write_mtu m.name o spec.mtu links (k.set_mtu m spec.mtu s2) h) refl))

-- A sync brought the link of the spec, and no other changed, neither in the kernel nor where the
-- list of the links showed it as it is.
pub record Brings (k : Kernel) (view : k.State → List LinkMessage) (spec : LinkSpec)
    (links : List LinkMessage) (s : k.State) (o : Outcome k) : Type 0 where
  pub succeeds : o.succeeded ≡ true
  pub has : HasLink spec (view o.state)
  pub others :
      (n : Text) → text_eq spec.name n ≡ false → find_link n (view o.state) ≡ find_link n (view s)
  pub agrees :
      (n : Text)
      → text_eq spec.name n ≡ false
      → find_link n links ≡ find_link n (view s)
      → find_link n o.links ≡ find_link n (view o.state)

-- A logical WireGuard link whose settings Encode takes.
pub record IsWireguard (talos : Talos) (spec : LinkSpec) : Type 0 where
  pub is_logical : spec.logical ≡ true
  pub is_wireguard : text_eq spec.kind kind_wireguard ≡ true
  pub encodable : IsEncodable talos spec.wireguard

module _ (k : Kernel) (talos : Talos) (view : k.State → List LinkMessage)
    (works : IsWorking k talos view) (sound : IsSound talos.codec) where
  Brings-settle :
      (s : k.State) (spec : LinkSpec) (m : LinkMessage) (links : List LinkMessage)
      → IsWireguard talos spec
      → find_link spec.name (view s) ≡ some m
      → m.link_type ≡ spec.link_type
      → m.info ≡ some spec.kind
      → Brings k view spec links s (settle k talos spec m links s)
  Brings-settle s spec m links w h t i =
      let kind = (text_eq_iff spec.kind kind_wireguard).0 w.is_wireguard in
      let l =
        settle_lem k talos view works s spec m links sound h
          (inr (i ∙ ap some kind, w.encodable)) in
      record {
        succeeds = l.succeeds;
        has = record {
          link = brought spec m;
          found = l.found;
          same_type = t;
          same_kind = i;
          same_up = is_up-brought spec m;
          same_mtu = brought_mtu spec m;
        };
        others = l.others;
        agrees = λ n e f.
            settle-links k talos n spec m links s
              (ap (λ x. text_eq x n) (found_name spec.name (view s) m h) ∙ e)
            ∙ f
            ∙ sym (l.others n e);
      }

  -- A link is created, found in the new list, and settled.
  create_link_lem :
      (s : k.State) (spec : LinkSpec) (m : LinkMessage) (links : List LinkMessage)
      → IsWireguard talos spec
      → let made = k.create spec.link_type spec.name spec.kind s in
        Leaves k view s spec.name (some m) made.0 made.1
        → create_link k talos spec links s ≡ settle k talos spec m (view made.0) made.0
  unfolding create_link
  create_link_lem s spec m links w l =
      let made = k.create spec.link_type spec.name spec.kind s in
      ground (arith, w.is_logical, w.is_wireguard, l.succeeds, works.lists made.0, l.found)

  Brings-create :
      (s : k.State) (spec : LinkSpec) (links : List LinkMessage)
      → IsWireguard talos spec
      → find_link spec.name (view s) ≡ none
      → Brings k view spec links s (create_link k talos spec links s)
  Brings-create s spec links w h =
      let (m, t, i, l) = works.creates s spec.link_type spec.name spec.kind h in
      let made = k.create spec.link_type spec.name spec.kind s in
      let b = Brings-settle made.0 spec m (view made.0) w l.found t i in
      let e = create_link_lem s spec m links w l in
      rw e (record {
        succeeds = b.succeeds;
        has = b.has;
        others = λ n e. b.others n e ∙ l.others n e;
        agrees = λ n e f. b.agrees n e refl;
      })

  Brings-bring_up :
      (s : k.State) (spec : LinkSpec) (m : LinkMessage) (kind : Text) (links : List LinkMessage)
      → IsWireguard talos spec
      → find_link spec.name links ≡ some m
      → find_link spec.name (view s) ≡ some m
      → m.info ≡ some kind
      → Brings k view spec links s (bring_up k talos spec links s)
  unfolding bring_up
  Brings-bring_up s spec m kind links w h h' i =
      let gone = k.delete m.index s in
      elim (Bool-cases (not (m.link_type == spec.link_type) || not (text_eq kind spec.kind))) [
        | inl y ↦
            let l = works.deletes s spec.name m h' in
            let b = Brings-create gone.0 spec links w l.found in
            let e : bring_up k talos spec links s ≡ create_link k talos spec links gone.0 =
              ground (arith, w.is_logical, l.succeeds) in
            rw e (record {
              succeeds = b.succeeds;
              has = b.has;
              others = λ n e. b.others n e ∙ l.others n e;
              agrees = λ n e f. b.agrees n e (f ∙ sym (l.others n e));
            })
        | inr y ↦
            let e : bring_up k talos spec links s ≡ settle k talos spec m links s =
              ground (arith, w.is_logical) in
            rw e (
              Brings-settle s spec m links w h' (ground arith)
                (i ∙ ap some ((text_eq_iff kind spec.kind).0 (ground arith))))
      ]

  -- Where no call of the kernel fails and the comparison of peers is sound, a sync of a running spec
  -- of a logical WireGuard link, whose settings Encode takes, succeeds.  It leaves a link with the
  -- name, type, kind and UP flag of the spec, and with its MTU where it has one, whether the link
  -- existed, with these or other settings, or not.  It changes no other link.  This assumes that the
  -- list of the links shows the link as it is, and that one that exists has its kind.
  pub sync_link_lem :
      (s : k.State) (spec : LinkSpec) (links : List LinkMessage)
      → spec.phase ≡ Phase.running
      → IsWireguard talos spec
      → find_link spec.name links ≡ find_link spec.name (view s)
      → ((m : LinkMessage) → find_link spec.name (view s) ≡ some m → m.info ≢ none)
      → Brings k view spec links s (sync_link k talos spec links s)
  unfolding sync_link bring_up
  sync_link_lem s spec links r w h i =
      let up : sync_link k talos spec links s ≡ bring_up k talos spec links s = ground (arith, r) in
      elim (Option-cases (find_link spec.name (view s))) [
        | inl e ↦
            let same : bring_up k talos spec links s ≡ create_link k talos spec links s =
              ground (arith, h, e) in
            rw (up ∙ same) (Brings-create s spec links w e)
        | inr (m, e) ↦ elim (Option-cases m.info) [
          | inl f ↦ elim (i m e f) [ ]
          | inr (kind, f) ↦ rw up (Brings-bring_up s spec m kind links w (h ∙ e) e f)
        ]
      ]
