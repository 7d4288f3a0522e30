-- ===== src/Links/Settle.antt =====
-- What a sync does to a link that exists.
use talemu.Prelude.{
  ℕ, ◌≤◌, ◌%◌, Text, text_eq, Bool, true, false, not, ◌&&◌, ◌||◌, List, Option, some, ◌==◌,
  if◌then◌else◌, ◌≡◌, refl, ap, ◌∙◌, ◌⊎◌, inl, inr, arith,
}
use talemu.Wireguard.{WireguardSpec}
use talemu.Wireguard.Patch.{is_sorted, AreCanonical}
use talemu.Wireguard.Encode.{IsSound, encode_succeeds}
use talemu.Links.{
  LinkMessage, LinkSpec, Kernel, Talos, Outcome, kind_wireguard, find_link, is_up, attempt,
  and_then, done, write_mtu, sync_wireguard, sync_up, sync_mtu, settle,
}
use talemu.Links.Kernels.{with_up, decoded, Leaves, IsWorking}

-- The link as the spec wants it.
abbrev pub brought_up : LinkSpec → LinkMessage → LinkMessage
brought_up spec m = record m { flags = with_up (if spec.up then 1 else 0) m.flags }

abbrev pub brought : LinkSpec → LinkMessage → LinkMessage
brought spec m = record (brought_up spec m) { mtu = if spec.mtu == 0 then m.mtu else spec.mtu }

-- The WireGuard settings of the spec are ones that Encode takes.
pub record IsEncodable (talos : Talos) (spec : WireguardSpec) : Type 0 where
  pub sorted : is_sorted (talos.sort spec).peers ≡ true
  pub canonical : AreCanonical talos.codec (talos.sort spec).peers
  pub key : talos.codec.parse_key (talos.sort spec).private_key ≡ some (talos.sort spec).private_key

with_up_lem : (f n : ℕ) → f ≤ 1 → with_up f n % 2 ≡ f
with_up_lem f n h = omega arith

is_up_lem : (b : Bool) (n : ℕ) → (with_up (if b then 1 else 0) n % 2 == 1) ≡ b
is_up_lem true n = ground (arith, with_up_lem 1 n)
is_up_lem false n = ground (arith, with_up_lem 0 n)

pub is_up-brought : (spec : LinkSpec) (m : LinkMessage) → is_up (brought spec m) ≡ spec.up
is_up-brought spec m = is_up_lem spec.up m.flags

same_flags :
    (b : Bool) (n : ℕ)
    → ((n % 2 == 1) && b || not (n % 2 == 1) && not b) ≡ true
    → n ≡ with_up (if b then 1 else 0) n
same_flags true n h = ground arith
same_flags false n h = ground arith

module _ (k : Kernel) (view : k.State → List LinkMessage) (s : k.State) (n : Text)
    (x : Option LinkMessage) where
  Leaves-self : find_link n (view s) ≡ x → Leaves k view s n x s true
  Leaves-self h = record { succeeds = refl; found = h; others = λ o e. refl }

  Leaves-if :
      (b : Bool) (r r' : k.State × Bool)
      → (b ≡ true → Leaves k view s n x r.0 r.1)
      → (b ≡ false → Leaves k view s n x r'.0 r'.1)
      → Leaves k view s n x (if b then r else r').0 (if b then r else r').1
  Leaves-if true r r' f g = f refl
  Leaves-if false r r' f g = g refl

  Leaves-if_outcome :
      (b : Bool) (r r' : Outcome k)
      → (b ≡ true → Leaves k view s n x r.state r.succeeded)
      → (b ≡ false → Leaves k view s n x r'.state r'.succeeded)
      → Leaves k view s n x (if b then r else r').state (if b then r else r').succeeded
  Leaves-if_outcome true r r' f g = f refl
  Leaves-if_outcome false r r' f g = g refl

  Leaves-and_then :
      (talos : Talos) (links : List LinkMessage) (r : k.State × Bool) (rest : k.State → Outcome k)
      (y : Option LinkMessage)
      → Leaves k view s n y r.0 r.1
      → Leaves k view r.0 n x (rest r.0).state (rest r.0).succeeded
      → let o = and_then k talos links r rest in Leaves k view s n x o.state o.succeeded
  Leaves-and_then talos links (t, true) rest y h h' = record {
    succeeds = h'.succeeds;
    found = h'.found;
    others = λ o e. h'.others o e ∙ h.others o e;
  }
  Leaves-and_then talos links (t, false) rest y h h' = ground arith

module _ (k : Kernel) (talos : Talos) (view : k.State → List LinkMessage)
    (works : IsWorking k talos view) where
  sync_up_lem :
      (s : k.State) (spec : LinkSpec) (m : LinkMessage)
      → find_link spec.name (view s) ≡ some m
      → Leaves k view s spec.name
          (some (brought_up spec m))
          (sync_up k talos spec m s).0
          (sync_up k talos spec m s).1
  unfolding sync_up
  sync_up_lem s spec m h =
      let flag = if spec.up then 1 else 0 in
      Leaves-if k view s spec.name (some (brought_up spec m))
        (is_up m && spec.up || not (is_up m) && not spec.up) (s, true) (k.set_flags m flag s)
        (λ y.
          Leaves-self k view s spec.name (some (brought_up spec m))
            (h ∙ ap (λ f. some (record m { flags = f })) (same_flags spec.up m.flags y)))
        (λ y. works.sets_flags s spec.name m m flag h refl)

  sync_mtu_lem :
      (s : k.State) (spec : LinkSpec) (e m : LinkMessage) (links : List LinkMessage)
      → find_link spec.name (view s) ≡ some m
      → e.index ≡ m.index
      → e.mtu ≡ m.mtu
      → let o = sync_mtu k talos spec e links s in
        Leaves k view s spec.name
          (some (record m { mtu = if spec.mtu == 0 then m.mtu else spec.mtu }))
          o.state
          o.succeeded
  unfolding sync_mtu
  sync_mtu_lem s spec e m links h i j =
      let new = record m { mtu = if spec.mtu == 0 then m.mtu else spec.mtu } in
      Leaves-if_outcome k view s spec.name (some new)
        (not (spec.mtu == 0) && not (e.mtu == spec.mtu))
        (and_then k talos links (k.set_mtu e spec.mtu s)
          (done k talos (write_mtu e.name spec.mtu links)))
        (done k talos links s)
        (λ y.
          Leaves-and_then k view s spec.name (some new) talos links (k.set_mtu e spec.mtu s)
            (done k talos (write_mtu e.name spec.mtu links)) (some (record m { mtu = spec.mtu }))
            (works.sets_mtu s spec.name m e spec.mtu h i)
            (Leaves-self k view (k.set_mtu e spec.mtu s).0 spec.name (some new) (
              (works.sets_mtu s spec.name m e spec.mtu h i).found
              ∙ ap (λ v. some (record m { mtu = v })) (ground arith))))
        (λ y.
          Leaves-self k view s spec.name (some new)
            (h ∙ ap (λ v. some (record m { mtu = v })) (ground arith)))

  pub attempt_lem :
      (r : k.State × Bool) (rest : k.State → k.State × Bool)
      → r.1 ≡ true
      → attempt k r rest ≡ rest r.0
  attempt_lem (t, true) rest h = refl
  attempt_lem (t, false) rest h = cc

  abbrev Works : k.State → k.State × Bool → Type 0
  Works s r = (r.1 ≡ true) × (view r.0 ≡ view s)

  Works-attempt :
      (s : k.State) (r : k.State × Bool) (rest : k.State → k.State × Bool)
      → Works s r
      → Works r.0 (rest r.0)
      → Works s (attempt k r rest)
  Works-attempt s (t, true) rest h h' = (h'.0, h'.1 ∙ h.1)
  Works-attempt s (t, false) rest h h' = (h.0, cc)

  Works-if :
      (s : k.State) (b : Bool) (r r' : k.State × Bool)
      → Works s r
      → Works s r'
      → Works s (if b then r else r')
  Works-if s true r r' h h' = h
  Works-if s false r r' h h' = h'

  sync_wireguard_lem :
      (s : k.State) (spec : LinkSpec) (m : LinkMessage)
      → IsSound talos.codec
      → find_link spec.name (view s) ≡ some m
      → (text_eq spec.kind kind_wireguard ≡ false)
        ⊎ ((m.info ≡ some kind_wireguard) × IsEncodable talos spec.wireguard)
      → Works s (sync_wireguard k talos spec s)
  unfolding sync_wireguard
  sync_wireguard_lem s spec m sound h (inl y) = rw y (refl, refl)
  sync_wireguard_lem s spec m sound h (inr (y, z)) =
      let (d, e, a, b) = works.has_device s spec.name m h y in
      let (c, p) =
        encode_succeeds talos.codec sound (decoded talos d) (talos.sort spec.wireguard) a z.sorted b
          z.canonical z.key in
      let both =
        Works-attempt s (k.configure_device spec.name c s) k.bump_refresh
          (works.configures s spec.name m c h y)
          (works.bumps (k.configure_device spec.name c s).0) in
      rw (works.has_client, e, p)
        (Works-if s (not (text_eq spec.kind kind_wireguard)) _ _ (refl, refl)
          (Works-if s (not (talos.equal (decoded talos d) (talos.sort spec.wireguard))) _ _ both
            (refl, refl)))

  Leaves-Works :
      (s : k.State) (n : Text) (x : Option LinkMessage) (r : k.State × Bool)
      → find_link n (view s) ≡ x
      → Works s r
      → Leaves k view s n x r.0 r.1
  Leaves-Works s n x r h w = record {
    succeeds = w.0;
    found = ap (find_link n) w.1 ∙ h;
    others = λ o e. ap (find_link o) w.1;
  }

  -- The links that the sync can bring to what the spec asks for.
  abbrev pub IsReady : LinkSpec → LinkMessage → Type 0
  IsReady spec m =
      (text_eq spec.kind kind_wireguard ≡ false)
      ⊎ ((m.info ≡ some kind_wireguard) × IsEncodable talos spec.wireguard)

  pub settle_lem :
      (s : k.State) (spec : LinkSpec) (m : LinkMessage) (links : List LinkMessage)
      → IsSound talos.codec
      → find_link spec.name (view s) ≡ some m
      → IsReady spec m
      → let o = settle k talos spec m links s in
        Leaves k view s spec.name (some (brought spec m)) o.state o.succeeded
  unfolding settle
  settle_lem s spec m links sound h ready =
      let configured = sync_wireguard k talos spec s in
      let same =
        Leaves-Works s spec.name (some m) configured h
          (sync_wireguard_lem s spec m sound h ready) in
      let up = sync_up_lem configured.0 spec m same.found in
      Leaves-and_then k view s spec.name (some (brought spec m)) talos links configured _ (some m)
        same
        (Leaves-and_then k view configured.0 spec.name (some (brought spec m)) talos links
          (sync_up k talos spec m configured.0) (sync_mtu k talos spec m links)
          (some (brought_up spec m)) up
          (sync_mtu_lem (sync_up k talos spec m configured.0).0 spec m (brought_up spec m) links
            up.found refl refl))
