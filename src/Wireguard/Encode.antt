-- ===== src/Wireguard/Encode.antt =====
-- Encode on sorted lists of peers whose texts the codec reads as they stand.
use talemu.Prelude.{
  Text, text_eq, text_eq_iff, text_lt, text_lt_total, true, false, not, List, [], ◌∷◌, none, some,
  ◌==◌, if◌then◌else◌, ◌≡◌, refl, sym, ap, ◌∙◌, inl, inr, arith, Bool-cases,
}
use talemu.Image.{is_empty}
use talemu.Wireguard.{
  Peer, WireguardSpec, PeerConfig, Config, Codec, add_peer, delete_peer, append, encode_peers,
  encode,
}
use talemu.Wireguard.Device.{or_old, preshared_of, effect, Devices, AreDevices, find_peer, Shows}
use talemu.Wireguard.Patch.{
  all_above, is_sorted, all_above_trans, IsCanonical, AreCanonical, settled, add_lem, delete_lem,
  IsPatch, IsPatch-added, IsPatch-deleted, IsPatch-replaced, IsPatch-kept,
}

is_sorted-cons :
    (p : Peer) (ps : List Peer)
    → is_sorted (p ∷ ps) ≡ true
    → (all_above p.public_key ps ≡ true) × (is_sorted ps ≡ true)
unfolding is_sorted
is_sorted-cons p ps h = ground arith

all_above-cons :
    (p : Peer) (ps : List Peer) (t : Text)
    → text_lt t p.public_key ≡ true
    → all_above p.public_key ps ≡ true
    → all_above t (p ∷ ps) ≡ true
unfolding all_above
all_above-cons p ps t h k = ground (arith, all_above_trans t p.public_key ps h k)

-- The comparison of peers finds no difference only where there is none.
abbrev pub IsSound : Codec → Type 0
IsSound codec = (l r : Peer) → codec.same l r ≡ true → l ≡ r

abbrev Patches : Codec → List Peer → List Peer → Type 0
Patches codec existing spec =
    (cs : List PeerConfig) × (encode_peers codec existing spec ≡ some cs) × IsPatch existing spec cs

module _ (codec : Codec) (sound : IsSound codec) where
  Patches-empty : Patches codec [] []
  unfolding encode_peers effect find_peer
  Patches-empty =
      ([], refl, record { replaces = tt; elsewhere = λ k old p q. refl; settles = λ k. refl })

  -- A peer of the spec that comes before all others.
  Patches-added :
      (existing : List Peer) (r : Peer) (rs : List Peer)
      → encode_peers codec existing (r ∷ rs)
        ≡ append (add_peer codec r) (encode_peers codec existing rs)
      → IsCanonical codec r
      → all_above r.public_key existing ≡ true
      → all_above r.public_key rs ≡ true
      → Patches codec existing rs
      → Patches codec existing (r ∷ rs)
  Patches-added existing r rs e c a b (cs, p, q) =
      let (d, s, k, n, f, m) = add_lem codec r c in
      (d ∷ cs, e ∙ rw (s, p) refl, IsPatch-added existing rs cs q r d a b k n f m)

  Patches-deleted :
      (l : Peer) (ls spec : List Peer)
      → encode_peers codec (l ∷ ls) spec ≡ append (delete_peer codec l) (encode_peers codec ls spec)
      → IsCanonical codec l
      → all_above l.public_key ls ≡ true
      → all_above l.public_key spec ≡ true
      → Patches codec ls spec
      → Patches codec (l ∷ ls) spec
  Patches-deleted l ls spec e c a b (cs, p, q) =
      let (d, s, k, n) = delete_lem codec l c in
      (d ∷ cs, e ∙ rw (s, p) refl, IsPatch-deleted ls spec cs q l d a b k n)

  -- Two peers with the same key.
  Patches-matched :
      (l r : Peer) (ls rs : List Peer)
      → text_lt r.public_key l.public_key ≡ false
      → text_lt l.public_key r.public_key ≡ false
      → IsCanonical codec r
      → all_above l.public_key ls ≡ true
      → all_above r.public_key rs ≡ true
      → Patches codec ls rs
      → Patches codec (l ∷ ls) (r ∷ rs)
  unfolding encode_peers
  Patches-matched l r ls rs y z c a b (cs, p, q) =
      let e =
        (text_eq_iff l.public_key r.public_key).0 (text_lt_total l.public_key r.public_key z y) in
      let above = ap (λ t. all_above t ls) (sym e) ∙ a in
      elim (Bool-cases (codec.same l r)) [
        | inl h ↦ (cs, ground arith, IsPatch-kept ls rs cs q l r above b (sound l r h))
        | inr h ↦
            let (d, s, k, n, f, m) = add_lem codec r c in
            (d ∷ cs, ground arith, IsPatch-replaced ls rs cs q l r d above b e k n f m)
      ]

  encode_peers_lem :
      (existing spec : List Peer)
      → is_sorted existing ≡ true
      → is_sorted spec ≡ true
      → AreCanonical codec existing
      → AreCanonical codec spec
      → Patches codec existing spec
  unfolding encode_peers all_above
  encode_peers_lem [] [] h k a b = Patches-empty
  encode_peers_lem [] (r ∷ rs) h k a b =
      let (above, sorted) = is_sorted-cons r rs k in
      Patches-added [] r rs refl b.0 refl above (encode_peers_lem [] rs h sorted a b.1)
  encode_peers_lem (l ∷ ls) [] h k a b =
      let (above, sorted) = is_sorted-cons l ls h in
      Patches-deleted l ls [] refl a.0 above refl (encode_peers_lem ls [] sorted k a.1 b)
  encode_peers_lem (l ∷ ls) (r ∷ rs) h k a b =
      let (above_l, sorted_l) = is_sorted-cons l ls h in
      let (above_r, sorted_r) = is_sorted-cons r rs k in
      elim (Bool-cases (text_lt r.public_key l.public_key)) [
        | inl y ↦
            Patches-added (l ∷ ls) r rs (ground arith) b.0
              (all_above-cons l ls r.public_key y above_l) above_r
              (encode_peers_lem (l ∷ ls) rs h sorted_r a b.1)
        | inr y ↦ elim (Bool-cases (text_lt l.public_key r.public_key)) [
          | inl z ↦
              Patches-deleted l ls (r ∷ rs) (ground arith) a.0 above_l
                (all_above-cons r rs l.public_key z above_r)
                (encode_peers_lem ls (r ∷ rs) sorted_l k a.1 b)
          | inr z ↦
              Patches-matched l r ls rs y z b.0 above_l above_r
                (encode_peers_lem ls rs sorted_l sorted_r a.1 b.1)
        ]
      ]

-- What Encode returns around the patch of the peers.
abbrev patch : WireguardSpec → WireguardSpec → List PeerConfig → Config
patch existing spec cs = record {
  private_key =
      if not (text_eq existing.private_key spec.private_key) then some spec.private_key else none;
  listen_port =
      if not (existing.listen_port == spec.listen_port) then some spec.listen_port else none;
  firewall_mark =
      if not (existing.firewall_mark == spec.firewall_mark) then some spec.firewall_mark else none;
  peers = cs;
}

-- Encode does not fail on such specs.
pub encode_succeeds :
    (codec : Codec)
    → IsSound codec
    → (existing spec : WireguardSpec) → is_sorted existing.peers ≡ true
    → is_sorted spec.peers ≡ true
    → AreCanonical codec existing.peers
    → AreCanonical codec spec.peers
    → codec.parse_key spec.private_key ≡ some spec.private_key
    → (c : Config) × (encode codec spec existing ≡ some c)
unfolding encode
encode_succeeds codec sound existing spec h k a b e =
    let (cs, p, q) = encode_peers_lem codec sound existing.peers spec.peers h k a b in
    (patch existing spec cs, ground (arith, p, e))

-- A device, the settings decoded from it and those of the spec, as Encode expects them.
pub record AreEncodable (codec : Codec) (s : Devices) (d : s.Device) (existing spec : WireguardSpec)
    : Type 0 where
  pub shows : Shows s d existing
  pub sorted_existing : is_sorted existing.peers ≡ true
  pub sorted_spec : is_sorted spec.peers ≡ true
  pub canonical_key : codec.parse_key spec.private_key ≡ some spec.private_key
  pub canonical_existing : AreCanonical codec existing.peers
  pub canonical_spec : AreCanonical codec spec.peers

module _ (codec : Codec) (sound : IsSound codec) (s : Devices) (devices : AreDevices s) where
  -- Encode of a canonical spec returns a patch.  The device that it is applied to has the private
  -- key, the port and the mark of the spec, none of the peers that the spec lacks, and each peer of
  -- the spec as it stands there, except that an empty preshared key or endpoint leaves that of the
  -- device.  This assumes that the settings are those of the device, that both lists of peers are
  -- sorted by key, that the codec reads the texts as they stand, and that the comparison of peers
  -- is sound.
  pub configure-encode :
      (d : s.Device) (existing spec : WireguardSpec)
      → AreEncodable codec s d existing spec
      → (c : Config) × (encode codec spec existing ≡ some c)
        × (s.private_key (s.configure c d) ≡ spec.private_key)
        × (s.listen_port (s.configure c d) ≡ spec.listen_port)
        × (s.firewall_mark (s.configure c d) ≡ spec.firewall_mark)
        × ((k : Text)
            → s.peer (s.configure c d) k
              ≡ settled (find_peer k spec.peers) (find_peer k existing.peers))
  unfolding encode
  configure-encode d existing spec h =
      let (cs, p, q) =
        encode_peers_lem codec sound existing.peers spec.peers h.sorted_existing h.sorted_spec
          h.canonical_existing h.canonical_spec in
      let c = patch existing spec cs in
      (
        c,
        ground (arith, p, h.canonical_key),
        devices.private_key-configure c d
            ∙ ground
                (arith, h.shows.private_key, text_eq_iff existing.private_key spec.private_key),
        devices.listen_port-configure c d ∙ ground (arith, h.shows.listen_port),
        devices.firewall_mark-configure c d ∙ ground (arith, h.shows.firewall_mark),
        λ k.
            devices.peer-configure c d k q.replaces
            ∙ ap (effect cs k) (h.shows.peers k)
            ∙ q.settles k,
      )

  -- The patch does not empty a preshared key: where the spec has a peer without one, and the device
  -- has that peer with one, the device does not show the spec after the configuration, under the
  -- assumptions of `configure-encode`.
  pub stale-encode :
      (d : s.Device) (existing spec : WireguardSpec) (c : Config) (k : Text) (l r : Peer)
      → AreEncodable codec s d existing spec
      → encode codec spec existing ≡ some c
      → find_peer k existing.peers ≡ some l
      → find_peer k spec.peers ≡ some r
      → is_empty r.preshared_key ≡ true
      → is_empty l.preshared_key ≡ false
      → ¬ Shows s (s.configure c d) spec
  stale-encode d existing spec c k l r h e p q x y shows =
      let (c', e', a, b, f, peers) = configure-encode d existing spec h in
      let same = ap (λ o. or_old o c') (sym e ∙ e') in
      let settles =
        ap (λ v. s.peer (s.configure v d) k) same
        ∙ peers k
        ∙ ap (λ o. settled o (find_peer k existing.peers)) q
        ∙ ap (settled (some r)) p in
      let shown = sym settles ∙ shows.peers k ∙ q in
      ground (arith, ap (λ o. is_empty (preshared_of o)) shown)
