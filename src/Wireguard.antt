-- ===== src/Wireguard.antt =====
-- The WireGuard settings of a link: wireguardSpec.Encode of
-- internal/pkg/machine/controllers/link_spec.go, which makes the patch from the settings that a
-- device has to those of the spec. The parser of keys, the resolver of endpoints and the comparison
-- of peers are dependencies. A key is known by its text, and an endpoint by the text of its address.
pub mod Device
pub mod Patch
pub mod Encode
use talemu.Prelude.{
  ℕ, Text, text_eq, text_lt, Bool, true, false, not, List, [], ◌∷◌, map, Option, none, some, ◌==◌,
  if◌then◌else◌,
}
use talemu.Image.{is_empty}

-- network.WireguardPeer
pub record Peer : Type 0 where
  pub public_key : Text
  pub preshared_key : Text
  pub endpoint : Text
  pub keepalive : ℕ
  pub allowed_ips : List Text

-- network.WireguardSpec
pub record WireguardSpec : Type 0 where
  pub private_key : Text
  pub public_key : Text
  pub listen_port : ℕ
  pub firewall_mark : ℕ
  pub peers : List Peer

-- wgtypes.Peer and wgtypes.Device, as far as Decode reads them
pub record DevicePeer : Type 0 where
  pub public_key : Text
  pub endpoint : Option Text
  pub preshared_key : Text
  pub keepalive : ℕ
  pub allowed_ips : List Text

pub record WgDevice : Type 0 where
  pub private_key : Text
  pub public_key : Text
  pub listen_port : ℕ
  pub firewall_mark : ℕ
  pub peers : List DevicePeer

-- wgtypes.PeerConfig and wgtypes.Config: a field that is `none` is a nil pointer.
pub record PeerConfig : Type 0 where
  pub public_key : Text
  pub remove : Bool
  pub preshared_key : Option Text
  pub endpoint : Option Text
  pub keepalive : Option ℕ
  pub replace_allowed_ips : Bool
  pub allowed_ips : List Text

pub record Config : Type 0 where
  pub private_key : Option Text
  pub listen_port : Option ℕ
  pub firewall_mark : Option ℕ
  pub peers : List PeerConfig

-- wgtypes.ParseKey, net.ResolveUDPAddr and WireguardPeer.Equal
pub record Codec : Type 0 where
  pub parse_key : Text → Option Text
  pub resolve : Text → Option Text
  pub same : Peer → Peer → Bool

-- Decode: one peer. `zero_key` is the text of the zero wgtypes.Key.
abbrev pub decode_peer : Text → DevicePeer → Peer
decode_peer zero_key p = record {
  public_key = p.public_key;
  preshared_key = if not (text_eq p.preshared_key zero_key) then p.preshared_key else [];
  endpoint = elim p.endpoint [ none ↦ [] | some e ↦ e ];
  keepalive = p.keepalive;
  allowed_ips = p.allowed_ips;
}

-- Decode
unfoldable pub decode : Text → WireguardSpec → WgDevice → Bool → WireguardSpec
decode zero_key spec dev is_status = record {
  private_key = if is_status then spec.private_key else dev.private_key;
  public_key = if is_status then dev.public_key else spec.public_key;
  listen_port = dev.listen_port;
  firewall_mark = dev.firewall_mark;
  peers = map (decode_peer zero_key) dev.peers;
}

-- A field that is parsed unless it is empty: the outer `none` is an error.
abbrev pub optional : (Text → Option Text) → Text → Option (Option Text)
optional parse [] = some none
optional parse (c ∷ t) = elim (parse (c ∷ t)) [ none ↦ none | some v ↦ some (some v) ]

abbrev pub append : Option PeerConfig → Option (List PeerConfig) → Option (List PeerConfig)
append none cs = none
append (some c) none = none
append (some c) (some cs) = some (c ∷ cs)

module _ (codec : Codec) where
  -- addPeer: what it appends
  unfoldable pub add_peer : Peer → Option PeerConfig
  add_peer peer = elim (codec.parse_key peer.public_key) [
    | none ↦ none
    | some key ↦ elim (optional codec.parse_key peer.preshared_key) [
      | none ↦ none
      | some preshared ↦ elim (optional codec.resolve peer.endpoint) [
        | none ↦ none
        | some endpoint ↦ some (record {
          public_key = key;
          remove = false;
          preshared_key = preshared;
          endpoint = endpoint;
          keepalive = some peer.keepalive;
          replace_allowed_ips = true;
          allowed_ips = peer.allowed_ips;
        })
      ]
    ]
  ]

  -- deletePeer
  unfoldable pub delete_peer : Peer → Option PeerConfig
  delete_peer peer = elim (codec.parse_key peer.public_key) [
    | none ↦ none
    | some key ↦ some (record {
      public_key = key;
      remove = true;
      preshared_key = none;
      endpoint = none;
      keepalive = none;
      replace_allowed_ips = false;
      allowed_ips = [];
    })
  ]

  -- The merge of the two lists of peers. Strings are ordered, so the last case is that of equal keys.
  unfoldable pub encode_peers : List Peer → List Peer → Option (List PeerConfig)
  encode_peers [] [] = some []
  encode_peers [] (r ∷ rs) = append (add_peer r) (encode_peers [] rs)
  encode_peers (l ∷ ls) [] = append (delete_peer l) (encode_peers ls [])
  encode_peers (l ∷ ls) (r ∷ rs) =
      let added = encode_peers (l ∷ ls) rs in
      let deleted = encode_peers ls (r ∷ rs) in
      let kept = encode_peers ls rs in
      if text_lt r.public_key l.public_key
      then append (add_peer r) added
      else if text_lt l.public_key r.public_key
      then append (delete_peer l) deleted
      else if not (codec.same l r)
      then append (add_peer r) kept
      else kept

  -- Encode
  unfoldable pub encode : WireguardSpec → WireguardSpec → Option Config
  encode spec existing =
      let key =
        if not (text_eq existing.private_key spec.private_key)
        then elim (codec.parse_key spec.private_key) [ none ↦ none | some k ↦ some (some k) ]
        else some none in
      elim key [
        | none ↦ none
        | some private_key ↦ elim (encode_peers existing.peers spec.peers) [
          | none ↦ none
          | some peers ↦ some (record {
            private_key = private_key;
            listen_port =
                if not (existing.listen_port == spec.listen_port)
                then some spec.listen_port
                else none;
            firewall_mark =
                if not (existing.firewall_mark == spec.firewall_mark)
                then some spec.firewall_mark
                else none;
            peers = peers;
          })
        ]
      ]
