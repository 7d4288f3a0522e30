-- ===== src/Scenarios/Peers.antt =====
-- A device that keeps its settings, and the patches of Encode on it.
use talemu.Prelude.{
  ℕ, Text, codes, text_eq, eq_of_text_eq, text_lt, Bool, true, false, ◌&&◌, List, [], ◌∷◌, Option,
  some, ◌==◌, ◌≡◌, refl, arith, inl, inr,
}
use talemu.Wireguard.{Peer, WireguardSpec, Config, Codec, encode}
use talemu.Wireguard.Device.{or_old, effect, Devices, AreDevices, find_peer, Shows}
use talemu.Wireguard.Patch.{is_sorted, all_above, settled}
use talemu.Wireguard.Encode.{IsSound, AreEncodable, configure-encode, stale-encode}

record Settings : Type 0 where
  pub private_key : Text
  pub listen_port : ℕ
  pub firewall_mark : ℕ
  pub peer : Text → Option Peer

abbrev settings : Devices
settings = record {
  Device = Settings;
  private_key = λ d. d.private_key;
  listen_port = λ d. d.listen_port;
  firewall_mark = λ d. d.firewall_mark;
  peer = λ d. d.peer;
  configure = λ c d. record {
    private_key = or_old c.private_key d.private_key;
    listen_port = or_old c.listen_port d.listen_port;
    firewall_mark = or_old c.firewall_mark d.firewall_mark;
    peer = λ k. effect c.peers k (d.peer k);
  };
}

settings-AreDevices : AreDevices settings
settings-AreDevices = record {
  private_key-configure = λ c d. refl;
  listen_port-configure = λ c d. refl;
  firewall_mark-configure = λ c d. refl;
  peer-configure = λ c d k h. refl;
}

texts_eq : List Text → List Text → Bool
texts_eq [] [] = true
texts_eq (x ∷ xs) (y ∷ ys) = text_eq x y && texts_eq xs ys
texts_eq _ _ = false

texts_eq_sound : (a b : List Text) → texts_eq a b ≡ true → a ≡ b
unfolding texts_eq
texts_eq_sound [] [] h = refl
texts_eq_sound [] (y ∷ ys) h = cc
texts_eq_sound (x ∷ xs) [] h = cc
texts_eq_sound (x ∷ xs) (y ∷ ys) h = ground (arith, eq_of_text_eq x y, texts_eq_sound xs ys)

-- WireguardPeer.Equal on texts
peers_eq : Peer → Peer → Bool
peers_eq l r =
    text_eq l.public_key r.public_key
    && text_eq l.preshared_key r.preshared_key
    && text_eq l.endpoint r.endpoint
    && (l.keepalive == r.keepalive)
    && texts_eq l.allowed_ips r.allowed_ips

abbrev texts : Codec
texts = record { parse_key = some; resolve = some; same = peers_eq }

texts-IsSound : IsSound texts
unfolding peers_eq
texts-IsSound l r h = ground (
  arith,
  eq_of_text_eq l.public_key r.public_key,
  eq_of_text_eq l.preshared_key r.preshared_key,
  eq_of_text_eq l.endpoint r.endpoint,
  texts_eq_sound l.allowed_ips r.allowed_ips,
)

abbrev peer_of : Text → Text → Text → Peer
peer_of key preshared endpoint = record {
  public_key = key;
  preshared_key = preshared;
  endpoint = endpoint;
  keepalive = 25;
  allowed_ips = codes "fd00::/64" ∷ [];
}

abbrev spec_of : List Peer → WireguardSpec
spec_of peers = record {
  private_key = codes "own";
  public_key = [];
  listen_port = 50001;
  firewall_mark = 0;
  peers = peers;
}

abbrev old_peer : Peer
old_peer = peer_of (codes "omni") (codes "secret") (codes "10.0.0.1:50180")

-- The spec drops the preshared key, and has a peer more.
abbrev new_peer : Peer
new_peer = peer_of (codes "omni") [] (codes "10.0.0.2:50180")

abbrev before : WireguardSpec
before = spec_of (peer_of (codes "gone") [] [] ∷ old_peer ∷ [])

abbrev wanted : WireguardSpec
wanted = spec_of (new_peer ∷ peer_of (codes "second") (codes "key") [] ∷ [])

abbrev device : Settings
device = record {
  private_key = codes "own";
  listen_port = 50001;
  firewall_mark = 0;
  peer = λ k. find_peer k before.peers;
}

encodable : AreEncodable texts settings device before wanted
unfolding is_sorted text_lt all_above
encodable = record {
  shows = record {
    private_key = refl;
    listen_port = refl;
    firewall_mark = refl;
    peers = λ k. refl;
  };
  sorted_existing = refl;
  sorted_spec = refl;
  canonical_key = refl;
  canonical_existing = (
    record { key = refl; preshared = inl refl; endpoint = inl refl },
    (record { key = refl; preshared = inr refl; endpoint = inr refl }, tt),
  );
  canonical_spec = (
    record { key = refl; preshared = inl refl; endpoint = inr refl },
    (record { key = refl; preshared = inr refl; endpoint = inl refl }, tt),
  );
}

configure-encode_example :
    (c : Config) × (encode texts wanted before ≡ some c)
    × (settings.private_key (settings.configure c device) ≡ wanted.private_key)
    × (settings.listen_port (settings.configure c device) ≡ wanted.listen_port)
    × (settings.firewall_mark (settings.configure c device) ≡ wanted.firewall_mark)
    × ((k : Text)
        → settings.peer (settings.configure c device) k
          ≡ settled (find_peer k wanted.peers) (find_peer k before.peers))
configure-encode_example =
    configure-encode texts texts-IsSound settings settings-AreDevices device before wanted encodable

abbrev the_patch : Config
the_patch =
    (configure-encode texts texts-IsSound settings settings-AreDevices device before wanted
      encodable).0

the_patch-encode : encode texts wanted before ≡ some the_patch
the_patch-encode =
    (configure-encode texts texts-IsSound settings settings-AreDevices device before wanted
      encodable).1

found_before : find_peer (codes "omni") before.peers ≡ some old_peer
unfolding text_eq find_peer
found_before = refl

found_wanted : find_peer (codes "omni") wanted.peers ≡ some new_peer
unfolding text_eq find_peer
found_wanted = refl

stale-encode_example : ¬ Shows settings (settings.configure the_patch device) wanted
stale-encode_example =
    stale-encode texts texts-IsSound settings settings-AreDevices device before wanted the_patch
      (codes "omni") old_peer new_peer encodable the_patch-encode found_before found_wanted refl
      refl
