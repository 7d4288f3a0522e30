-- ===== src/Wireguard/Device.antt =====
-- WireGuard devices: what the documentation of wgctrl promises of ConfigureDevice, as the settings
-- show that are decoded from the device afterwards.
use talemu.Prelude.{
  ℕ, Text, text_eq, true, List, [], ◌∷◌, Option, none, some, if◌then◌else◌, ◌≡◌, ◌⊎◌,
}
use talemu.Wireguard.{Peer, WireguardSpec, PeerConfig, Config}

abbrev pub or_old {ℓ} : {A : Type ℓ} → Option A → A → A
or_old none old = old
or_old (some v) old = v

abbrev pub preshared_of : Option Peer → Text
preshared_of none = []
preshared_of (some p) = p.preshared_key

abbrev pub endpoint_of : Option Peer → Text
endpoint_of none = []
endpoint_of (some p) = p.endpoint

abbrev pub keepalive_of : Option Peer → ℕ
keepalive_of none = 0
keepalive_of (some p) = p.keepalive

-- A peer after a configuration that replaces its allowed IPs: what is nil stays as it was.
abbrev pub merged : PeerConfig → Option Peer → Peer
merged c old = record {
  public_key = c.public_key;
  preshared_key = or_old c.preshared_key (preshared_of old);
  endpoint = or_old c.endpoint (endpoint_of old);
  keepalive = or_old c.keepalive (keepalive_of old);
  allowed_ips = c.allowed_ips;
}

-- What a list of peer configurations, all of which remove or replace, makes of the peer with the
-- key `k`.
unfoldable pub effect : List PeerConfig → Text → Option Peer → Option Peer
effect [] k old = old
effect (c ∷ cs) k old =
    effect cs k
      (if text_eq c.public_key k then (if c.remove then none else some (merged c old)) else old)

abbrev pub ReplaceAll : List PeerConfig → Type 0
ReplaceAll [] = Unit
ReplaceAll (c ∷ cs) = ((c.remove ≡ true) ⊎ (c.replace_allowed_ips ≡ true)) × ReplaceAll cs

-- A device, as its decoded settings show it; `peer` finds a peer by its public key.
pub record Devices : Type 1 where
  pub Device : Type 0
  pub private_key : Device → Text
  pub listen_port : Device → ℕ
  pub firewall_mark : Device → ℕ
  pub peer : Device → Text → Option Peer
  pub configure : Config → Device → Device

pub record AreDevices (s : Devices) : Type 0 where
  pub private_key-configure :
      (c : Config) (d : s.Device)
      → s.private_key (s.configure c d) ≡ or_old c.private_key (s.private_key d)
  pub listen_port-configure :
      (c : Config) (d : s.Device)
      → s.listen_port (s.configure c d) ≡ or_old c.listen_port (s.listen_port d)
  pub firewall_mark-configure :
      (c : Config) (d : s.Device)
      → s.firewall_mark (s.configure c d) ≡ or_old c.firewall_mark (s.firewall_mark d)
  pub peer-configure :
      (c : Config) (d : s.Device) (k : Text)
      → ReplaceAll c.peers
      → s.peer (s.configure c d) k ≡ effect c.peers k (s.peer d k)

unfoldable pub find_peer : Text → List Peer → Option Peer
find_peer k [] = none
find_peer k (p ∷ ps) = if text_eq p.public_key k then some p else find_peer k ps

-- The device shows the settings.
pub record Shows (s : Devices) (d : s.Device) (spec : WireguardSpec) : Type 0 where
  pub private_key : s.private_key d ≡ spec.private_key
  pub listen_port : s.listen_port d ≡ spec.listen_port
  pub firewall_mark : s.firewall_mark d ≡ spec.firewall_mark
  pub peers : (k : Text) → s.peer d k ≡ find_peer k spec.peers
