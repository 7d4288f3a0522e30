-- ===== src/Links/Kernels.antt =====
-- What the documentation of rtnetlink and wgctrl promises of a kernel in which no call fails, in
-- terms of the links that it holds, which names tell apart.
use talemu.Prelude.{
  ℕ, ◌%◌, ◌-◌, ◌+◌, Text, text_eq, Bool, true, false, List, Option, none, some, ◌≡◌, refl,
}
use talemu.Wireguard.{WireguardSpec, WgDevice, Config, decode}
use talemu.Wireguard.Patch.{is_sorted, AreCanonical}
use talemu.Links.{
  LinkMessage, Kernel, Talos, Outcome, kind_wireguard, empty_spec, find_link, and_then,
}

-- The flags with IFF_UP changed.
abbrev pub with_up : ℕ → ℕ → ℕ
with_up flag flags = flags - flags % 2 + flag

-- The settings of a device as the controller compares them.
abbrev pub decoded : Talos → WgDevice → WireguardSpec
decoded talos dev = talos.sort (decode talos.zero_key empty_spec dev false)

-- From `s` to `t` the link `name` became `new`, and the others stayed.
pub record Leaves (k : Kernel) (view : k.State → List LinkMessage) (s : k.State) (name : Text)
    (new : Option LinkMessage) (t : k.State) (succeeded : Bool) : Type 0 where
  pub succeeds : succeeded ≡ true
  pub found : find_link name (view t) ≡ new
  pub others : (o : Text) → text_eq name o ≡ false → find_link o (view t) ≡ find_link o (view s)

pub record IsWorking (k : Kernel) (talos : Talos) (view : k.State → List LinkMessage) : Type 0 where
  pub lists : (s : k.State) → k.list s ≡ some (view s)
  pub deletes :
      (s : k.State) (n : Text) (m : LinkMessage)
      → find_link n (view s) ≡ some m
      → Leaves k view s n none (k.delete m.index s).0 (k.delete m.index s).1
  pub creates :
      (s : k.State) (type : ℕ) (n kind : Text)
      → find_link n (view s) ≡ none
      → (m : LinkMessage) × (m.link_type ≡ type)
        × (m.info ≡ some kind)
        × Leaves k view s n (some m) (k.create type n kind s).0 (k.create type n kind s).1
  pub sets_flags :
      (s : k.State) (n : Text) (m e : LinkMessage) (flag : ℕ)
      → find_link n (view s) ≡ some m
      → e.index ≡ m.index
      → Leaves k view s n
          (some (record m { flags = with_up flag m.flags }))
          (k.set_flags e flag s).0
          (k.set_flags e flag s).1
  pub sets_mtu :
      (s : k.State) (n : Text) (m e : LinkMessage) (mtu : ℕ)
      → find_link n (view s) ≡ some m
      → e.index ≡ m.index
      → Leaves k view s n
          (some (record m { mtu = mtu }))
          (k.set_mtu e mtu s).0
          (k.set_mtu e mtu s).1
  pub has_client : k.has_wireguard ≡ true
  pub has_device :
      (s : k.State) (n : Text) (m : LinkMessage)
      → find_link n (view s) ≡ some m
      → m.info ≡ some kind_wireguard
      → (d : WgDevice) × (k.device n s ≡ some d)
        × (is_sorted (decoded talos d).peers ≡ true)
        × AreCanonical talos.codec (decoded talos d).peers
  pub configures :
      (s : k.State) (n : Text) (m : LinkMessage) (c : Config)
      → find_link n (view s) ≡ some m
      → m.info ≡ some kind_wireguard
      → ((k.configure_device n c s).1 ≡ true) × (view (k.configure_device n c s).0 ≡ view s)
  pub bumps : (s : k.State) → ((k.bump_refresh s).1 ≡ true) × (view (k.bump_refresh s).0 ≡ view s)
  pub adds :
      (s : k.State) (i : Text)
      → ((k.add_finalizer i s).1 ≡ true) × (view (k.add_finalizer i s).0 ≡ view s)
  pub removes :
      (s : k.State) (i : Text)
      → ((k.remove_finalizer i s).1 ≡ true) × (view (k.remove_finalizer i s).0 ≡ view s)

module _ (k : Kernel) (view : k.State → List LinkMessage) where
  pub and_then_lem :
      (talos : Talos) (links : List LinkMessage) (r : k.State × Bool) (rest : k.State → Outcome k)
      → r.1 ≡ true
      → and_then k talos links r rest ≡ rest r.0
  and_then_lem talos links (s, true) rest h = refl
  and_then_lem talos links (s, false) rest h = cc
