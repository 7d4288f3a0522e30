-- ===== src/Links.antt =====
-- The link spec controller: internal/pkg/machine/controllers/link_spec.go. The connections to the
-- kernel, the clients of WireGuard and of the resources, and the helpers of Talos are dependencies.
pub mod Kernels
pub mod Settle
pub mod Sync
pub mod Rounds
pub mod Removal
use talemu.Cosi.{Phase}
use talemu.Prelude.{
  ℕ, ◌%◌, ◌-◌, ◌+◌, Text, text_eq, Bool, true, false, not, ◌&&◌, ◌||◌, List, [], ◌∷◌, Option, none,
  some, ◌==◌, if◌then◌else◌, codes,
}
use talemu.Wireguard.{WireguardSpec, WgDevice, Config, Codec, encode, decode}

-- rtnetlink.LinkMessage, as far as the controller reads it: `info` is the kind of Attributes.Info,
-- and `none` where that is nil.
pub record LinkMessage : Type 0 where
  pub family : ℕ
  pub link_type : ℕ
  pub index : ℕ
  pub flags : ℕ
  pub name : Text
  pub mtu : ℕ
  pub info : Option Text

-- network.LinkSpec
pub record LinkSpec : Type 0 where
  pub id : Text
  pub phase : Phase
  pub name : Text
  pub logical : Bool
  pub up : Bool
  pub mtu : ℕ
  pub kind : Text
  pub link_type : ℕ
  pub wireguard : WireguardSpec

-- rtnetlink.Conn, wgctrl.Client and controller.Runtime: an operation returns false for an error.
pub record Kernel : Type 1 where
  pub State : Type 0
  pub list : State → Option (List LinkMessage)
  pub delete : ℕ → State → State × Bool
  pub create : ℕ → Text → Text → State → State × Bool
  pub set_flags : LinkMessage → ℕ → State → State × Bool
  pub set_mtu : LinkMessage → ℕ → State → State × Bool
  pub has_wireguard : Bool
  pub device : Text → State → Option WgDevice
  pub configure_device : Text → Config → State → State × Bool
  pub bump_refresh : State → State × Bool
  pub add_finalizer : Text → State → State × Bool
  pub remove_finalizer : Text → State → State × Bool

-- WireguardSpec.Sort, WireguardSpec.Equal, what Encode needs, and the text of the zero key
pub record Talos : Type 0 where
  pub codec : Codec
  pub sort : WireguardSpec → WireguardSpec
  pub equal : WireguardSpec → WireguardSpec → Bool
  pub zero_key : Text

-- network.LinkKindWireguard
abbrev pub kind_wireguard : Text
kind_wireguard = codes "wireguard"

abbrev pub empty_spec : WireguardSpec
empty_spec = record {
  private_key = [];
  public_key = [];
  listen_port = 0;
  firewall_mark = 0;
  peers = [];
}

-- FindLink
unfoldable pub find_link : Text → List LinkMessage → Option LinkMessage
find_link name [] = none
find_link name (m ∷ ms) = if text_eq m.name name then some m else find_link name ms

-- existing.Flags & IFF_UP == IFF_UP, where IFF_UP is 1
abbrev pub is_up : LinkMessage → Bool
is_up m = m.flags % 2 == 1

-- `existing.Attributes.MTU = ...`, which writes into the list of the links
abbrev pub write_mtu : Text → ℕ → List LinkMessage → List LinkMessage
write_mtu name mtu [] = []
write_mtu name mtu (m ∷ ms) =
    if text_eq m.name name then record m { mtu = mtu } ∷ ms else m ∷ write_mtu name mtu ms

-- What a sync leaves: the kernel, the list of the links, and whether there was no error.
pub record Outcome (k : Kernel) : Type 0 where
  pub state : k.State
  pub links : List LinkMessage
  pub succeeded : Bool

-- `if err := ...; err != nil { return err }`
abbrev pub attempt : (k : Kernel) → k.State × Bool → (k.State → k.State × Bool) → k.State × Bool
attempt k (s, true) rest = rest s
attempt k (s, false) rest = (s, false)

module _ (k : Kernel) (talos : Talos) where
  abbrev pub and_then : List LinkMessage → k.State × Bool → (k.State → Outcome k) → Outcome k
  and_then links (s, true) rest = rest s
  and_then links (s, false) rest = record { state = s; links = links; succeeded = false }

  abbrev pub done : List LinkMessage → k.State → Outcome k
  done links s = record { state = s; links = links; succeeded = true }

  -- syncLink: the WireGuard settings
  unfoldable pub sync_wireguard : LinkSpec → k.State → k.State × Bool
  sync_wireguard spec s =
      if not (text_eq spec.kind kind_wireguard)
      then (s, true)
      else if not k.has_wireguard
      then (s, false)
      else elim (k.device spec.name s) [
        | none ↦ (s, false)
        | some dev ↦
            let existing = talos.sort (decode talos.zero_key empty_spec dev false) in
            let wanted = talos.sort spec.wireguard in
            if not (talos.equal existing wanted)
            then elim (encode talos.codec wanted existing) [
              | none ↦ (s, false)
              | some config ↦ attempt k (k.configure_device spec.name config s) k.bump_refresh
            ]
            else (s, true)
      ]

  -- syncLink: the UP flag
  unfoldable pub sync_up : LinkSpec → LinkMessage → k.State → k.State × Bool
  sync_up spec existing s =
      if (is_up existing && spec.up) || (not (is_up existing) && not spec.up)
      then (s, true)
      else k.set_flags existing (if spec.up then 1 else 0) s

  -- syncLink: the MTU
  unfoldable pub sync_mtu : LinkSpec → LinkMessage → List LinkMessage → k.State → Outcome k
  sync_mtu spec existing links s =
      if not (spec.mtu == 0) && not (existing.mtu == spec.mtu)
      then and_then links (k.set_mtu existing spec.mtu s)
          (done (write_mtu existing.name spec.mtu links))
      else done links s

  -- syncLink: what is done to a link that exists
  unfoldable pub settle : LinkSpec → LinkMessage → List LinkMessage → k.State → Outcome k
  settle spec existing links s =
      and_then links (sync_wireguard spec s)
        (λ s1. and_then links (sync_up spec existing s1) (sync_mtu spec existing links))

  -- syncLink: a link that does not exist
  unfoldable pub create_link : LinkSpec → List LinkMessage → k.State → Outcome k
  create_link spec links s =
      if not spec.logical
      then done links s
      else if not (text_eq spec.kind kind_wireguard)
      then done links s
      else and_then links (k.create spec.link_type spec.name spec.kind s) (λ s1. elim (k.list s1) [
        | none ↦ record { state = s1; links = []; succeeded = false }
        | some fresh ↦ elim (find_link spec.name fresh) [
          | none ↦ record { state = s1; links = fresh; succeeded = false }
          | some created ↦ settle spec created fresh s1
        ]
      ])

  abbrev pub finish : LinkSpec → List LinkMessage → k.State → Outcome k
  finish spec links s = and_then links (k.remove_finalizer spec.id s) (done links)

  -- syncLink: the case of a spec that is torn down
  unfoldable pub tear_down : LinkSpec → List LinkMessage → k.State → Outcome k
  tear_down spec links s =
      if spec.logical
      then elim (find_link spec.name links) [
        | none ↦ finish spec links s
        | some existing ↦ and_then links (k.delete existing.index s) (λ s1. elim (k.list s1) [
          | none ↦ record { state = s1; links = []; succeeded = false }
          | some fresh ↦ finish spec fresh s1
        ])
      ]
      else finish spec links s

  -- syncLink: the case of a spec that runs
  unfoldable pub bring_up : LinkSpec → List LinkMessage → k.State → Outcome k
  bring_up spec links s = elim (find_link spec.name links) [
    | none ↦ create_link spec links s
    | some existing ↦
        if spec.logical
        then elim existing.info [
          | none ↦ done links s
          | some kind ↦
              if not (existing.link_type == spec.link_type) || not (text_eq kind spec.kind)
              then and_then links (k.delete existing.index s) (create_link spec links)
              else settle spec existing links s
        ]
        else settle spec existing links s
  ]

  -- syncLink
  unfoldable pub sync_link : LinkSpec → List LinkMessage → k.State → Outcome k
  sync_link spec links s = elim spec.phase [
    | Phase.running ↦ bring_up spec links s
    | Phase.tearing_down ↦ tear_down spec links s
  ]

  -- Run: the finalizers of the specs that run
  unfoldable pub add_finalizers : List LinkSpec → k.State → k.State × Bool
  add_finalizers [] s = (s, true)
  add_finalizers (spec ∷ specs) s = elim spec.phase [
    | Phase.tearing_down ↦ add_finalizers specs s
    | Phase.running ↦ attempt k (k.add_finalizer spec.id s) (add_finalizers specs)
  ]

  -- Run: the loop over the specs, which goes on after an error
  unfoldable pub sync_links : List LinkSpec → List LinkMessage → k.State → Outcome k
  sync_links [] links s = done links s
  sync_links (spec ∷ specs) links s =
      let first = sync_link spec links s in
      let rest = sync_links specs first.links first.state in
      record rest { succeeded = first.succeeded && rest.succeeded }

  -- Run: one round
  unfoldable pub run_round : List LinkSpec → k.State → k.State × Bool
  run_round specs s = attempt k (add_finalizers specs s) (λ t. elim (k.list t) [
    | none ↦ (t, false)
    | some links ↦ let outcome = sync_links specs links t in (outcome.state, outcome.succeeded)
  ])
