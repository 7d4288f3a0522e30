-- ===== src/Addresses.antt =====
-- The address spec controller: internal/pkg/machine/controllers/address_spec.go. The connection to
-- the kernel and the client of the resources are dependencies; the address is known by its text.
pub mod Sync
use talemu.Cosi.{Phase}
use talemu.Prelude.{
  ℕ, ◌-◌, ◌%◌, Text, text_eq, Bool, true, false, not, ◌&&◌, List, [], ◌∷◌, Option, none, some, leb,
  ◌==◌, if◌then◌else◌,
}
use talemu.Links.{LinkMessage}

-- rtnetlink.AddressMessage, as far as the controller reads it
pub record AddressMessage : Type 0 where
  pub family : ℕ
  pub prefix_length : ℕ
  pub flags : ℕ
  pub scope : ℕ
  pub index : ℕ
  pub address : Text
  pub attribute_flags : ℕ

-- network.AddressSpec
pub record AddressSpec : Type 0 where
  pub id : Text
  pub phase : Phase
  pub link_name : Text
  pub address : Text
  pub bits : ℕ
  pub family : ℕ
  pub scope : ℕ
  pub flags : ℕ
  pub announces : Bool

-- What a creation comes to: os.ErrExist is told apart from other errors.
pub data Creation : Type 0 where
  created : Creation
  exists : Creation
  fails : Creation

-- rtnetlink.Conn and controller.Runtime: an operation returns false for an error. `announce` sends
-- the gratuitous ARP, whose errors are logged.
pub record Network : Type 1 where
  pub State : Type 0
  pub list_links : State → Option (List LinkMessage)
  pub list : State → Option (List AddressMessage)
  pub delete : AddressMessage → State → State × Bool
  pub create : AddressMessage → State → State × Creation
  pub announce : ℕ → Text → State → State
  pub add_finalizer : Text → State → State × Bool
  pub remove_finalizer : Text → State → State × Bool

-- resolveLinkName
unfoldable pub resolve_link_name : List LinkMessage → Text → ℕ
resolve_link_name [] name = 0
resolve_link_name (l ∷ ls) name =
    let rest = resolve_link_name ls name in if text_eq l.name name then l.index else rest

-- The test of findAddress
abbrev pub is_address : ℕ → Text → ℕ → AddressMessage → Bool
is_address index ip bits a = (a.index == index) && (a.prefix_length == bits) && text_eq a.address ip

-- findAddress
unfoldable pub find_address : ℕ → Text → ℕ → List AddressMessage → Option AddressMessage
find_address index ip bits [] = none
find_address index ip bits (a ∷ more) =
    let rest = find_address index ip bits more in
    if is_address index ip bits a then some a else rest

-- flags &^ nethelpers.AddressTentative, which is 64
abbrev pub clear_tentative : ℕ → ℕ
clear_tentative f = if leb 64 (f % 128) then f - 64 else f

-- syncAddress: whether an address that exists is as the spec wants it; the flags of a message are
-- uint8, those of its attributes uint32.
abbrev pub is_current : AddressSpec → AddressMessage → Bool
is_current spec a =
    (a.scope == spec.scope % 256)
    && (clear_tentative a.flags == spec.flags % 256)
    && (clear_tentative a.attribute_flags == spec.flags % 4294967296)

-- syncAddress: the message of a new address
abbrev pub message_of : AddressSpec → ℕ → AddressMessage
message_of spec index = record {
  family = spec.family % 256;
  prefix_length = spec.bits % 256;
  flags = spec.flags % 256;
  scope = spec.scope % 256;
  index = index;
  address = spec.address;
  attribute_flags = spec.flags % 4294967296;
}

module _ (net : Network) where
  -- syncAddress: the creation; an address that exists is not an error.
  unfoldable pub assign : AddressSpec → ℕ → net.State → net.State × Bool
  assign spec index s =
      let (t, creation) = net.create (message_of spec index) s in
      let told = if spec.announces then net.announce index spec.address t else t in
      elim creation [ created ↦ (told, true) | exists ↦ (told, true) | fails ↦ (t, false) ]

  -- syncAddress: a spec that runs
  unfoldable pub bring_address :
      AddressSpec → ℕ → List AddressMessage → net.State → net.State × Bool
  unfolding assign
  bring_address spec index addrs s = elim (find_address index spec.address spec.bits addrs) [
    | none ↦ assign spec index s
    | some existing ↦
        let (t, deleted) = net.delete existing s in
        if is_current spec existing
        then (s, true)
        else if deleted
        then assign spec index t
        else (t, false)
  ]

  -- syncAddress: a spec that is torn down
  unfoldable pub drop_address : AddressSpec → ℕ → List AddressMessage → net.State → net.State × Bool
  drop_address spec index addrs s =
      if index == 0
      then net.remove_finalizer spec.id s
      else elim (find_address index spec.address spec.bits addrs) [
        | none ↦ net.remove_finalizer spec.id s
        | some existing ↦
            let (t, deleted) = net.delete existing s in
            if deleted then net.remove_finalizer spec.id t else (t, false)
      ]

  -- syncAddress
  unfoldable pub sync_address :
      AddressSpec → List LinkMessage → List AddressMessage → net.State → net.State × Bool
  unfolding bring_address drop_address
  sync_address spec links addrs s =
      let index = resolve_link_name links spec.link_name in
      elim spec.phase [
        | Phase.tearing_down ↦ drop_address spec index addrs s
        | Phase.running ↦ if index == 0 then (s, true) else bring_address spec index addrs s
      ]

  -- Run: the finalizer of a spec
  abbrev pub settle_finalizer : AddressSpec → net.State → net.State × Bool
  settle_finalizer x s = elim x.phase [
    | Phase.running ↦ net.add_finalizer x.id s
    | Phase.tearing_down ↦ net.remove_finalizer x.id s
  ]

  -- Run: the loop over the finalizers
  unfoldable pub settle_finalizers : List AddressSpec → net.State → net.State × Bool
  settle_finalizers [] s = (s, true)
  settle_finalizers (x ∷ xs) s =
      let (t, done) = settle_finalizer x s in
      let rest = settle_finalizers xs t in if done then rest else (t, false)

  -- Run: the loop over the specs
  unfoldable pub sync_addresses :
      List AddressSpec → List LinkMessage → List AddressMessage → net.State → net.State × Bool
  unfolding sync_address
  sync_addresses [] links addrs s = (s, true)
  sync_addresses (x ∷ xs) links addrs s =
      let (t, done) = sync_address x links addrs s in
      let rest = sync_addresses xs links addrs t in if done then rest else (t, false)

  -- Run: a round up to the status resources
  unfoldable pub address_round : List AddressSpec → net.State → net.State × Bool
  unfolding settle_finalizers sync_addresses
  address_round specs s =
      let (t, done) = settle_finalizers specs s in
      if not done then (t, false) else elim (net.list_links t) [
        | none ↦ (t, false)
        | some links ↦ elim (net.list t) [
          | none ↦ (t, false)
          | some addrs ↦ sync_addresses specs links addrs t
        ]
      ]
