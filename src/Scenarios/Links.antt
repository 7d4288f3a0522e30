-- ===== src/Scenarios/Links.antt =====
-- The link spec controller on the kernel of Kernel.
use talemu.Cosi.{Phase}
use talemu.Prelude.{
  ℕ, Text, codes, text_eq, true, false, List, [], ◌∷◌, none, some, ◌≡◌, refl, arith,
}
use talemu.Wireguard.Patch.{is_sorted}
use talemu.Links.Sync.{IsWireguard}
use talemu.Links.{
  LinkMessage, LinkSpec, kind_wireguard, empty_spec, find_link, sync_link, run_round,
}
use talemu.Links.Kernels.{Leaves}
use talemu.Links.Rounds.{AreApart, AreDistinct, AreWireguard, HaveLinks, run_round-HaveLinks}
use talemu.Links.Removal.{sync_link-replaced}
use talemu.Scenarios.Kernel.{
  slots, plain, plain_codec, shown, Slots, new_message, slots-IsWorking, plain-IsSound,
}

abbrev spec_of : Text → Phase → Text → ℕ → LinkSpec
spec_of name phase kind mtu = record {
  id = name;
  phase = phase;
  name = name;
  logical = true;
  up = true;
  mtu = mtu;
  kind = kind;
  link_type = 65534;
  wireguard = empty_spec;
}

abbrev siderolink : LinkSpec
siderolink = spec_of (codes "siderolink") Phase.running kind_wireguard 1280

abbrev kubespan : LinkSpec
kubespan = spec_of (codes "kubespan") Phase.running kind_wireguard 0

-- `siderolink` stands there as a dummy link.
abbrev pub dummy : LinkMessage
dummy = record (new_message 1 (codes "siderolink") (codes "dummy")) { index = 1 }

abbrev pub two_slots : Slots
two_slots = none ∷ some dummy ∷ []

siderolink-IsWireguard : IsWireguard plain siderolink
unfolding text_eq is_sorted plain_codec
siderolink-IsWireguard = record {
  is_logical = refl;
  is_wireguard = refl;
  encodable = record { sorted = refl; canonical = tt; key = refl };
}

kubespan-IsWireguard : IsWireguard plain kubespan
unfolding text_eq is_sorted plain_codec
kubespan-IsWireguard = record {
  is_logical = refl;
  is_wireguard = refl;
  encodable = record { sorted = refl; canonical = tt; key = refl };
}

abbrev both : List LinkSpec
both = siderolink ∷ kubespan ∷ []

both-AreDistinct : AreDistinct both
unfolding text_eq
both-AreDistinct = ((refl, tt), (tt, tt))

both-AreWireguard : AreWireguard plain (shown two_slots) both
unfolding text_eq find_link
both-AreWireguard = (
  refl,
  siderolink-IsWireguard,
  λ m e f. ground arith,
  (refl, kubespan-IsWireguard, λ m e f. ground arith, tt),
)

run_round-HaveLinks_example :
    let end = run_round slots plain both two_slots in
    (end.1 ≡ true)
    × HaveLinks both (shown end.0)
    × ((n : Text) → AreApart n both → find_link n (shown end.0) ≡ find_link n (shown two_slots))
run_round-HaveLinks_example =
    run_round-HaveLinks slots plain shown slots-IsWorking plain-IsSound both two_slots
      both-AreDistinct both-AreWireguard

abbrev retired : LinkSpec
retired = spec_of (codes "siderolink") Phase.tearing_down kind_wireguard 1280

abbrev bond : LinkSpec
bond = spec_of (codes "siderolink") Phase.running (codes "bond") 0

bond-kind : text_eq bond.kind kind_wireguard ≡ false
unfolding text_eq
bond-kind = refl

dummy-found : find_link bond.name (shown two_slots) ≡ some dummy
unfolding text_eq find_link
dummy-found = refl

sync_link-replaced_example :
    let o = sync_link slots plain bond (shown two_slots) two_slots in
    Leaves slots shown two_slots (codes "siderolink") none o.state o.succeeded
sync_link-replaced_example =
    sync_link-replaced slots plain shown slots-IsWorking two_slots bond (shown two_slots) dummy
      (codes "dummy") refl refl bond-kind dummy-found dummy-found refl refl
