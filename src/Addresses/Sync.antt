-- ===== src/Addresses/Sync.antt =====
-- The address of a spec in the kernel after a sync.
use talemu.Cosi.{Phase}
use talemu.Prelude.{
  ℕ, ◌%◌, ◌≤◌, Text, text_eq, Bool, true, false, ◌&&◌, List, Option, none, some, leb, ◌==◌,
  if◌then◌else◌, ◌+◌, ◌⊎◌, ◌≡◌, refl, ap, sym, ◌∙◌, inl, inr, arith, Bool-cases, Option-cases,
}
use talemu.Links.{LinkMessage}
use talemu.Addresses.{
  AddressMessage, AddressSpec, Network, created, resolve_link_name, find_address, clear_tentative,
  is_current, message_of, assign, bring_address, sync_address,
}

-- From `s` to `t` the address became `new`, and the others stayed.
pub record Changes (net : Network) (view : net.State → List AddressMessage) (s : net.State)
    (index : ℕ) (ip : Text) (bits : ℕ) (new : Option AddressMessage) (t : net.State) : Type 0 where
  pub found : find_address index ip bits (view t) ≡ new
  pub others :
      (i : ℕ) (a : Text) (b : ℕ)
      → ((i == index) && (b == bits) && text_eq a ip) ≡ false
      → find_address i a b (view t) ≡ find_address i a b (view s)

-- The flags, with or without the tentative flag on top of them.
abbrev pub IsMaybeTentative : ℕ → ℕ → Type 0
IsMaybeTentative flags wanted = (flags ≡ wanted) ⊎ (flags ≡ wanted + 64)

-- The scope and the flags of the address are those that the spec asks for; the kernel may have
-- marked the address as tentative.
abbrev pub IsWanted : AddressSpec → AddressMessage → Type 0
IsWanted spec a =
    (a.scope ≡ spec.scope % 256)
    × IsMaybeTentative a.flags (spec.flags % 256)
    × IsMaybeTentative a.attribute_flags (spec.flags % 4294967296)

-- What rtnetlink promises of a kernel in which no call fails, in terms of the addresses it holds; a
-- new address may be shown as tentative.
pub record IsNetwork (net : Network) (view : net.State → List AddressMessage) : Type 0 where
  pub deletes :
      (s : net.State) (i : ℕ) (ip : Text) (b : ℕ) (m : AddressMessage)
      → find_address i ip b (view s) ≡ some m
      → ((net.delete m s).1 ≡ true) × Changes net view s i ip b none (net.delete m s).0
  pub creates :
      (s : net.State) (m : AddressMessage)
      → find_address m.index m.address m.prefix_length (view s) ≡ none
      → ((net.create m s).1 ≡ created)
        × ((a : AddressMessage) × (a.scope ≡ m.scope)
            × IsMaybeTentative a.flags m.flags
            × IsMaybeTentative a.attribute_flags m.attribute_flags
            × Changes net view s m.index m.address m.prefix_length (some a) (net.create m s).0)
  pub announces : (s : net.State) (i : ℕ) (ip : Text) → view (net.announce i ip s) ≡ view s

clear_tentative_lem :
    (flags wanted : ℕ) → clear_tentative flags ≡ wanted → IsMaybeTentative flags wanted
clear_tentative_lem flags wanted h = elim (Bool-cases (leb 64 (flags % 128))) [
  | inl e ↦ inr (ground arith)
  | inr e ↦ inl (ground arith)
]

is_current-IsWanted :
    (spec : AddressSpec) (a : AddressMessage) → is_current spec a ≡ true → IsWanted spec a
is_current-IsWanted spec a h = (
  ground arith,
  clear_tentative_lem a.flags (spec.flags % 256) (ground arith),
  clear_tentative_lem a.attribute_flags (spec.flags % 4294967296) (ground arith),
)

module _ (net : Network) (view : net.State → List AddressMessage) (works : IsNetwork net view) where
  told_same :
      (index : ℕ) (ip : Text) (b : Bool) (t : net.State)
      → view (if b then net.announce index ip t else t) ≡ view t
  told_same index ip true t = works.announces t index ip
  told_same index ip false t = refl

  assign_lem :
      (s : net.State) (spec : AddressSpec) (index : ℕ)
      → (spec.bits ≤ 128)
      → find_address index spec.address spec.bits (view s) ≡ none
      → ((assign net spec index s).1 ≡ true)
        × ((a : AddressMessage) × IsWanted spec a
            × Changes net view s index spec.address spec.bits (some a) (assign net spec index s).0)
  unfolding assign
  assign_lem s spec index ok h =
      let msg = message_of spec index in
      let bits : spec.bits % 256 ≡ spec.bits = omega arith in
      let (made, (a, scope, flags, attribute_flags, c)) =
        works.creates s msg (ap (λ b. find_address index spec.address b (view s)) bits ∙ h) in
      let told =
        if spec.announces
        then net.announce index spec.address (net.create msg s).0
        else (net.create msg s).0 in
      let same : view told ≡ view (net.create msg s).0 =
        told_same index spec.address spec.announces (net.create msg s).0 in
      let e : assign net spec index s ≡ (told, true) = ground (arith, made) in
      rw e (
        refl,
        (
          a,
          (scope, flags, attribute_flags),
          record {
            found =
                ap (find_address index spec.address spec.bits) same
                ∙ ap (λ b. find_address index spec.address b (view (net.create msg s).0)) (sym bits)
                ∙ c.found;
            others = λ i a b y.
                ap (find_address i a b) same
                ∙ c.others i a b
                    (ap (λ v. (i == index) && (b == v) && text_eq a spec.address) bits ∙ y);
          },
        ),
      )

  -- What a sync leaves under the address of the spec.
  abbrev pub IsAssigned : net.State → AddressSpec → ℕ → net.State × Bool → Type 0
  IsAssigned s spec index r =
      (r.1 ≡ true)
      × ((a : AddressMessage) × IsWanted spec a
          × Changes net view s index spec.address spec.bits (some a) r.0)

  bring_address_lem :
      (s : net.State) (spec : AddressSpec) (index : ℕ) (addrs : List AddressMessage)
      → (spec.bits ≤ 128)
      → find_address index spec.address spec.bits addrs
        ≡ find_address index spec.address spec.bits (view s)
      → IsAssigned s spec index (bring_address net spec index addrs s)
  unfolding bring_address
  bring_address_lem s spec index addrs ok h =
      elim (Option-cases (find_address index spec.address spec.bits (view s))) [
        | inl n ↦
            let (b, (a, w, c)) = assign_lem s spec index ok n in
            let e : bring_address net spec index addrs s ≡ assign net spec index s =
              ground (arith, h, n) in
            rw e (b, (a, w, c))
        | inr (m, f) ↦ elim (Bool-cases (is_current spec m)) [
          | inl y ↦
              let e : bring_address net spec index addrs s ≡ (s, true) = ground (arith, h, f) in
              rw e (
                refl,
                (m, is_current-IsWanted spec m y, record { found = f; others = λ i a b z. refl }),
              )
          | inr y ↦
              let (d, gone) = works.deletes s index spec.address spec.bits m f in
              let t = (net.delete m s).0 in
              let (b, (a, w, c)) = assign_lem t spec index ok gone.found in
              let e : bring_address net spec index addrs s ≡ assign net spec index t =
                ground (arith, h, f, d) in
              rw e (
                b,
                (
                  a,
                  w,
                  record {
                    found = c.found;
                    others = λ i a b z. c.others i a b z ∙ gone.others i a b z;
                  },
                ),
              )
        ]
      ]

  -- Where no call of the kernel fails, a sync of a running address spec whose link exists succeeds:
  -- the address stands on the link with the scope of the spec and with its flags, to which the
  -- kernel may have added the tentative flag, whether it was there, with these or others, or not,
  -- and no other address changes.  This assumes that the listed addresses show that of the spec as
  -- it is, and that the prefix has at most 128 bits.
  pub sync_address_lem :
      (s : net.State) (spec : AddressSpec) (links : List LinkMessage) (addrs : List AddressMessage)
      → let index = resolve_link_name links spec.link_name in
        spec.phase ≡ Phase.running
        → (index == 0) ≡ false
        → (spec.bits ≤ 128)
        → find_address index spec.address spec.bits addrs
          ≡ find_address index spec.address spec.bits (view s)
        → IsAssigned s spec index (sync_address net spec links addrs s)
  unfolding sync_address
  sync_address_lem s spec links addrs p i ok h =
      let index = resolve_link_name links spec.link_name in
      let e : sync_address net spec links addrs s ≡ bring_address net spec index addrs s =
        ground (arith, p, i) in
      rw e (bring_address_lem s spec index addrs ok h)
