-- ===== src/Scenarios/Addresses.antt =====
-- A kernel that keeps a list of addresses, and the address spec controller on it.
use talemu.Cosi.{Phase}
use talemu.Prelude.{
  ℕ, Text, codes, text_eq, eq_of_text_eq, text_eq_refl, true, false, ◌&&◌, List, [], ◌∷◌, ◌++◌,
  Option, none, some, ◌==◌, leb, ◌%◌, ◌+◌, if◌then◌else◌, ◌≡◌, refl, ap, ◌∙◌, arith, Bool-cases,
  inl, inr,
}
use talemu.Links.{LinkMessage}
use talemu.Addresses.{
  AddressMessage, AddressSpec, Network, Creation, created, exists, is_address, find_address,
  resolve_link_name, sync_address,
}
use talemu.Addresses.Sync.{IsMaybeTentative, IsNetwork, IsAssigned, sync_address_lem}

abbrev remove : ℕ → Text → ℕ → List AddressMessage → List AddressMessage
remove i ip b [] = []
remove i ip b (a ∷ more) =
    if is_address i ip b a then remove i ip b more else a ∷ remove i ip b more

-- A new address is tentative.
abbrev set_tentative : ℕ → ℕ
set_tentative f = if leb 64 (f % 128) then f else f + 64

abbrev shown : AddressMessage → AddressMessage
shown m = record m {
  flags = set_tentative m.flags;
  attribute_flags = set_tentative m.attribute_flags;
}

set_tentative-IsMaybeTentative : (f : ℕ) → IsMaybeTentative (set_tentative f) f
set_tentative-IsMaybeTentative f = elim (Bool-cases (leb 64 (f % 128))) [
  | inl e ↦ inl (ground arith)
  | inr e ↦ inr (ground arith)
]

abbrev create_by :
    Option AddressMessage → AddressMessage → List AddressMessage → List AddressMessage × Creation
create_by none m s = (s ++ shown m ∷ [], created)
create_by (some a) m s = (s, exists)

-- The links can be listed or not.
abbrev table : Option (List LinkMessage) → Network
table links = record {
  State = List AddressMessage;
  list_links = λ s. links;
  list = λ s. some s;
  delete = λ m s. (remove m.index m.address m.prefix_length s, true);
  create = λ m s. create_by (find_address m.index m.address m.prefix_length s) m s;
  announce = λ i ip s. s;
  add_finalizer = λ i s. (s, true);
  remove_finalizer = λ i s. (s, true);
}

abbrev itself : List AddressMessage → List AddressMessage
itself s = s

found_key :
    (i : ℕ) (ip : Text) (b : ℕ) (s : List AddressMessage) (m : AddressMessage)
    → find_address i ip b s ≡ some m
    → (m.index ≡ i) × (m.address ≡ ip) × (m.prefix_length ≡ b)
unfolding find_address
found_key i ip b [] m h = cc
found_key i ip b (a ∷ more) m h = elim (Bool-cases (is_address i ip b a)) [
  | inl e ↦ (ground arith, ground (arith, eq_of_text_eq a.address ip), ground arith)
  | inr e ↦ found_key i ip b more m (ground arith)
]

find-remove :
    (i : ℕ) (ip : Text) (b : ℕ) (s : List AddressMessage)
    → find_address i ip b (remove i ip b s) ≡ none
unfolding find_address
find-remove i ip b [] = refl
find-remove i ip b (a ∷ more) = elim (Bool-cases (is_address i ip b a)) [
  | inl e ↦ ground (arith, find-remove i ip b more)
  | inr e ↦ ground (arith, find-remove i ip b more)
]

other_key :
    (i j : ℕ) (ip jp : Text) (b c : ℕ) (a : AddressMessage)
    → ((j == i) && (c == b) && text_eq jp ip) ≡ false
    → is_address i ip b a ≡ true
    → is_address j jp c a ≡ false
other_key i j ip jp b c a h e = elim (Bool-cases (text_eq a.address jp)) [
  | inl y ↦ ground (arith, ap (λ t. text_eq t ip) (eq_of_text_eq a.address jp y))
  | inr y ↦ ground arith
]

find-remove_other :
    (i j : ℕ) (ip jp : Text) (b c : ℕ) (s : List AddressMessage)
    → ((j == i) && (c == b) && text_eq jp ip) ≡ false
    → find_address j jp c (remove i ip b s) ≡ find_address j jp c s
unfolding find_address
find-remove_other i j ip jp b c [] h = refl
find-remove_other i j ip jp b c (a ∷ more) h = elim (Bool-cases (is_address i ip b a)) [
  | inl e ↦ ground (arith, find-remove_other i j ip jp b c more h, other_key i j ip jp b c a h e)
  | inr e ↦ ground (arith, find-remove_other i j ip jp b c more h)
]

find-append :
    (i : ℕ) (ip : Text) (b : ℕ) (m : AddressMessage) (s : List AddressMessage)
    → find_address i ip b s ≡ none
    → is_address i ip b m ≡ true
    → find_address i ip b (s ++ m ∷ []) ≡ some m
unfolding find_address
find-append i ip b m [] h e = ground arith
find-append i ip b m (a ∷ more) h e = elim (Bool-cases (is_address i ip b a)) [
  | inl y ↦ ground arith
  | inr y ↦ ground (arith, find-append i ip b m more)
]

find-append_other :
    (i : ℕ) (ip : Text) (b : ℕ) (m : AddressMessage) (s : List AddressMessage)
    → is_address i ip b m ≡ false
    → find_address i ip b (s ++ m ∷ []) ≡ find_address i ip b s
unfolding find_address
find-append_other i ip b m [] e = ground arith
find-append_other i ip b m (a ∷ more) e = ground (arith, find-append_other i ip b m more e)

table-IsNetwork : (links : Option (List LinkMessage)) → IsNetwork (table links) itself
table-IsNetwork links = record {
  deletes = λ s i ip b m h.
      let (e, f, g) = found_key i ip b s m h in
      (
        refl,
        rw (e, f, g)
            (record {
              found = find-remove i ip b s;
              others = λ j jp c k. find-remove_other i j ip jp b c s k;
            }),
      );
  creates = λ s m h.
      let e : (table links).create m s ≡ (s ++ shown m ∷ [], created) =
        ap (λ o. create_by o m s) h in
      let own : is_address m.index m.address m.prefix_length (shown m) ≡ true =
        ground (arith, text_eq_refl m.address) in
      (
        ap (λ r. r.1) e,
        (
          shown m,
          refl,
          set_tentative-IsMaybeTentative m.flags,
          set_tentative-IsMaybeTentative m.attribute_flags,
          record {
            found =
                ap (λ r. find_address m.index m.address m.prefix_length r.0) e
                ∙ find-append m.index m.address m.prefix_length (shown m) s h own;
            others = λ j jp c k.
                ap (λ r. find_address j jp c r.0) e
                ∙ find-append_other j jp c (shown m) s
                    (other_key m.index j m.address jp m.prefix_length c (shown m) k own);
          },
        ),
      );
  announces = λ s i ip. refl;
}

abbrev link_one : LinkMessage
link_one = record {
  family = 0;
  link_type = 65534;
  index = 7;
  flags = 1;
  name = codes "siderolink";
  mtu = 1280;
  info = some (codes "wireguard");
}

abbrev permanent : Phase → AddressSpec
permanent phase = record {
  id = codes "operator/siderolink";
  phase = phase;
  link_name = codes "siderolink";
  address = codes "fd00::2";
  bits = 64;
  family = 10;
  scope = 0;
  flags = 128;
  announces = true;
}

-- The address stands there, tentative and of another scope.
abbrev tentative : AddressMessage
tentative = record {
  family = 10;
  prefix_length = 64;
  flags = 192;
  scope = 253;
  index = 7;
  address = codes "fd00::2";
  attribute_flags = 192;
}

siderolink_index : resolve_link_name (link_one ∷ []) (codes "siderolink") ≡ 7
unfolding resolve_link_name text_eq
siderolink_index = refl

sync_address_lem_example :
    IsAssigned
      (table none)
      itself
      (table-IsNetwork none)
      (tentative ∷ [])
      (permanent Phase.running)
      (resolve_link_name (link_one ∷ []) (codes "siderolink"))
      (sync_address
        (table none)
        (permanent Phase.running)
        (link_one ∷ [])
        (tentative ∷ [])
        (tentative ∷ []))
sync_address_lem_example =
    sync_address_lem (table none) itself (table-IsNetwork none) (tentative ∷ [])
      (permanent Phase.running) (link_one ∷ []) (tentative ∷ []) refl
      (ap (λ i. i == 0) siderolink_index) (omega arith) refl
