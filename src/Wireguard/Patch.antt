-- ===== src/Wireguard/Patch.antt =====
-- The patch of Encode, applied to the device that it was made for.
use talemu.Prelude.{
  Text, text_eq, text_eq_iff, text_lt, text_lt_irrefl, text_lt_trans, Bool, true, false, ◌&&◌, List,
  [], ◌∷◌, Option, none, some, if◌then◌else◌, ◌≡◌, refl, sym, ap, ◌∙◌, ◌⊎◌, inl, inr, arith,
  Bool-cases,
}
use talemu.Image.{is_empty}
use talemu.Wireguard.{Peer, PeerConfig, Codec, optional, add_peer, delete_peer}
use talemu.Wireguard.Device.{preshared_of, endpoint_of, merged, effect, ReplaceAll, find_peer}

-- Every key of the list is after `t`.
unfoldable pub all_above : Text → List Peer → Bool
all_above t [] = true
all_above t (p ∷ ps) = text_lt t p.public_key && all_above t ps

-- Peers in the order of their keys, no key twice.
unfoldable pub is_sorted : List Peer → Bool
is_sorted [] = true
is_sorted (p ∷ ps) = all_above p.public_key ps && is_sorted ps

all_above-find_peer : (t : Text) (ps : List Peer) → all_above t ps ≡ true → find_peer t ps ≡ none
unfolding all_above find_peer
all_above-find_peer t [] h = refl
all_above-find_peer t (p ∷ ps) h =
    ground (arith, all_above-find_peer t ps, text_eq_iff p.public_key t, text_lt_irrefl t)

pub all_above_trans :
    (u t : Text) (ps : List Peer)
    → text_lt u t ≡ true
    → all_above t ps ≡ true
    → all_above u ps ≡ true
unfolding all_above
all_above_trans u t [] h k = refl
all_above_trans u t (p ∷ ps) h k =
    ground (arith, all_above_trans u t ps, text_lt_trans u t p.public_key)

-- The codec reads the texts of the peer as they stand.
pub record IsCanonical (codec : Codec) (p : Peer) : Type 0 where
  pub key : codec.parse_key p.public_key ≡ some p.public_key
  pub preshared :
      (is_empty p.preshared_key ≡ true) ⊎ (codec.parse_key p.preshared_key ≡ some p.preshared_key)
  pub endpoint : (is_empty p.endpoint ≡ true) ⊎ (codec.resolve p.endpoint ≡ some p.endpoint)

abbrev pub AreCanonical : Codec → List Peer → Type 0
AreCanonical codec [] = Unit
AreCanonical codec (p ∷ ps) = IsCanonical codec p × AreCanonical codec ps

-- A peer of the spec on a device that had `old` under its key: an empty preshared key or endpoint
-- leaves the old one.
abbrev pub settled : Option Peer → Option Peer → Option Peer
settled none old = none
settled (some r) old = some (record r {
  preshared_key = if is_empty r.preshared_key then preshared_of old else r.preshared_key;
  endpoint = if is_empty r.endpoint then endpoint_of old else r.endpoint;
})

module _ (codec : Codec) where
  optional_lem :
      (parse : Text → Option Text) (t : Text)
      → (is_empty t ≡ true) ⊎ (parse t ≡ some t)
      → optional parse t ≡ some (if is_empty t then none else some t)
  optional_lem parse [] h = refl
  optional_lem parse (c ∷ t) (inl h) = cc
  optional_lem parse (c ∷ t) (inr h) = ground arith

  -- What addPeer appends for a canonical peer, and what it does to the device.
  pub add_lem :
      (p : Peer)
      → IsCanonical codec p
      → (c : PeerConfig) × (add_peer codec p ≡ some c)
        × (c.public_key ≡ p.public_key)
        × (c.remove ≡ false)
        × (c.replace_allowed_ips ≡ true)
        × ((old : Option Peer) → some (merged c old) ≡ settled (some p) old)
  unfolding add_peer
  add_lem p h = (
    record {
      public_key = p.public_key;
      remove = false;
      preshared_key = if is_empty p.preshared_key then none else some p.preshared_key;
      endpoint = if is_empty p.endpoint then none else some p.endpoint;
      keepalive = some p.keepalive;
      replace_allowed_ips = true;
      allowed_ips = p.allowed_ips;
    },
    ground (
      arith,
      h.key,
      optional_lem codec.parse_key p.preshared_key h.preshared,
      optional_lem codec.resolve p.endpoint h.endpoint,
    ),
    refl,
    refl,
    refl,
    λ old. ground arith,
  )

  pub delete_lem :
      (p : Peer)
      → IsCanonical codec p
      → (c : PeerConfig) × (delete_peer codec p ≡ some c)
        × (c.public_key ≡ p.public_key)
        × (c.remove ≡ true)
  unfolding delete_peer
  delete_lem p h = (
    record {
      public_key = p.public_key;
      remove = true;
      preshared_key = none;
      endpoint = none;
      keepalive = none;
      replace_allowed_ips = false;
      allowed_ips = [];
    },
    ground (arith, h.key),
    refl,
    refl,
  )

if_self : (b : Bool) (t : Text) → (if b then t else t) ≡ t
if_self true t = refl
if_self false t = refl

settled_self : (r : Peer) → settled (some r) (some r) ≡ some r
settled_self r =
    rw
      (if_self (is_empty r.preshared_key) r.preshared_key, if_self (is_empty r.endpoint) r.endpoint)
      refl

-- What the patch of two lists of peers does under each key.
pub record IsPatch (existing spec : List Peer) (cs : List PeerConfig) : Type 0 where
  pub replaces : ReplaceAll cs
  pub elsewhere :
      (k : Text) (old : Option Peer)
      → find_peer k existing ≡ none
      → find_peer k spec ≡ none
      → effect cs k old ≡ old
  pub settles :
      (k : Text)
      → effect cs k (find_peer k existing) ≡ settled (find_peer k spec) (find_peer k existing)

absent :
    (t k : Text) (ps : List Peer)
    → text_eq t k ≡ true
    → all_above t ps ≡ true
    → find_peer k ps ≡ none
absent t k ps y h =
    ap (λ x. find_peer x ps) (sym ((text_eq_iff t k).0 y)) ∙ all_above-find_peer t ps h

module _ (existing spec : List Peer) (cs : List PeerConfig) (rest : IsPatch existing spec cs) where
  pub IsPatch-added :
      (r : Peer) (c : PeerConfig)
      → all_above r.public_key existing ≡ true
      → all_above r.public_key spec ≡ true
      → c.public_key ≡ r.public_key
      → c.remove ≡ false
      → c.replace_allowed_ips ≡ true
      → ((old : Option Peer) → some (merged c old) ≡ settled (some r) old)
      → IsPatch existing (r ∷ spec) (c ∷ cs)
  unfolding effect find_peer
  IsPatch-added r c h k e n a m = record {
    replaces = (inr a, rest.replaces);
    elsewhere = λ t old p q. ground (arith, rest.elsewhere t old, ap (λ x. text_eq x t) e);
    settles = λ t. elim (Bool-cases (text_eq r.public_key t)) [
      | inl y ↦ ground (
        arith,
        absent r.public_key t existing y h,
        absent r.public_key t spec y k,
        rest.elsewhere t (some (merged c none)),
        ap (λ x. text_eq x t) e,
        m none,
      )
      | inr y ↦ ground (arith, rest.settles t, ap (λ x. text_eq x t) e)
    ];
  }

  pub IsPatch-deleted :
      (l : Peer) (c : PeerConfig)
      → all_above l.public_key existing ≡ true
      → all_above l.public_key spec ≡ true
      → c.public_key ≡ l.public_key
      → c.remove ≡ true
      → IsPatch (l ∷ existing) spec (c ∷ cs)
  unfolding effect find_peer
  IsPatch-deleted l c h k e n = record {
    replaces = (inl n, rest.replaces);
    elsewhere = λ t old p q. ground (arith, rest.elsewhere t old, ap (λ x. text_eq x t) e);
    settles = λ t. elim (Bool-cases (text_eq l.public_key t)) [
      | inl y ↦ ground (
        arith,
        absent l.public_key t existing y h,
        absent l.public_key t spec y k,
        rest.elsewhere t none,
        ap (λ x. text_eq x t) e,
      )
      | inr y ↦ ground (arith, rest.settles t, ap (λ x. text_eq x t) e)
    ];
  }

  pub IsPatch-replaced :
      (l r : Peer) (c : PeerConfig)
      → all_above r.public_key existing ≡ true
      → all_above r.public_key spec ≡ true
      → l.public_key ≡ r.public_key
      → c.public_key ≡ r.public_key
      → c.remove ≡ false
      → c.replace_allowed_ips ≡ true
      → ((old : Option Peer) → some (merged c old) ≡ settled (some r) old)
      → IsPatch (l ∷ existing) (r ∷ spec) (c ∷ cs)
  unfolding effect find_peer
  IsPatch-replaced l r c h k e e' n a m = record {
    replaces = (inr a, rest.replaces);
    elsewhere = λ t old p q.
        ground (arith, rest.elsewhere t old, ap (λ x. text_eq x t) e, ap (λ x. text_eq x t) e');
    settles = λ t. elim (Bool-cases (text_eq r.public_key t)) [
      | inl y ↦ ground (
        arith,
        absent r.public_key t existing y h,
        absent r.public_key t spec y k,
        rest.elsewhere t (some (merged c (some l))),
        ap (λ x. text_eq x t) e,
        ap (λ x. text_eq x t) e',
        m (some l),
      )
      | inr y ↦ ground (arith, rest.settles t, ap (λ x. text_eq x t) e, ap (λ x. text_eq x t) e')
    ];
  }

  pub IsPatch-kept :
      (l r : Peer)
      → all_above r.public_key existing ≡ true
      → all_above r.public_key spec ≡ true
      → l ≡ r
      → IsPatch (l ∷ existing) (r ∷ spec) cs
  unfolding effect find_peer
  IsPatch-kept l r h k e = rw e (record {
    replaces = rest.replaces;
    elsewhere = λ t old p q. ground (arith, rest.elsewhere t old);
    settles = λ t. elim (Bool-cases (text_eq r.public_key t)) [
      | inl y ↦ ground (
        arith,
        absent r.public_key t existing y h,
        absent r.public_key t spec y k,
        rest.elsewhere t (some r),
        settled_self r,
      )
      | inr y ↦ ground (arith, rest.settles t)
    ];
  })
