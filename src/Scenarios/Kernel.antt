-- ===== src/Scenarios/Kernel.antt =====
-- A kernel that keeps its links in slots, and a codec of plain texts.
use talemu.Prelude.{
  ℕ, suc, ◌≤◌, Text, codes, text_eq, text_eq_iff, text_eq_refl, Bool, true, false, List, [], ◌∷◌,
  ◌++◌, Option, none, some, ◌==◌, if◌then◌else◌, ◌≡◌, refl, ap, ◌∙◌, inl, inr, arith, Bool-cases,
  Option-cases,
}
use talemu.Wireguard.{WgDevice, Codec, decode}
use talemu.Wireguard.Patch.{is_sorted}
use talemu.Wireguard.Encode.{IsSound}
use talemu.Links.{LinkMessage, Kernel, Talos, find_link}
use talemu.Links.Kernels.{with_up, Leaves, IsWorking}

-- A link's index is its slot, and a slot is not used again.
abbrev pub Slots : Type 0
Slots = List (Option LinkMessage)

abbrev pub number : ℕ → Slots → List LinkMessage
number i [] = []
number i (none ∷ xs) = number (suc i) xs
number i (some x ∷ xs) = record x { index = i } ∷ number (suc i) xs

abbrev pub shown : Slots → List LinkMessage
shown s = number 0 s

abbrev pub name_at : ℕ → List LinkMessage → Text
name_at i [] = []
name_at i (x ∷ xs) = if x.index == i then x.name else name_at i xs

-- The links named `n` become what `f` makes of them.
abbrev pub update : Text → (LinkMessage → Option LinkMessage) → Slots → Slots
update n f [] = []
update n f (none ∷ xs) = none ∷ update n f xs
update n f (some x ∷ xs) = (if text_eq x.name n then f x else some x) ∷ update n f xs

pub at_index : ℕ → (LinkMessage → Option LinkMessage) → Slots → Slots × Bool
at_index i f s = (update (name_at i (shown s)) f s, true)

abbrev pub new_message : ℕ → Text → Text → LinkMessage
new_message type name kind = record {
  family = 0;
  link_type = type;
  index = 0;
  flags = 0;
  name = name;
  mtu = 1420;
  info = some kind;
}

abbrev pub bare_device : WgDevice
bare_device = record {
  private_key = [];
  public_key = [];
  listen_port = 0;
  firewall_mark = 0;
  peers = [];
}

abbrev pub slots : Kernel
slots = record {
  State = Slots;
  list = λ s. some (shown s);
  delete = λ i s. at_index i (λ x. none) s;
  create = λ type name kind s. (s ++ some (new_message type name kind) ∷ [], true);
  set_flags =
      λ e flag s. at_index e.index (λ x. some (record x { flags = with_up flag x.flags })) s;
  set_mtu = λ e mtu s. at_index e.index (λ x. some (record x { mtu = mtu })) s;
  has_wireguard = true;
  device = λ name s. some bare_device;
  configure_device = λ name c s. (s, true);
  bump_refresh = λ s. (s, true);
  add_finalizer = λ i s. (s, true);
  remove_finalizer = λ i s. (s, true);
}

unfoldable pub plain_codec : Codec
plain_codec = record { parse_key = some; resolve = some; same = λ l r. false }

abbrev pub plain : Talos
plain = record { codec = plain_codec; sort = λ x. x; equal = λ x y. false; zero_key = codes "0" }

index_lem :
    (n : Text) (i : ℕ) (s : Slots) (m : LinkMessage)
    → find_link n (number i s) ≡ some m
    → (i ≤ m.index) × (name_at m.index (number i s) ≡ n)
unfolding find_link
index_lem n i [] m h = cc
index_lem n i (none ∷ xs) m h = let (a, b) = index_lem n (suc i) xs m h in (ground arith, b)
index_lem n i (some x ∷ xs) m h = elim (Bool-cases (text_eq x.name n)) [
  | inl e ↦ (ground arith, ground (arith, (text_eq_iff x.name n).0 e))
  | inr e ↦ let (a, b) = index_lem n (suc i) xs m (ground arith) in (ground arith, ground arith)
]

update_others :
    (n o : Text) (f : LinkMessage → Option LinkMessage) (i : ℕ) (s : Slots)
    → ((x : LinkMessage) → (y : LinkMessage) → f x ≡ some y → y.name ≡ x.name)
    → text_eq n o ≡ false
    → find_link o (number i (update n f s)) ≡ find_link o (number i s)
unfolding find_link
update_others n o f i [] g h = refl
update_others n o f i (none ∷ xs) g h = update_others n o f (suc i) xs g h
update_others n o f i (some x ∷ xs) g h = elim (Bool-cases (text_eq x.name n)) [
  | inl e ↦ elim (Option-cases (f x)) [
    | inl a ↦ ground (
      arith,
      update_others n o f (suc i) xs g h,
      ap (λ t. text_eq t o) ((text_eq_iff x.name n).0 e),
    )
    | inr (y, a) ↦ ground (
      arith,
      update_others n o f (suc i) xs g h,
      ap (λ t. text_eq t o) ((text_eq_iff x.name n).0 e),
      ap (λ t. text_eq t o) (g x y a),
    )
  ]
  | inr e ↦ ground (arith, update_others n o f (suc i) xs g h)
]

update_none :
    (n : Text) (i : ℕ) (s : Slots) → find_link n (number i (update n (λ x. none) s)) ≡ none
unfolding find_link
update_none n i [] = refl
update_none n i (none ∷ xs) = update_none n (suc i) xs
update_none n i (some x ∷ xs) = elim (Bool-cases (text_eq x.name n)) [
  | inl e ↦ ground (arith, update_none n (suc i) xs)
  | inr e ↦ ground (arith, update_none n (suc i) xs)
]

update_some :
    (n : Text) (g : LinkMessage → LinkMessage) (i : ℕ) (s : Slots) (m : LinkMessage)
    → ((x : LinkMessage) → (g x).name ≡ x.name)
    → ((x : LinkMessage) (j : ℕ) → record (g x) { index = j } ≡ g (record x { index = j }))
    → find_link n (number i s) ≡ some m
    → find_link n (number i (update n (λ x. some (g x)) s)) ≡ some (g m)
unfolding find_link
update_some n g i [] m p q h = cc
update_some n g i (none ∷ xs) m p q h = update_some n g (suc i) xs m p q h
update_some n g i (some x ∷ xs) m p q h = elim (Bool-cases (text_eq x.name n)) [
  | inl e ↦ ground (arith, ap (λ t. text_eq t n) (p x), q x i)
  | inr e ↦ ground (arith, update_some n g (suc i) xs m p q)
]

find-append :
    (n o : Text) (y : LinkMessage) (i : ℕ) (s : Slots)
    → text_eq y.name o ≡ false
    → find_link o (number i (s ++ some y ∷ [])) ≡ find_link o (number i s)
unfolding find_link
find-append n o y i [] h = ground arith
find-append n o y i (none ∷ xs) h = find-append n o y (suc i) xs h
find-append n o y i (some x ∷ xs) h = ground (arith, find-append n o y (suc i) xs h)

append-found :
    (n : Text) (y : LinkMessage) (i : ℕ) (s : Slots)
    → text_eq y.name n ≡ true
    → find_link n (number i s) ≡ none
    → (j : ℕ) × (find_link n (number i (s ++ some y ∷ [])) ≡ some (record y { index = j }))
unfolding find_link
append-found n y i [] e h = (i, ground arith)
append-found n y i (none ∷ xs) e h = append-found n y (suc i) xs e h
append-found n y i (some x ∷ xs) e h =
    let (j, q) = append-found n y (suc i) xs e (ground arith) in (j, ground arith)

-- A change at the index of the link `n` is one at its name.
at_index_lem :
    (s : Slots) (n : Text) (m : LinkMessage) (i : ℕ) (f : LinkMessage → Option LinkMessage)
    → find_link n (shown s) ≡ some m
    → i ≡ m.index
    → at_index i f s ≡ (update n f s, true)
unfolding at_index
at_index_lem s n m i f h e =
    ap (λ t. (update t f s, true)) (ap (λ j. name_at j (shown s)) e ∙ (index_lem n 0 s m h).1)

changed :
    (s : Slots) (n : Text) (m e : LinkMessage) (g : LinkMessage → LinkMessage)
    → ((x : LinkMessage) → (g x).name ≡ x.name)
    → ((x : LinkMessage) (j : ℕ) → record (g x) { index = j } ≡ g (record x { index = j }))
    → find_link n (shown s) ≡ some m
    → e.index ≡ m.index
    → let r = at_index e.index (λ x. some (g x)) s in Leaves slots shown s n (some (g m)) r.0 r.1
changed s n m e g p q h i = rw (at_index_lem s n m e.index (λ x. some (g x)) h i) (record {
  succeeds = refl;
  found = update_some n g 0 s m p q h;
  others = λ o d. update_others n o (λ x. some (g x)) 0 s (λ x y w. ground (arith, p x)) d;
})

pub slots-IsWorking : IsWorking slots plain shown
unfolding decode is_sorted
slots-IsWorking = record {
  lists = λ s. refl;
  deletes = λ s n m h. rw (at_index_lem s n m m.index (λ x. none) h refl) (record {
    succeeds = refl;
    found = update_none n 0 s;
    others = λ o d. update_others n o (λ x. none) 0 s (λ x y w. ground arith) d;
  });
  creates = λ s type n kind h.
      let (j, e) = append-found n (new_message type n kind) 0 s (text_eq_refl n) h in
      (
        record (new_message type n kind) { index = j },
        refl,
        refl,
        record {
          succeeds = refl;
          found = e;
          others = λ o d. find-append n o (new_message type n kind) 0 s d;
        },
      );
  sets_flags = λ s n m e flag h i.
      changed s n m e (λ x. record x { flags = with_up flag x.flags }) (λ x. refl) (λ x j. refl) h
        i;
  sets_mtu = λ s n m e mtu h i.
      changed s n m e (λ x. record x { mtu = mtu }) (λ x. refl) (λ x j. refl) h i;
  has_client = refl;
  has_device = λ s n m h k. (bare_device, refl, refl, tt);
  configures = λ s n m c h k. (refl, refl);
  bumps = λ s. (refl, refl);
  adds = λ s i. (refl, refl);
  removes = λ s i. (refl, refl);
}

pub plain-IsSound : IsSound plain_codec
unfolding plain_codec
plain-IsSound l r h = cc
