-- ===== src/Authz.antt =====
-- Role-based access: internal/pkg/grpc/middleware/authz (context.go, metadata.go, injector.go,
-- authorizer.go). The sets of roles, and the parsing of host:port pairs and of addresses, are the
-- work of libraries: they enter as the records `Roles` and `Network`. A panic is `none`.
pub mod Access
use talemu.Prelude.{
  Text, codes, text_eq, Bool, true, false, not, List, [], ◌∷◌, Option, none, some, is_some,
  if◌then◌else◌,
}
use talemu.Metadata.{Metadata, lookup, or_empty}
use talemu.Image.{is_empty}

-- Package role of the Talos machinery.
pub record Roles : Type 1 where
  pub Set : Type 0
  pub includes_any : Set → Set → Bool
  pub is_impersonator : Set → Bool  -- Includes(role.Impersonator)
  pub parse : List Text → Set
  pub all_roles : Set
  pub zero_roles : Set
  pub admin_roles : Set
  pub reader_roles : Set

-- net.SplitHostPort, netip.ParseAddr and network.IsULA(·, ULASideroLink).
pub record Network : Type 1 where
  pub Addr : Type 0
  pub host_of : Text → Option Text
  pub parse_addr : Text → Option Addr
  pub is_siderolink_ula : Addr → Bool

-- What the interceptors read of the peer: its address, and the organizations of each of its
-- certificates, the leaf's first, if the connection is over TLS.
pub record Peer : Type 0 where
  pub address : Text
  pub certificates : Option (List (List Text))

-- The context of a call, with the roles that an interceptor stored.
pub record Context (R : Roles) : Type 0 where
  pub roles : Option R.Set
  pub metadata : Option Metadata
  pub peer : Option Peer

-- InjectorMode
pub data Mode : Type 0 where
  disabled read_only read_only_with_admin_on_siderolink metadata_only enabled : Mode

infixl 5 ◌>>=◌
abbrev pub ◌>>=◌ : {A B : Type 0} → Option A → (A → Option B) → Option B
none >>= f = none
some a >>= f = f a

-- constants.APIAuthzRoleMetadataKey
abbrev pub md_key : Text
md_key = codes "roles"

module _ {R : Roles} where
  -- GetRoles
  unfoldable pub get_roles : Context R → Option R.Set
  get_roles ctx = ctx.roles

  -- ContextWithRoles
  unfoldable pub context_with_roles : Context R → R.Set → Option (Context R)
  context_with_roles ctx set =
      if is_some ctx.roles then none else some (record ctx { roles = some set })

  -- getFromMetadata: the roles, if any are given; it panics where there is no metadata.
  unfoldable pub get_from_metadata : Context R → Option (Option R.Set)
  get_from_metadata ctx = elim ctx.metadata [
    | none ↦ none
    | some md ↦ elim (or_empty (lookup md_key md)) [
      | [] ↦ some none
      | s ∷ ss ↦ some (some (R.parse (s ∷ ss)))
    ]
  ]

-- SetMetadata, where `strings` are the names of the roles.
unfoldable pub set_metadata : Metadata → List Text → Metadata
set_metadata md strings = (md_key, strings) ∷ md

module _ {R : Roles} (N : Network) where
  -- peerAddress
  unfoldable pub peer_address : Context R → Option N.Addr
  peer_address ctx = do p ← ctx.peer; ip ← N.host_of p.address; N.parse_addr ip

  -- isSideroLinkPeer
  unfoldable pub is_siderolink_peer : Context R → Bool
  is_siderolink_peer ctx = elim (peer_address ctx) [
    | none ↦ false
    | some addr ↦ N.is_siderolink_ula addr
  ]

  -- The roles of the leaf certificate, overridden by the metadata if they include the impersonator.
  unfoldable pub leaf_roles : Context R → List (List Text) → Option R.Set
  leaf_roles ctx [] = none
  leaf_roles ctx (orgs ∷ chain) =
      if R.is_impersonator (R.parse orgs)
      then elim (get_from_metadata ctx) [
        | none ↦ none
        | some none ↦ some (R.parse orgs)
        | some (some set) ↦ some set
      ]
      else some (R.parse orgs)

  -- The case of extractRoles with access control enabled.
  unfoldable pub certificate_roles : Context R → Option R.Set
  certificate_roles ctx = do p ← ctx.peer; chain ← p.certificates; leaf_roles ctx chain

  -- The switch of extractRoles.
  unfoldable pub roles_of_mode : Mode → Context R → Option R.Set
  roles_of_mode disabled ctx = some R.all_roles
  roles_of_mode read_only ctx = some R.reader_roles
  roles_of_mode read_only_with_admin_on_siderolink ctx =
      if is_siderolink_peer ctx then some R.admin_roles else some R.reader_roles
  roles_of_mode metadata_only ctx = elim (get_from_metadata ctx) [
    | none ↦ none
    | some none ↦ some R.zero_roles
    | some (some set) ↦ some set
  ]
  roles_of_mode enabled ctx = certificate_roles ctx

  -- extractRoles
  unfoldable pub extract_roles : Mode → Context R → Option R.Set
  extract_roles mode ctx = if is_some ctx.roles then none else roles_of_mode mode ctx

  -- Injector.UnaryInterceptor and StreamInterceptor: the handler runs in the context with roles.
  unfoldable pub inject : {A : Type 0} → Mode → (Context R → Option A) → Context R → Option A
  inject mode handler ctx = do
    set ← extract_roles mode ctx
    ctx' ← context_with_roles ctx set
    handler ctx'

-- Authorizer
pub record Authorizer (R : Roles) : Type 0 where
  pub rules : List (Text × R.Set)
  pub fallback_roles : R.Set

-- `a.Rules[method]`, with the fallback.
unfoldable pub rule_for : {A : Type 0} → List (Text × A) → A → Text → A
rule_for [] fallback method = fallback
rule_for ((m, set) ∷ rules) fallback method =
    if text_eq m method then set else rule_for rules fallback method

-- What an intercepted call comes to.
pub data Reply (A : Type 0) : Type 0 where
  handled : A → Reply A
  not_authorized : Reply A

module _ {R : Roles} where
  abbrev pub allowed_roles : Authorizer R → Text → R.Set
  allowed_roles a method = rule_for a.rules a.fallback_roles method

  -- authorize: whether the call may go on.
  unfoldable pub authorize : Authorizer R → Text → Context R → Option Bool
  authorize a method ctx = do
    client ← get_roles ctx
    some (R.includes_any (allowed_roles a method) client)

  -- Authorizer.UnaryInterceptor and StreamInterceptor
  unfoldable pub guard :
      {A : Type 0} → Authorizer R → Text → (Context R → Option A) → Context R → Option (Reply A)
  guard a method handler ctx = do
    allowed ← authorize a method ctx
    if allowed then (handler ctx >>= λ x. some (handled x)) else some not_authorized
