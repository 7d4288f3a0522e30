-- ===== src/Authz/Access.antt =====
-- Who is let through when the injector stands before the authorizer.
use talemu.Prelude.{
  Text, text_eq, text_eq_refl, refl, ◌∙◌, ◌⊎◌, inl, inr, [], ◌++◌, true, false, List, ◌∷◌, Option,
  none, some, if◌then◌else◌, ◌≡◌, arith,
}
use talemu.Metadata.{Metadata}
use talemu.Authz.{
  Roles, Network, Peer, Context, Mode, read_only_with_admin_on_siderolink, enabled, get_roles,
  context_with_roles, is_siderolink_peer, certificate_roles, leaf_roles, roles_of_mode,
  extract_roles, inject, Authorizer, Reply, handled, not_authorized, allowed_roles, authorize,
  guard, rule_for, ◌>>=◌,
}

abbrev pub with_roles : {R : Roles} → Context R → R.Set → Context R
with_roles ctx set = record ctx { roles = some set }

module _ {R : Roles} (N : Network) where
  -- With access control enabled, a peer whose leaf certificate does not make it an impersonator
  -- has the roles of that certificate and no others: its metadata changes nothing.
  pub metadata_not_trusted :
      (ctx : Context R) (p : Peer) (orgs : List Text) (chain : List (List Text))
      (md : Option Metadata)
      → ctx.peer ≡ some p
      → p.certificates ≡ some (orgs ∷ chain)
      → R.is_impersonator (R.parse orgs) ≡ false
      → (roles_of_mode N enabled (record ctx { metadata = md }) ≡ some (R.parse orgs))
        × (roles_of_mode N enabled ctx ≡ some (R.parse orgs))
  unfolding roles_of_mode certificate_roles leaf_roles
  metadata_not_trusted ctx p orgs chain md h c i = (ground arith, ground arith)

-- No rule of the list is for the method.
abbrev pub NoRule : {A : Type 0} → List (Text × A) → Text → Type 0
NoRule [] method = Unit
NoRule ((m, set) ∷ rules) method = (text_eq m method ≡ false) × NoRule rules method

-- The first rule for the method asks for these, or there is none and the fallback does.
abbrev pub Requires : {A : Type 0} → List (Text × A) → A → Text → A → Type 0
Requires {A} rules fallback method required =
    ((before : List (Text × A)) × (after : List (Text × A)) × (rules
        ≡ before ++ (method, required) ∷ after)
      × NoRule before method)
    ⊎ (NoRule rules method × (fallback ≡ required))

rule_for-first :
    {A : Type 0} (before after : List (Text × A)) (fallback required : A) (method : Text)
    → NoRule before method
    → rule_for (before ++ (method, required) ∷ after) fallback method ≡ required
unfolding rule_for
rule_for-first [] after fallback required method h = rw (text_eq_refl method) refl
rule_for-first ((m, set) ∷ before) after fallback required method (h, k) =
    rw h (rule_for-first before after fallback required method k)

rule_for-fallback :
    {A : Type 0} (rules : List (Text × A)) (fallback : A) (method : Text)
    → NoRule rules method
    → rule_for rules fallback method ≡ fallback
unfolding rule_for
rule_for-fallback [] fallback method h = refl
rule_for-fallback ((m, set) ∷ rules) fallback method (h, k) =
    rw h (rule_for-fallback rules fallback method k)

rule_for-Requires :
    {A : Type 0} (rules : List (Text × A)) (fallback : A) (method : Text) (required : A)
    → Requires rules fallback method required
    → rule_for rules fallback method ≡ required
rule_for-Requires rules fallback method required (inl (before, after, e, h)) =
    rw e (rule_for-first before after fallback required method h)
rule_for-Requires rules fallback method required (inr (h, e)) =
    rule_for-fallback rules fallback method h ∙ e

module _ {R : Roles} (N : Network) {A : Type 0} (a : Authorizer R) (method : Text) where
  -- A call through the injector and then the authorizer.
  abbrev pub call : Mode → (Context R → Option A) → Context R → Option (Reply A)
  call mode handler = inject N mode (guard a method handler)

  call_lem :
      (mode : Mode) (handler : Context R → Option A) (ctx : Context R) (set : R.Set)
      → ctx.roles ≡ none
      → roles_of_mode N mode ctx ≡ some set
      → call mode handler ctx ≡ (
          if R.includes_any (allowed_roles a method) set
          then handler (with_roles ctx set) >>= (λ x. some (handled x))
          else some not_authorized)
  unfolding inject extract_roles context_with_roles guard authorize get_roles
  call_lem mode handler ctx set h e = ground arith

  -- With access control enabled, a call whose context holds no roles yet, from a peer whose leaf
  -- certificate does not make it an impersonator, runs the handler, in the context with the roles of
  -- that certificate, if these are among the roles of the first rule for the method, or of the
  -- fallback where no rule is for the method, and is refused if they are not, whatever its metadata.
  pub call_enabled :
      (handler : Context R → Option A) (ctx : Context R) (p : Peer) (orgs : List Text)
      (chain : List (List Text)) (required : R.Set)
      → ctx.roles ≡ none
      → ctx.peer ≡ some p
      → p.certificates ≡ some (orgs ∷ chain)
      → R.is_impersonator (R.parse orgs) ≡ false
      → Requires a.rules a.fallback_roles method required
      → call enabled handler ctx ≡ (
          if R.includes_any required (R.parse orgs)
          then handler (with_roles ctx (R.parse orgs)) >>= (λ x. some (handled x))
          else some not_authorized)
  call_enabled handler ctx p orgs chain required fresh peer leaf plain rule =
      let roles = (metadata_not_trusted N ctx p orgs chain ctx.metadata peer leaf plain).1 in
      rw (← rule_for-Requires a.rules a.fallback_roles method required rule)
        (call_lem enabled handler ctx (R.parse orgs) fresh roles)

  -- With administration over SideroLink alone, a peer from elsewhere runs a handler only if the
  -- method allows readers, whatever its metadata and its certificates say.
  pub readers_elsewhere :
      (handler : Context R → Option A) (ctx : Context R) (x : A)
      → is_siderolink_peer N ctx ≡ false
      → call read_only_with_admin_on_siderolink handler ctx ≡ some (handled x)
      → R.includes_any (allowed_roles a method) R.reader_roles ≡ true
  unfolding inject extract_roles roles_of_mode context_with_roles guard authorize get_roles
  readers_elsewhere handler ctx x h e = ground arith

  -- Roles are stored once: a second injector in the same call panics, and so does a call that
  -- reaches the authorizer with no injector before it.
  pub roles_stored_once :
      (mode mode' : Mode) (handler : Context R → Option A) (ctx : Context R)
      → (inject N mode (inject N mode' handler) ctx ≡ none)
        × (ctx.roles ≡ none → guard a method handler ctx ≡ none)
  unfolding inject extract_roles context_with_roles guard authorize get_roles
  roles_stored_once mode mode' handler ctx = (ground arith, (λ h. ground arith))
