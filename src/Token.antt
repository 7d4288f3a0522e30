-- ===== src/Token.antt =====
-- Token authentication: internal/pkg/grpc/middleware/auth/basic/token.go.
use talemu.Prelude.{
  Text, codes, text_eq, text_eq_iff, text_eq_refl, Bool, false, List, [], ◌∷◌, Option, none, some,
  if◌then◌else◌, ◌≡◌, ◌≢◌, arith,
}
use talemu.Metadata.{Metadata, lookup, or_empty}

-- TokenCredentials: what its tokenGetter returns in the present context, `none` for an error.
pub record TokenCredentials : Type 0 where
  pub token_getter : Option Text

-- NewTokenCredentials
unfoldable pub new_token_credentials : Text → TokenCredentials
new_token_credentials token = record { token_getter = some token }

-- GetRequestMetadata
unfoldable pub get_request_metadata : TokenCredentials → Option Metadata
get_request_metadata b = elim b.token_getter [
  | none ↦ none
  | some token ↦ some ((codes "token", token ∷ []) ∷ [])
]

-- What an intercepted call comes to: the getter's error, Unauthenticated, or the handler's reply.
pub data Reply (A : Type 0) : Type 0 where
  handled : A → Reply A
  getter_failed : Reply A
  unauthenticated : Reply A

abbrev first_is : List Text → Text → Bool
first_is [] token = false
first_is (t ∷ ts) token = text_eq t token

-- The test of authenticate, on the metadata of the incoming context.
unfoldable pub has_token : Option Metadata → Text → Bool
has_token none token = false
has_token (some md) token = first_is (or_empty (lookup (codes "token") md)) token

-- UnaryInterceptor, with authenticate
unfoldable pub intercept :
    {A : Type 0} → TokenCredentials → (Option Metadata → A) → Option Metadata → Reply A
unfolding has_token
intercept b handler md = elim b.token_getter [
  | none ↦ getter_failed
  | some token ↦ if has_token md token then handled (handler md) else unauthenticated
]

-- A call with the metadata that a client's credentials attach is handled by a server whose token is
-- the same, and is rejected as unauthenticated, with no run of the handler, by any other server.
pub intercept-get_request_metadata :
    {A : Type 0} (client server : Text) (handler : Option Metadata → A)
    → let md = get_request_metadata (new_token_credentials client) in
      let reply = intercept (new_token_credentials server) handler md in
      (client ≡ server → reply ≡ handled (handler md)) × (client ≢ server → reply ≡ unauthenticated)
unfolding intercept get_request_metadata new_token_credentials lookup
intercept-get_request_metadata client server handler = (
  (λ e. ground (arith, text_eq_refl (codes "token"), text_eq_iff client server)),
  (λ n. ground (arith, text_eq_refl (codes "token"), text_eq_iff client server)),
)

-- A call with no token at all is never handled, whatever token the server expects.
pub intercept_without_token :
    {A : Type 0} (b : TokenCredentials) (handler : Option Metadata → A) (md : Metadata) (x : A)
    → or_empty (lookup (codes "token") md) ≡ []
    → (intercept b handler none ≢ handled x) × (intercept b handler (some md) ≢ handled x)
unfolding intercept
intercept_without_token b handler md x h = ((λ e. ground arith), (λ e. ground arith))
