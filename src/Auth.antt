-- ===== src/Auth.antt =====
-- backend/app/core/auth.py: who may use the operator's API and its WebSocket. Tokens are compared by
-- hmac.compare_digest, which is equality on the ASCII texts that it accepts. The requests are their
-- method, their Authorization header and the protocols that a handshake offers.
pub mod Credentials
mod Tests
use meetings.Prelude.{
  ℕ, String, ◌==◌, Bool, true, false, not, ◌&&◌, Option, none, some, List, [], ◌∷◌, map, filter,
  elem, leb, if◌then◌else◌,
}
use meetings.Text.{strip, after_prefix, split_comma}

-- The roles of ROLE_ORDER.
pub data Principal : Type 0 where
  viewer operator : Principal

-- ROLE_ORDER.index
abbrev pub rank : Principal → ℕ
rank viewer = 0
rank operator = 1

-- Principal.can
abbrev pub can : Principal → Principal → Bool
can principal required = leb (rank required) (rank principal)

pub record AuthSettings : Type 0 where
  pub auth_enabled : Bool
  pub operator_token : String
  pub viewer_token : String

-- configuration_error, without its text
unfoldable pub configuration_error : AuthSettings → Bool
configuration_error s = if not s.auth_enabled then false else s.operator_token == ""

-- _match
unfoldable pub match_token : String → String → Bool
match_token candidate configured = not (configured == "") && candidate == configured

unfoldable pub resolve_token : AuthSettings → String → Option Principal
unfolding match_token
resolve_token s token =
    if match_token token s.operator_token
    then some operator
    else if match_token token s.viewer_token
    then some viewer
    else none

-- The answer to a request: the principal, or the status of the HTTPException.
pub data Access : Type 0 where
  granted : Principal → Access
  unauthorized : Access
  forbidden : Access

or_unauthorized : Option Principal → Access
or_unauthorized none = unauthorized
or_unauthorized (some p) = granted p

-- _bearer
unfoldable pub bearer : String → Option String
bearer header = elim (after_prefix "Bearer " header) [ none ↦ none | some rest ↦ some (strip rest) ]

unfoldable pub authenticate : AuthSettings → String → Access
unfolding or_unauthorized
authenticate s header = if not s.auth_enabled then granted operator else elim (bearer header) [
  | none ↦ unauthorized
  | some token ↦ or_unauthorized (resolve_token s token)
]

-- _authorize, after authenticate
unfoldable pub authorize : Access → Principal → Access
authorize (granted p) required = if can p required then granted p else forbidden
authorize unauthorized required = unauthorized
authorize forbidden required = forbidden

abbrev pub safe_methods : List String
safe_methods = "GET" ∷ "HEAD" ∷ "OPTIONS" ∷ []

unfoldable pub require_api_access : AuthSettings → String → String → Access
require_api_access s method header =
    authorize (authenticate s header) (if elem method safe_methods then viewer else operator)

unfoldable pub require_operator : AuthSettings → String → Access
require_operator s header = authorize (authenticate s header) operator

-- A handshake: accepted with the subprotocol that is echoed, or closed.
pub data Handshake : Type 0 where
  accepted : Principal → Option String → Handshake
  closed : String → Handshake

-- The principal of what is offered: two values, of which the first is "bearer".
offered_principal : AuthSettings → List String → Option Principal
offered_principal s (scheme ∷ token ∷ []) =
    if scheme == "bearer" then resolve_token s token else none
offered_principal s _ = none

or_closed : Principal → Option Principal → Handshake
or_closed required none = closed "Unauthenticated"
or_closed required (some p) =
    if can p required then accepted p (some "bearer") else closed "Forbidden"

-- The values of sec-websocket-protocol that are not blank.
unfoldable pub offered : String → List String
offered header = filter (λ v. not (v == "")) (map strip (split_comma header))

unfoldable pub authenticate_websocket : AuthSettings → String → Principal → Handshake
unfolding offered_principal or_closed
authenticate_websocket s header required =
    if not s.auth_enabled
    then accepted operator none
    else or_closed required (offered_principal s (offered header))
