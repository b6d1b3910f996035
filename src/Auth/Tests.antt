-- ===== src/Auth/Tests.antt =====
-- Examples of the operator's authentication (auth.py).
use meetings.Prelude.{String, ◌≡◌, ◌⊎◌, refl, true, Option, some, [], ◌∷◌, elem}
use meetings.Text.{strip, lstrip, rstrip, is_space, after_prefix, split_comma}
use meetings.Auth.{
  viewer, operator, can, AuthSettings, match_token, resolve_token, granted, or_unauthorized, bearer,
  authenticate, authorize, safe_methods, require_api_access, accepted, offered_principal, or_closed,
  offered, authenticate_websocket,
}
use meetings.Auth.Credentials.{IsToken, require_api_access-IsToken, authenticate_websocket-IsToken}

abbrev auth_settings : AuthSettings
auth_settings = record { auth_enabled = true; operator_token = "op"; viewer_token = "view" }

abbrev echoed : Option String
echoed = some "bearer"

let_in : require_api_access auth_settings "GET" "Bearer view " ≡ granted viewer
unfolding require_api_access authorize authenticate bearer after_prefix strip lstrip rstrip is_space
    resolve_token match_token or_unauthorized
let_in = refl

token_read : bearer "Bearer op" ≡ some "op"
unfolding bearer after_prefix strip lstrip rstrip is_space
token_read = refl

connected :
    authenticate_websocket auth_settings "bearer, op" operator ≡ accepted operator (some "bearer")
unfolding authenticate_websocket or_closed offered_principal offered split_comma strip lstrip rstrip
    is_space resolve_token match_token
connected = refl

require_api_access-IsToken_example :
    ((t : String) × (bearer "Bearer view " ≡ some t) × IsToken auth_settings viewer t)
    × ((elem "GET" safe_methods ≡ true) ⊎ (viewer ≡ operator))
require_api_access-IsToken_example =
    require_api_access-IsToken auth_settings "GET" "Bearer view " viewer refl let_in

authenticate_websocket-IsToken_example :
    ((t : String) × (offered "bearer, op" ≡ "bearer" ∷ t ∷ []) × IsToken auth_settings operator t)
    × (can operator operator ≡ true)
    × (echoed ≡ some "bearer")
authenticate_websocket-IsToken_example =
    authenticate_websocket-IsToken auth_settings "bearer, op" operator operator echoed refl
      connected
