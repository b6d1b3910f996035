-- ===== src/Auth/Credentials.antt =====
-- What a caller must present to be let in (auth.py).
use meetings.Prelude.{
  String, ◌≡◌, refl, ◌⊎◌, inl, inr, ◌==◌, eq_iff, true, false, Option, none, some, List, [], ◌∷◌,
  elem, arith, if◌then◌else◌, Bool-cases, Option-cases, subst, eq_refl,
}
use meetings.Auth.{
  Principal, viewer, operator, can, AuthSettings, match_token, resolve_token, Access, granted,
  unauthorized, forbidden, or_unauthorized, bearer, authenticate, authorize, safe_methods,
  require_api_access, accepted, offered_principal, or_closed, offered, authenticate_websocket,
}

-- The configured token of a role.
abbrev pub token_of : AuthSettings → Principal → String
token_of s viewer = s.viewer_token
token_of s operator = s.operator_token

-- A token that is configured for the principal, and is not empty.
pub record IsToken (s : AuthSettings) (p : Principal) (t : String) : Type 0 where
  pub same : t ≡ token_of s p
  pub set : (t == "") ≡ false

resolve_token-IsToken :
    (s : AuthSettings) (t : String) (p : Principal) → resolve_token s t ≡ some p → IsToken s p t
unfolding resolve_token match_token
resolve_token-IsToken s t viewer e = record {
  same = ground (arith, e, eq_iff t s.operator_token, eq_iff t s.viewer_token);
  set = ground (arith, e, eq_iff t s.operator_token, eq_iff t s.viewer_token);
}
resolve_token-IsToken s t operator e = record {
  same = ground (arith, e, eq_iff t s.operator_token, eq_iff t s.viewer_token);
  set = ground (arith, e, eq_iff t s.operator_token, eq_iff t s.viewer_token);
}

authenticate-IsToken :
    (s : AuthSettings) (header : String) (p : Principal)
    → s.auth_enabled ≡ true
    → authenticate s header ≡ granted p
    → (t : String) × (bearer header ≡ some t) × IsToken s p t
unfolding authenticate or_unauthorized
authenticate-IsToken s header p on e = elim (Option-cases (bearer header)) [
  | inl n ↦ absurd (ground (arith, on, n, e))
  | inr (t, b) ↦ elim (Option-cases (resolve_token s t)) [
    | inl n ↦ absurd (ground (arith, on, b, n, e))
    | inr (q, r) ↦ (t, b, resolve_token-IsToken s t p (ground (arith, on, b, r, e)))
  ]
]

authorize-granted :
    (a : Access) (required p : Principal)
    → authorize a required ≡ granted p
    → (a ≡ granted p) × (can p required ≡ true)
unfolding authorize
authorize-granted (granted q) required p = elim (Bool-cases (can q required)) [
  | inl y ↦ rw y (λ e. (e, ground (arith, e, y)))
  | inr n ↦ rw n (λ e. absurd (cc))
]
authorize-granted unauthorized required p = λ e. absurd (cc)
authorize-granted forbidden required p = λ e. absurd (cc)

operator_can : (p : Principal) → can p operator ≡ true → p ≡ operator
operator_can viewer e = absurd (ground (arith, e))
operator_can operator e = refl

-- With authentication on, whoever is let in presented the token of its role, which is not empty, and
-- a method that can change state is let in for an operator only.
pub require_api_access-IsToken :
    (s : AuthSettings) (method header : String) (p : Principal)
    → s.auth_enabled ≡ true
    → require_api_access s method header ≡ granted p
    → ((t : String) × (bearer header ≡ some t) × IsToken s p t)
      × ((elem method safe_methods ≡ true) ⊎ (p ≡ operator))
unfolding require_api_access
require_api_access-IsToken s method header p on e =
    let (a, c) =
      authorize-granted (authenticate s header)
        (if elem method safe_methods then viewer else operator) p e in
    (
      authenticate-IsToken s header p on a,
      elim (Bool-cases (elem method safe_methods)) [
        | inl y ↦ inl y
        | inr n ↦
            inr (operator_can p (subst (λ b. can p (if b then viewer else operator) ≡ true) n c))
      ],
    )

offered-IsToken :
    (s : AuthSettings) (l : List String) (p : Principal)
    → offered_principal s l ≡ some p
    → (t : String) × (l ≡ "bearer" ∷ t ∷ []) × IsToken s p t
unfolding offered_principal
offered-IsToken s [] p e = absurd (cc)
offered-IsToken s (x ∷ []) p e = absurd (cc)
offered-IsToken s (x ∷ t ∷ y ∷ l) p e = absurd (cc)
offered-IsToken s (x ∷ t ∷ []) p e = elim (Bool-cases (x == "bearer")) [
  | inl y ↦
      (t, ground (arith, y, eq_iff x "bearer"), resolve_token-IsToken s t p (ground (arith, y, e)))
  | inr n ↦ absurd (ground (arith, n, e))
]

closed-accepted :
    (required p : Principal) (o : Option Principal) (protocol : Option String)
    → or_closed required o ≡ accepted p protocol
    → (o ≡ some p) × (can p required ≡ true) × (protocol ≡ some "bearer")
unfolding or_closed
closed-accepted required p none protocol = λ e. absurd (cc)
closed-accepted required p (some q) protocol = elim (Bool-cases (can q required)) [
  | inl y ↦ rw y (λ e. (ground (arith, e), ground (arith, e, y), ground (arith, e)))
  | inr n ↦ rw n (λ e. absurd (cc))
]

-- With authentication on, a handshake is accepted only if it offers "bearer" and the token of a role,
-- which is not empty, and the role is sufficient; the subprotocol "bearer" is echoed.
pub authenticate_websocket-IsToken :
    (s : AuthSettings) (header : String) (required p : Principal) (protocol : Option String)
    → s.auth_enabled ≡ true
    → authenticate_websocket s header required ≡ accepted p protocol
    → ((t : String) × (offered header ≡ "bearer" ∷ t ∷ []) × IsToken s p t)
      × (can p required ≡ true)
      × (protocol ≡ some "bearer")
unfolding authenticate_websocket
authenticate_websocket-IsToken s header required p protocol on e =
    let (o, c, q) =
      closed-accepted required p (offered_principal s (offered header)) protocol
        (ground (arith, on, e)) in
    (offered-IsToken s (offered header) p o, c, q)

-- A request that presents the operator's token is let in, whatever its method, if the token is not
-- empty.
pub require_api_access-operator :
    (s : AuthSettings) (method header : String)
    → bearer header ≡ some s.operator_token
    → (s.operator_token == "") ≡ false
    → require_api_access s method header ≡ granted operator
unfolding require_api_access authorize authenticate resolve_token match_token or_unauthorized
require_api_access-operator s method header b n = ground (arith, b, n, eq_refl s.operator_token)
