-- ===== src/Sandbox/Tokens.antt =====
-- backend/app/sandbox/scoped_token.py and route_headers of manager.py: the token for one request to
-- one sandbox. The encoding of the claims, the signature, str.upper and the unescaping and escaping
-- of a path belong to Python's library and to `cryptography`, and are parameters.
use Prim.Native.String.{◌++◌ as text_append}
use meetings.Prelude.{ℕ, ◌+◌, String, ◌==◌, Bool, Option, none, some, [], ◌∷◌, if◌then◌else◌, ltb}
use meetings.Dict.{Dict}
use meetings.Text.{after_prefix, is_some, decimal, strip}

-- Target
pub record Target : Type 0 where
  pub namespace : String
  pub sandbox_name : String
  pub sandbox_uid : String
  pub port : ℕ
  pub method : String
  pub path : String

-- The claims of a token: the target, in the form that the router compares, and the expiry.
pub record Claims : Type 0 where
  pub target : Target
  pub exp : ℕ

-- A token, or ScopedTokenError
pub data Minted : Type 0 where
  scoped_token_error : String → Minted
  token : Claims → String → Minted

pub record Minter : Type 0 where
  pub key_id : String
  pub encode : Claims → String
  pub sign : String → String
  pub upper : String → String
  pub requote : String → String

abbrev pub signing_context : String
signing_context = "agent-sandbox/scoped-token/v2."

-- _normalise_path, which refuses a path that is not absolute
unfoldable pub normalise_path : (String → String) → String → Option String
unfolding after_prefix
normalise_path requote path =
    if path == ""
    then some "/"
    else if is_some (after_prefix "/" path)
    then some (requote path)
    else none

module _ (m : Minter) where
  claims_of : Target → String → ℕ → Claims
  unfolding strip
  claims_of t path exp = record {
    target = record t { method = m.upper (strip t.method); path = path };
    exp = exp;
  }

  signed : Claims → Minted
  signed c =
      let body = text_append m.key_id (text_append "." (m.encode c)) in
      token c (
        text_append "v2."
          (text_append body (text_append "." (m.sign (text_append signing_context body)))))

  -- ScopedTokenMinter.mint
  unfoldable pub mint : ℕ → Target → ℕ → Minted
  unfolding normalise_path claims_of signed
  mint now t ttl_seconds =
      if t.sandbox_uid == ""
      then scoped_token_error "Sandbox UID is required"
      else if ltb ttl_seconds 1
      then scoped_token_error "ttl must be at least one second"
      else elim (normalise_path m.requote t.path) [
        | none ↦ scoped_token_error "path must be absolute"
        | some path ↦ signed (claims_of t path (now + ttl_seconds))
      ]

  -- The headers of a request, or ScopedTokenError.
  pub data Headers : Type 0 where
    unsigned : String → Headers
    headers : Dict String String → Headers

  headers_of : Target → Minted → Headers
  unfolding decimal
  headers_of t (scoped_token_error e) = unsigned e
  headers_of t (token c text) = headers (
      ("X-Sandbox-ID", t.sandbox_name)
      ∷ ("X-Sandbox-UID", t.sandbox_uid)
      ∷ ("X-Sandbox-Namespace", t.namespace)
      ∷ ("X-Sandbox-Port", decimal t.port)
      ∷ ("Authorization", text_append "Bearer " text)
      ∷ [])

  -- SandboxManager.route_headers
  unfoldable pub route_headers : Bool → ℕ → ℕ → Target → Headers
  unfolding headers_of mint
  route_headers has_router now ttl_seconds t =
      if has_router then headers_of t (mint now t ttl_seconds) else headers []
