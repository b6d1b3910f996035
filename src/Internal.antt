-- ===== src/Internal.antt =====
-- backend/app: the API that only sandboxes call (api/routes/internal.py), who they are
-- (core/sandbox_auth.py), and the search over the documents that it does for them
-- (services/vector_search.py).
pub mod Caller
pub mod Search
pub mod Artifacts
pub mod Exec
pub mod Proxy
mod Tests
use meetings.Prelude.{ℕ, String, ◌==◌, Bool, Option, none, some, if◌then◌else◌}

-- SandboxIdentity
pub record SandboxIdentity : Type 0 where
  pub service_account : String
  pub namespace : String
  pub pod_name : String
  pub agent_id : Option String
  pub meeting_id : Option String
  pub profile : Option String

-- HTTPException
pub record HttpError : Type 0 where
  pub status_code : ℕ
  pub detail : String

-- What a handler gives: an error, or its data.
pub data Answer {ℓ} (A : Type ℓ) : Type ℓ where
  error : HttpError → Answer A
  success : A → Answer A

abbrev pub http_error {ℓ} : {A : Type ℓ} → ℕ → String → Answer A
http_error code detail = error (record { status_code = code; detail = detail })

-- A label that is there and not empty.
abbrev pub present : Option String → Option String
present none = none
present (some s) = if s == "" then none else some s
