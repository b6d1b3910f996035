-- ===== src/Internal/Exec.antt =====
-- backend/app/api/routes/internal.py: tokens for exec sandboxes. What the
-- apiserver says of a claim and of a sandbox is a parameter.
use Prim.Native.String.{◌++◌ as text_append}
use meetings.Prelude.{
  ℕ, String, ◌==◌, Bool, true, false, not, ◌&&◌, ◌||◌, Option, none, some, if◌then◌else◌,
}
use meetings.Dict.{Dict, get, string_eq}
use meetings.Sandbox.Tokens.{Minter, Target, Headers, unsigned, headers, route_headers}
use meetings.Text.Replace.{rstrip_slash}
use meetings.Internal.{SandboxIdentity, Answer, success, http_error, present}
use meetings.Internal.Caller.{agent_label, meeting_label, Namespaces}

-- A claim: its labels, and the name of its sandbox.
pub record Claim : Type 0 where
  pub labels : Dict String String
  pub sandbox_name : Option String

-- The claims and the uids of the sandboxes of the exec namespace, as the apiserver answers; no answer
-- is an exception.
pub record Apiserver : Type 0 where
  pub get_claim : String → Option Claim
  pub sandbox_uid : String → Option (Option String)

-- What exec_token reads of the settings.
pub record ExecSettings : Type 0 where
  pub namespaces : Namespaces
  pub router_url : Option String
  pub grant_seconds : ℕ

pub record ExecGrant : Type 0 where
  pub url : String
  pub headers : Dict String String

abbrev same_label : Option String → Option String → Bool
same_label none none = true
same_label none (some b) = false
same_label (some a) none = false
same_label (some a) (some b) = a == b

-- Whether the claim carries the caller's own labels.
unfoldable pub is_own_claim : Claim → SandboxIdentity → Bool
is_own_claim claim i =
    same_label (get agent_label claim.labels) i.agent_id
    && same_label (get meeting_label claim.labels) i.meeting_id

abbrev pub is_blank : Option String → Bool
is_blank o = elim (present o) [ none ↦ true | some s ↦ false ]

abbrev refusal : Answer ExecGrant
refusal = http_error 403 "Not a claim this persona holds"

abbrev target_of : Namespaces → String → String → Target
target_of ns name uid = record {
  namespace = ns.exec;
  sandbox_name = name;
  sandbox_uid = uid;
  port = 8080;
  method = "POST";
  path = "/run";
}

abbrev or_blank : Option String → String
or_blank none = ""
or_blank (some s) = s

module _ (m : Minter) (api : Apiserver) (settings : ExecSettings) (now : ℕ) where
  grant_headers : Headers m → Answer ExecGrant
  unfolding rstrip_slash
  grant_headers (unsigned e) = http_error 500 "Internal Server Error"
  grant_headers (headers h) = success (record {
    url = text_append (rstrip_slash (or_blank settings.router_url)) "/run";
    headers = h;
  })

  grant_sandbox : String → Option (Option String) → Answer ExecGrant
  unfolding grant_headers
  grant_sandbox name none = http_error 500 "Internal Server Error"
  grant_sandbox name (some uid) = grant_headers (
      route_headers m true now settings.grant_seconds
        (target_of settings.namespaces name (or_blank uid)))

  grant_named : Option String → Answer ExecGrant
  unfolding grant_sandbox
  grant_named none = http_error 409 "The claim has no sandbox yet"
  grant_named (some name) = grant_sandbox name (api.sandbox_uid name)

  grant_claim : SandboxIdentity → Option Claim → Answer ExecGrant
  unfolding grant_named is_own_claim
  grant_claim i none = refusal
  grant_claim i (some claim) =
      if is_own_claim claim i then grant_named (present claim.sandbox_name) else refusal

  -- exec_token
  unfoldable pub exec_token : String → SandboxIdentity → Answer ExecGrant
  unfolding grant_claim
  exec_token claim_name i =
      if not (i.namespace == settings.namespaces.sandbox) || is_blank i.agent_id
      then http_error 403 "Only a bound persona may request this"
      else if is_blank settings.router_url
      then http_error 503 "No sandbox router is configured"
      else grant_claim i (api.get_claim claim_name)
