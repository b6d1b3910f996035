-- ===== src/Internal/Caller.antt =====
-- backend/app/core/sandbox_auth.py: the caller of the internal API. The TokenReview and the reading
-- of a pod's labels are parameters: what the apiserver says of a token, and a pod's labels or an
-- exception.
use meetings.Prelude.{
  String, ◌≡◌, refl, ◌==◌, eq_iff, Bool, true, not, ◌||◌, Option, none, some, List, [], ◌∷◌, arith,
  if◌then◌else◌, if_cases, subst,
}
use meetings.Dict.{Dict, get, string_eq}
use meetings.Text.{after_prefix, strip, split_on}
use meetings.Internal.{SandboxIdentity, Answer, success, http_error}

abbrev pub meeting_label : String
meeting_label = "sandbox.users.io/meeting-id"

abbrev pub agent_label : String
agent_label = "sandbox.users.io/agent-id"

abbrev pub profile_label : String
profile_label = "sandbox.users.io/profile"

-- The status of a TokenReview: whether it is authenticated, the user's name, and the pod in `extra`.
pub record Review : Type 0 where
  pub authenticated : Bool
  pub username : Option String
  pub pod : Option String

-- The cluster, as this module reads it: whether its configuration loads, what it says of a token, and
-- the labels of a pod, if they can be read.
pub record Cluster : Type 0 where
  pub configured : Bool
  pub review : String → Option Review
  pub labels : String → String → Option (Dict String String)

-- settings.SANDBOX_NAMESPACE and SANDBOX_EXEC_NAMESPACE
pub record Namespaces : Type 0 where
  pub sandbox : String
  pub exec : String

abbrev or_blank : Option String → String
or_blank none = ""
or_blank (some s) = s

abbrev or_no_labels : Option (Dict String String) → Dict String String
or_no_labels none = []
or_no_labels (some d) = d

unfoldable pub identity_of : Cluster → String → String → String → SandboxIdentity
identity_of cluster namespace service_account pod =
    let labels = if pod == "" then [] else or_no_labels (cluster.labels namespace pod) in
    record {
      service_account = service_account;
      namespace = namespace;
      pod_name = pod;
      agent_id = get agent_label labels;
      meeting_id = get meeting_label labels;
      profile = get profile_label labels;
    }

-- What the parts of the username come to.
unfoldable pub from_parts :
    Cluster → Namespaces → Option String → List String → Answer SandboxIdentity
unfolding identity_of
from_parts cluster ns pod (system ∷ kind ∷ namespace ∷ service_account ∷ []) =
    if not (system == "system") || not (kind == "serviceaccount")
    then http_error 403 "Not a ServiceAccount token"
    else if not (namespace == ns.sandbox || namespace == ns.exec)
    then http_error 403 "Token is not from a sandbox namespace"
    else success (identity_of cluster namespace service_account (or_blank pod))
from_parts cluster ns pod _ = http_error 403 "Not a ServiceAccount token"

unfoldable pub reviewed : Cluster → Namespaces → Option Review → Answer SandboxIdentity
unfolding from_parts split_on
reviewed cluster ns none = http_error 401 "Sandbox token rejected"
reviewed cluster ns (some r) =
    if r.authenticated
    then from_parts cluster ns r.pod (split_on 58 (or_blank r.username))
    else http_error 401 "Sandbox token rejected"

-- SandboxAuthenticator.authenticate
unfoldable pub authenticate : Cluster → Namespaces → String → Answer SandboxIdentity
unfolding reviewed
authenticate cluster ns token =
    if cluster.configured
    then reviewed cluster ns (cluster.review token)
    else http_error 401 "Sandbox authentication is unavailable: no cluster configuration"

unfoldable pub require_sandbox_identity : Cluster → Namespaces → String → Answer SandboxIdentity
unfolding authenticate after_prefix strip
require_sandbox_identity cluster ns authorization = elim (after_prefix "Bearer " authorization) [
  | none ↦ http_error 401 "Missing sandbox token"
  | some token ↦ authenticate cluster ns (strip token)
]

-- The caller is a service account of a sandbox's namespace whose token the cluster vouches for, and
-- who it is comes from the labels of its own pod.
pub record IsVouched (cluster : Cluster) (ns : Namespaces) (authorization : String)
    (i : SandboxIdentity) : Type 0 where
  pub token : String
  pub presented : after_prefix "Bearer " authorization ≡ some token
  pub vouched : Review
  pub reviewed_as : cluster.review (strip token) ≡ some vouched
  pub authenticated : vouched.authenticated ≡ true
  pub named :
      split_on 58 (or_blank vouched.username)
      ≡ "system" ∷ "serviceaccount" ∷ i.namespace ∷ i.service_account ∷ []
  pub inside : (i.namespace == ns.sandbox || i.namespace == ns.exec) ≡ true
  pub labelled : i ≡ identity_of cluster i.namespace i.service_account (or_blank vouched.pod)

-- What the parts of a username that is let in are.
record IsNamed (cluster : Cluster) (ns : Namespaces) (pod : Option String) (parts : List String)
    (i : SandboxIdentity) : Type 0 where
  parts_are : parts ≡ "system" ∷ "serviceaccount" ∷ i.namespace ∷ i.service_account ∷ []
  is_inside : (i.namespace == ns.sandbox || i.namespace == ns.exec) ≡ true
  is_labelled : i ≡ identity_of cluster i.namespace i.service_account (or_blank pod)

parts-IsNamed :
    (cluster : Cluster) (ns : Namespaces) (pod : Option String)
    (system kind namespace service_account : String)
    → system ≡ "system"
    → kind ≡ "serviceaccount"
    → (namespace == ns.sandbox || namespace == ns.exec) ≡ true
    → IsNamed cluster ns pod
        (system ∷ kind ∷ namespace ∷ service_account ∷ [])
        (identity_of cluster namespace service_account (or_blank pod))
unfolding identity_of
parts-IsNamed cluster ns pod system kind namespace service_account a b inside = record {
  parts_are = rw (a, b) refl;
  is_inside = inside;
  is_labelled = refl;
}

success_injective : (j i : SandboxIdentity) → success j ≡ success i → j ≡ i
success_injective j i e = cc

from_parts-IsNamed :
    (cluster : Cluster) (ns : Namespaces) (pod : Option String) (parts : List String)
    (i : SandboxIdentity)
    → from_parts cluster ns pod parts ≡ success i
    → IsNamed cluster ns pod parts i
unfolding from_parts
from_parts-IsNamed cluster ns pod [] i h = absurd (cc)
from_parts-IsNamed cluster ns pod (a ∷ []) i h = absurd (cc)
from_parts-IsNamed cluster ns pod (a ∷ b ∷ []) i h = absurd (cc)
from_parts-IsNamed cluster ns pod (a ∷ b ∷ c ∷ []) i h = absurd (cc)
from_parts-IsNamed cluster ns pod (a ∷ b ∷ c ∷ d ∷ []) i h =
    if_cases (λ x. x ≡ success i → IsNamed cluster ns pod (a ∷ b ∷ c ∷ d ∷ []) i)
      (not (a == "system") || not (b == "serviceaccount")) (λ y e. absurd (cc))
      (λ n.
        if_cases (λ x. x ≡ success i → IsNamed cluster ns pod (a ∷ b ∷ c ∷ d ∷ []) i)
          (not (c == ns.sandbox || c == ns.exec)) (λ y e. absurd (cc))
          (λ inside e.
            subst (IsNamed cluster ns pod (a ∷ b ∷ c ∷ d ∷ [])) (success_injective _ i e) (
              parts-IsNamed cluster ns pod a b c d (ground (arith, n, eq_iff a "system"))
                (ground (arith, n, eq_iff b "serviceaccount")) (ground (arith, inside)))))
      h
from_parts-IsNamed cluster ns pod (a ∷ b ∷ c ∷ d ∷ e ∷ rest) i h = absurd (cc)

reviewed-IsVouched :
    (cluster : Cluster) (ns : Namespaces) (authorization token : String) (i : SandboxIdentity)
    (r : Option Review)
    → after_prefix "Bearer " authorization ≡ some token
    → cluster.review (strip token) ≡ r
    → reviewed cluster ns r ≡ success i
    → IsVouched cluster ns authorization i
unfolding reviewed
reviewed-IsVouched cluster ns authorization token i none p e h = absurd (cc)
reviewed-IsVouched cluster ns authorization token i (some r) p e h =
    if_cases (λ x. x ≡ success i → IsVouched cluster ns authorization i) r.authenticated
      (λ y k.
        vouched y (from_parts-IsNamed cluster ns r.pod (split_on 58 (or_blank r.username)) i k))
      (λ n k. absurd (cc)) h
  where
    vouched :
        r.authenticated ≡ true
        → IsNamed cluster ns r.pod (split_on 58 (or_blank r.username)) i
        → IsVouched cluster ns authorization i
    vouched y k = record {
      token = token;
      presented = p;
      vouched = r;
      reviewed_as = e;
      authenticated = y;
      named = k.parts_are;
      inside = k.is_inside;
      labelled = k.is_labelled;
    }

authenticate-IsVouched :
    (cluster : Cluster) (ns : Namespaces) (authorization token : String) (i : SandboxIdentity)
    → after_prefix "Bearer " authorization ≡ some token
    → authenticate cluster ns (strip token) ≡ success i
    → IsVouched cluster ns authorization i
unfolding authenticate
authenticate-IsVouched cluster ns authorization token i p h =
    if_cases (λ x. x ≡ success i → IsVouched cluster ns authorization i) cluster.configured
      (λ _ k. reviewed-IsVouched cluster ns authorization token i _ p refl k) (λ _ k. absurd (cc)) h

-- A caller is let in only as a service account of a sandbox's namespace, for a bearer token that the
-- cluster vouches for; which persona and which meeting it has is read from its own pod's labels.
pub require_sandbox_identity-IsVouched :
    (cluster : Cluster) (ns : Namespaces) (authorization : String) (i : SandboxIdentity)
    → require_sandbox_identity cluster ns authorization ≡ success i
    → IsVouched cluster ns authorization i
unfolding require_sandbox_identity
require_sandbox_identity-IsVouched cluster ns authorization i h =
    presented (after_prefix "Bearer " authorization) refl h
  where
    presented :
        (o : Option String)
        → after_prefix "Bearer " authorization ≡ o
        → (elim o [
          | none ↦ http_error 401 "Missing sandbox token"
          | some token ↦ authenticate cluster ns (strip token)
        ])
          ≡ success i
        → IsVouched cluster ns authorization i
    presented none e k = absurd (cc)
    presented (some token) e k = authenticate-IsVouched cluster ns authorization token i e k
