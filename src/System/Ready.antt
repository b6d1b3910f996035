-- ===== src/System/Ready.antt =====
-- What the status of system.py says, and which models it takes for served.
use Prim.Native.String.{String}
use meetings.Prelude.{
  ◌==◌, eq_iff, eq_refl, ◌≡◌, refl, Bool, true, false, not, ◌&&◌, List, elem, any, arith,
}
use meetings.Text.{is_some}
use meetings.Internal.{present}
use meetings.System.{
  untagged, matches, model_is_served, Endpoint, Environment, endpoint_configured, database_part,
  endpoint_part, append, remediation_of, system_status,
}

matches-untagged : (wanted name : String) → matches wanted name ≡ (untagged name == untagged wanted)
unfolding matches
matches-untagged wanted name = ground arith

any-elem :
    (wanted : String) (available : List String)
    → elem wanted available ≡ true
    → any (λ n. untagged n == untagged wanted) available ≡ true
any-elem wanted List.[] h = absurd (cc)
any-elem wanted (List.◌∷◌ n ns) h =
    ground (arith, h, eq_iff wanted n, eq_refl (untagged n), any-elem wanted ns)

any-matches :
    (wanted : String) (available : List String)
    → any (matches wanted) available ≡ any (λ n. untagged n == untagged wanted) available
any-matches wanted List.[] = refl
any-matches wanted (List.◌∷◌ n ns) =
    ground (arith, matches-untagged wanted n, any-matches wanted ns)

-- A model is taken for served exactly if some name that the endpoint lists is its own up to the
-- tags, whatever the two tags are.
pub model_is_served-any :
    (wanted : String) (available : List String)
    → model_is_served wanted available ≡ any (λ n. untagged n == untagged wanted) available
unfolding model_is_served
model_is_served-any wanted available =
    ground (arith, any-matches wanted available, any-elem wanted available)

abbrev pub is_empty : List String → Bool
is_empty List.[] = true
is_empty (List.◌∷◌ x xs) = false

empty-append : (a b : List String) → is_empty (append a b) ≡ (is_empty a && is_empty b)
unfolding append
empty-append List.[] b = refl
empty-append (List.◌∷◌ x a) b = refl

-- A part is in order exactly if it gives no reason, and then what it is about is configured.
database_agrees :
    (lower : String → String) (env : Environment)
    → ((database_part lower env).0 ≡ is_empty (database_part lower env).1)
      × (((database_part lower env).0 && is_some (present env.database_url))
          ≡ (database_part lower env).0)
unfolding database_part
database_agrees lower env = ground arith

endpoint_agrees :
    (label missing : String) (e : Endpoint)
    → ((endpoint_part label missing e).0 ≡ is_empty (endpoint_part label missing e).2)
      × (((endpoint_part label missing e).0 && endpoint_configured e)
          ≡ (endpoint_part label missing e).0)
unfolding endpoint_part
endpoint_agrees label missing e = ground arith

remediation_agrees :
    (reasons : List String) → is_some (remediation_of reasons) ≡ not (is_empty reasons)
unfolding remediation_of
remediation_agrees List.[] = refl
remediation_agrees (List.◌∷◌ r rs) = refl

-- The status says that the program is ready exactly if it gives no reason, and it names a command for
-- the operator exactly if it is not ready.
pub system_status-ready :
    (lower : String → String) (env : Environment)
    → ((system_status lower env).ready ≡ is_empty (system_status lower env).reasons)
      × (is_some (system_status lower env).remediation ≡ not (system_status lower env).ready)
unfolding system_status
system_status-ready lower env =
    let db = database_part lower env in
    let inference =
      endpoint_part "Inference" "INFERENCE_ENDPOINT / INFERENCE_MODEL_NAME are not set"
        env.inference in
    let embedding =
      endpoint_part "Embedding" "EMBEDDING_ENDPOINT / EMBEDDING_MODEL_NAME are not set"
        env.embedding in
    ground (
      arith,
      database_agrees lower env,
      endpoint_agrees "Inference" "INFERENCE_ENDPOINT / INFERENCE_MODEL_NAME are not set"
          env.inference,
      endpoint_agrees "Embedding" "EMBEDDING_ENDPOINT / EMBEDDING_MODEL_NAME are not set"
          env.embedding,
      empty-append db.1 (append inference.2 embedding.2),
      empty-append inference.2 embedding.2,
      remediation_agrees (append db.1 (append inference.2 embedding.2)),
    )
