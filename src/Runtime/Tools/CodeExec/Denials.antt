-- ===== src/Runtime/Tools/CodeExec/Denials.antt =====
-- A refusal of the cluster, from the tool (code_exec.py) to the audit of the turn (agent.py).
use Prim.Native.String.{◌++◌ as text_append}
use meetings.Prelude.{
  ℕ, String, ◌≡◌, ◌≢◌, refl, ◌⊎◌, inl, inr, true, false, Option, none, some, [], ap, ◌∙◌, subst⁻¹,
  if◌then◌else◌, arith, Bool-cases, nat_eq,
}
use text.Mathlib.TextLemmas.{cons-append}
use meetings.Dict.{nat_eq_iff}
use meetings.Text.{is_some, after_prefix, contains}
use meetings.Runtime.Turn.{denial, denied_prefix, result_of}
use meetings.Runtime.Tools.CodeExec.{
  is_403, Failure, Job, refused, is_forbidden, refused_text, run_python_analysis, denial_text,
}

-- How a tool's answer is audited: not as a success, and with a reason of the denial.
abbrev pub IsAuditedDenial :
    (String → String) → Option String → String → Option String → String → Type 0
IsAuditedDenial lower id drawn name answer =
    ((result_of lower id drawn name answer).is_ok ≡ false)
    × (is_some (result_of lower id drawn name answer).denied_reason ≡ true)

forbidden_text :
    (lower : String → String) (e : Failure)
    → is_forbidden lower e ≡ true
    → refused_text lower e ≡ text_append denied_prefix denial_text
unfolding refused_text
forbidden_text lower e h =
    ap
      (λ b.
        if b
        then text_append denied_prefix denial_text
        else text_append "Code execution is unavailable: " e.message)
      h

denial_audited :
    (lower : String → String) (id : Option String) (drawn : String) (name : Option String)
    → IsAuditedDenial lower id drawn name (text_append denied_prefix denial_text)
unfolding result_of denial after_prefix
denial_audited lower id drawn name = (refl, refl)

unavailable_unaudited :
    (lower : String → String) (id : Option String) (drawn : String) (name : Option String)
    (message : String)
    → (result_of lower id drawn name
        (text_append "Code execution is unavailable: " message)).denied_reason
      ≡ none
unfolding result_of denial after_prefix
unavailable_unaudited lower id drawn name message =
    rw (cons-append "C" "ode execution is unavailable: " message) refl

-- What the apiserver answers to a claim that it forbids: the status 403, or a message that says so.
abbrev pub IsForbidden : (String → String) → Failure → Type 0
IsForbidden lower e = (e.status ≡ some 403) ⊎ (contains "forbidden" (lower e.message) ≡ true)

-- A failure with another status, whose message holds none of the words of a refusal.
pub record IsUnrelated (lower : String → String) (e : Failure) : Type 0 where
  pub other_status : e.status ≢ some 403
  pub no_forbidden : contains "forbidden" (lower e.message) ≡ false
  pub no_create : contains "cannot create resource" (lower e.message) ≡ false
  pub no_code : contains "403" (lower e.message) ≡ false

forbidden_found :
    (lower : String → String) (e : Failure) → IsForbidden lower e → is_forbidden lower e ≡ true
unfolding is_forbidden
forbidden_found lower e (inl s) = rw s refl
forbidden_found lower e (inr m) = ground (arith, m)

status_cases : (o : Option ℕ) → o ≢ some 403 → is_403 o ≡ false
status_cases none n = refl
status_cases (some x) n = elim (Bool-cases (nat_eq x 403)) [
  | inl y ↦ absurd (n (ap some ((nat_eq_iff x 403).0 y)))
  | inr f ↦ f
]

unrelated_unfound :
    (lower : String → String) (e : Failure) → IsUnrelated lower e → is_forbidden lower e ≡ false
unfolding is_forbidden
unrelated_unfound lower e u =
    ground (arith, status_cases e.status u.other_status, u.no_forbidden, u.no_create, u.no_code)

unrelated_text :
    (lower : String → String) (e : Failure)
    → is_forbidden lower e ≡ false
    → refused_text lower e ≡ text_append "Code execution is unavailable: " e.message
unfolding refused_text
unrelated_text lower e h =
    ap
      (λ b.
        if b
        then text_append denied_prefix denial_text
        else text_append "Code execution is unavailable: " e.message)
      h

-- How the answer to such a failure is audited.
unfoldable pub IsAuditOf :
    (lower : String → String) (e : Failure)
    → Option String
    → String
    → Option String
    → String
    → IsForbidden lower e ⊎ IsUnrelated lower e
    → Type 0
IsAuditOf lower e id drawn name answer (inl h) = IsAuditedDenial lower id drawn name answer
IsAuditOf lower e id drawn name answer (inr u) =
    (result_of lower id drawn name answer).denied_reason ≡ none

-- When the claim of a sandbox fails, with the status 403 or a message that says forbidden, or with
-- another status and a message without the words of a refusal: the run of Python holds no sandbox to
-- release, and in the first case the turn's result reports the tool as denied, with a reason, and not
-- as a success, in the second it gives no reason of a denial.
pub run_python_analysis-result_of :
    (lower : String → String) (job : String → Job) (ms : ℕ) (e : Failure) (id : Option String)
    (drawn : String) (name : Option String) (kind : IsForbidden lower e ⊎ IsUnrelated lower e)
    → let ran = run_python_analysis lower job ms (refused e) in
      (ran.released ≡ []) × IsAuditOf lower e id drawn name ran.answer kind
unfolding run_python_analysis IsAuditOf
run_python_analysis-result_of lower job ms e id drawn name (inl h) = (
  refl,
  subst⁻¹ (IsAuditedDenial lower id drawn name) (forbidden_text lower e (forbidden_found lower e h))
      (denial_audited lower id drawn name),
)
run_python_analysis-result_of lower job ms e id drawn name (inr u) = (
  refl,
  ap (λ t. (result_of lower id drawn name t).denied_reason)
        (unrelated_text lower e (unrelated_unfound lower e u))
      ∙ unavailable_unaudited lower id drawn name e.message,
)
