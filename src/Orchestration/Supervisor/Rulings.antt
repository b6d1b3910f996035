-- ===== src/Orchestration/Supervisor/Rulings.antt =====
-- What every update of the chair (supervisor.py) has in common.
use meetings.Prelude.{
  ℕ, zero, suc, ◌+◌, String, ◌≡◌, refl, ◌⊎◌, inl, inr, ◌==◌, eq_iff, Bool, true, not, ◌||◌, ◌&&◌,
  Option, none, some, List, [], ◌∷◌, elem, arith, if_cases, elem-append, leb, ltb,
}
use meetings.Dict.{Dict, get, has_key, string_eq}
use meetings.Text.{strip}
use meetings.Orchestration.State.{
  Role, Message, ai_message, public_transcript, MeetingState, Update, is_utterance,
}
use meetings.Orchestration.LlmCall.{Fields, Outcome, value_text}
use meetings.Orchestration.Recovery.{finish}
use meetings.Orchestration.Recovery.Speaker.{recover_speaker_id-IsNamed}
use meetings.Orchestration.Supervisor.{
  ids, first_not_in, first_unheard, spoken, conclude, concluded, degraded, failed, chosen, Turn,
  retry, done, or_finish, valid_ids, resolve_speaker, decide, give_up, try_attempt, attempts,
  supervise,
}

pub elem-ids :
    (x : String) (attendees : Dict String Role) → elem x (ids attendees) ≡ has_key x attendees
unfolding has_key
elem-ids x [] = refl
elem-ids x ((a, r) ∷ l) = ground (arith, elem-ids x l, eq_iff x a, eq_iff a x)

first_not_in-elem :
    (heard l : List String) (x : String) → first_not_in heard l ≡ some x → elem x l ≡ true
unfolding first_not_in
first_not_in-elem heard [] x h = absurd (cc)
first_not_in-elem heard (a ∷ l) x h = ground (arith, first_not_in-elem heard l x, eq_iff x a)

pub first_unheard-has_key :
    (s : MeetingState) (attendees : Dict String Role) (x : String)
    → first_unheard s attendees ≡ some x
    → has_key x attendees ≡ true
unfolding first_unheard
first_unheard-has_key s attendees x h =
    ground (arith, first_not_in-elem (spoken s.messages) (ids attendees) x h, elem-ids x attendees)

-- An update that ends the meeting, or gives the next turn to an attendee and counts it; and that says
-- nothing in public and counts one turn at most.
pub record IsRuling (attendees : Dict String Role) (s : MeetingState) (u : Update) : Type 0 where
  pub next : String
  pub named : u.next_speaker ≡ some next
  pub routed :
      (next ≡ finish)
      ⊎ ((has_key next attendees ≡ true) × (u.current_turn ≡ some (s.current_turn + 1)))
  pub quiet : public_transcript u.messages ≡ []
  pub counted : (u.current_turn ≡ none) ⊎ (u.current_turn ≡ some (s.current_turn + 1))

ai_message-quiet : (content : String) → public_transcript (ai_message content ∷ []) ≡ []
unfolding public_transcript is_utterance get
ai_message-quiet content = refl

empty-quiet : public_transcript [] ≡ []
unfolding public_transcript
empty-quiet = refl

-- A turn that is settled is a ruling.
data IsSettled (attendees : Dict String Role) (s : MeetingState) : Turn → Type 0 where
  retrying : IsSettled attendees s retry
  settled : {u : Update} → IsRuling attendees s u → IsSettled attendees s (done u)

module _ (attendees : Dict String Role) (s : MeetingState) where
  conclude-IsRuling :
      (content reason : String) (messages : List Message)
      → public_transcript messages ≡ []
      → IsRuling attendees s (conclude content messages reason)
  unfolding conclude
  conclude-IsRuling content reason messages q = record {
    next = finish;
    named = refl;
    routed = inl refl;
    quiet = q;
    counted = inl refl;
  }

  concluded-IsRuling : (by_user : Bool) → IsRuling attendees s (concluded s by_user)
  unfolding concluded
  concluded-IsRuling by_user = conclude-IsRuling _ _ _ (ai_message-quiet _)

  unheard_cases :
      (o : Option String)
      → first_unheard s attendees ≡ o
      → (or_finish o ≡ finish) ⊎ (has_key (or_finish o) attendees ≡ true)
  unheard_cases none e = inl refl
  unheard_cases (some x) e = inr (first_unheard-has_key s attendees x e)

  failed-IsRuling :
      (error : String) (o : Option String)
      → first_unheard s attendees ≡ o
      → IsRuling attendees s (failed s attendees error)
  unfolding failed degraded
  failed-IsRuling error none e = rw (e, failed) (conclude-IsRuling _ _ [] empty-quiet)
  failed-IsRuling error (some x) e =
      rw (e, failed)
        (record {
          next = x;
          named = refl;
          routed = inr (first_unheard-has_key s attendees x e, refl);
          quiet = ai_message-quiet _;
          counted = inr refl;
        })

  chosen-IsRuling :
      (next reason : String)
      → (next ≡ finish) ⊎ (has_key next attendees ≡ true)
      → IsRuling attendees s (chosen s next reason)
  unfolding chosen
  chosen-IsRuling next reason (inl e) = record {
    next = next;
    named = refl;
    routed = inl e;
    quiet = ai_message-quiet _;
    counted = inr refl;
  }
  chosen-IsRuling next reason (inr k) = record {
    next = next;
    named = refl;
    routed = inr (k, refl);
    quiet = ai_message-quiet _;
    counted = inr refl;
  }

  module _ (lower upper : String → String) where
    resolved_cases :
        (next : String)
        → let x = resolve_speaker lower upper attendees next in
          (x ≡ finish) ⊎ (has_key x attendees ≡ true)
    unfolding resolve_speaker
    resolved_cases next =
        let x = resolve_speaker lower upper attendees next in
        elim (recover_speaker_id-IsNamed lower upper (some next) (valid_ids lower upper attendees)
          attendees) [
            | inl e ↦ inl e
            | inr (inr k) ↦ inr k
            | inr (inl m) ↦ ground (
              arith,
              m,
              elem-append x (ids attendees) (finish ∷ []),
              elem-ids x attendees,
              eq_iff x finish,
            )
          ]

    decide-IsSettled :
        (attempt : ℕ) (d : Fields)
        → IsSettled attendees s (decide lower upper attendees s attempt d)
    unfolding decide
    decide-IsSettled attempt d =
        let next = strip (value_text (get "next_speaker" d)) in
        let resolved = resolve_speaker lower upper attendees next in
        let explicit_finish = upper (strip next) == finish in
        let reason = value_text (get "reasoning" d) in
        let unheard = or_finish (first_unheard s attendees) in
        if_cases (IsSettled attendees s) (resolved == finish && not explicit_finish)
          (λ _.
            if_cases (IsSettled attendees s) (ltb attempt 2) {x = retry}
              {y = done (chosen s unheard reason)} (λ _. retrying)
              (λ _.
                settled (
                  chosen-IsRuling unheard reason (unheard_cases (first_unheard s attendees) refl))))
          (λ _. settled (chosen-IsRuling resolved reason (resolved_cases next)))

    try_attempt-IsSettled :
        (attempt : ℕ) (o : Outcome) (v : Option Fields)
        → o.value ≡ v
        → IsSettled attendees s (try_attempt lower upper attendees s attempt o)
    unfolding try_attempt give_up
    try_attempt-IsSettled attempt o none e =
        rw (e, try_attempt)
          (if_cases (IsSettled attendees s) (ltb attempt 2) (λ _. retrying)
            (λ _. settled (failed-IsRuling _ _ refl)))
    try_attempt-IsSettled attempt o (some d) e = rw (e, try_attempt) (decide-IsSettled attempt d)

    attempts-IsRuling :
        (outcome : ℕ → Outcome) (left attempt : ℕ)
        → IsRuling attendees s (attempts lower upper attendees s outcome left attempt)
    unfolding attempts
    attempts-IsRuling outcome zero attempt = conclude-IsRuling _ _ [] empty-quiet
    attempts-IsRuling outcome (suc left) attempt =
        go (try_attempt lower upper attendees s attempt (outcome attempt))
          (try_attempt-IsSettled attempt (outcome attempt) _ refl)
          (attempts-IsRuling outcome left (suc attempt))
      where
        go :
            (t : Turn)
            → IsSettled attendees s t
            → {u : Update} → IsRuling attendees s u
            → IsRuling attendees s (elim t [ retry ↦ u | done w ↦ w ])
        go retry _ k = k
        go (done w) (settled h) k = h

    -- Whatever the model replies, the chair ends the meeting or hands the turn to an attendee and counts
    -- it, it adds nothing to the public transcript, and it counts one turn at most.
    pub supervise-IsRuling :
        (outcome : ℕ → Outcome) → IsRuling attendees s (supervise lower upper attendees outcome s)
    unfolding supervise
    supervise-IsRuling outcome =
        let by_user = s.stop_requested || s.terminated in
        if_cases (IsRuling attendees s) (by_user || leb s.turn_limit s.current_turn)
          (λ _. concluded-IsRuling by_user) (λ _. attempts-IsRuling outcome 3 0)

    -- At the turn limit, and after a stop was requested, the chair ends the meeting without asking the
    -- model, and counts no turn.
    pub supervise-closes :
        (outcome : ℕ → Outcome)
        → (s.stop_requested || s.terminated || leb s.turn_limit s.current_turn) ≡ true
        → ((supervise lower upper attendees outcome s).next_speaker ≡ some finish)
          × ((supervise lower upper attendees outcome s).current_turn ≡ none)
    unfolding supervise concluded conclude
    supervise-closes outcome h = ground (arith, h)
