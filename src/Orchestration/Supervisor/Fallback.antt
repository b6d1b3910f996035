-- ===== src/Orchestration/Supervisor/Fallback.antt =====
-- Why the chair (supervisor.py) ends a meeting: the reasons that count, and the fallback that is
-- taken when the model fails.
use meetings.Prelude.{
  ℕ, zero, suc, ◌+◌, String, ◌≡◌, refl, ◌==◌, eq_iff, Bool, true, false, not, ◌||◌, ◌&&◌, Option,
  none, some, arith, if_cases, leb, ltb, ap,
}
use meetings.Dict.{Dict, get, has_key, string_eq}
use meetings.Text.{strip}
use meetings.Orchestration.State.{Role, MeetingState, Update}
use meetings.Orchestration.LlmCall.{Fields, Outcome, value_text}
use meetings.Orchestration.Recovery.{finish}
use meetings.Orchestration.Supervisor.{
  first_unheard, degraded, failed, chosen, Turn, retry, done, or_finish, resolve_speaker, decide,
  give_up, try_attempt, attempts, supervise,
}
use meetings.Orchestration.Supervisor.Rulings.{first_unheard-has_key}

-- The model wrote FINISH itself, whatever the case.
abbrev pub SaysFinish : (String → String) → Fields → Type 0
SaysFinish upper d = (upper (strip (strip (value_text (get "next_speaker" d)))) == finish) ≡ true

-- A reason to end the meeting that is not a fault of the model.
pub data MayFinish (upper : String → String) (outcome : ℕ → Outcome) (attendees : Dict String Role)
    (s : MeetingState) : Type 0 where
  told : (s.stop_requested || s.terminated) ≡ true → MayFinish upper outcome attendees s
  limit : leb s.turn_limit s.current_turn ≡ true → MayFinish upper outcome attendees s
  said :
      (attempt : ℕ) (d : Fields)
      → (outcome attempt).value ≡ some d
      → SaysFinish upper d
      → MayFinish upper outcome attendees s
  heard : first_unheard s attendees ≡ none → MayFinish upper outcome attendees s

-- Of an update: if it ends the meeting, there is a reason.
record IsExcused (P : Type 0) (u : Update) : Type 0 where
  excuse : u.next_speaker ≡ some finish → P

-- Of an attempt: it settles so, or is not the last one.
data IsExcusedTurn (P : Type 0) (attempt : ℕ) : Turn → Type 0 where
  retrying : ltb attempt 2 ≡ true → IsExcusedTurn P attempt retry
  settled : {u : Update} → IsExcused P u → IsExcusedTurn P attempt (done u)

module _ (lower upper : String → String) (attendees : Dict String Role)
    (no_finish : has_key finish attendees ≡ false) (s : MeetingState) (outcome : ℕ → Outcome) where
  abbrev Reason : Type 0
  Reason = MayFinish upper outcome attendees s

  unheard_excused :
      (o : Option String) → first_unheard s attendees ≡ o → or_finish o ≡ finish → Reason
  unheard_excused none e h = heard e
  unheard_excused (some x) e h = absurd (
      ground
        (arith, first_unheard-has_key s attendees x e, no_finish, ap (λ y. has_key y attendees) h))

  chosen-IsExcused :
      (next reason : String) → (next ≡ finish → Reason) → IsExcused Reason (chosen s next reason)
  unfolding chosen
  chosen-IsExcused next reason f = record { excuse = λ e. f (ground (arith, e)) }

  decide-IsExcused :
      (attempt : ℕ) (d : Fields)
      → (outcome attempt).value ≡ some d
      → IsExcusedTurn Reason attempt (decide lower upper attendees s attempt d)
  unfolding decide
  decide-IsExcused attempt d e =
      let next = strip (value_text (get "next_speaker" d)) in
      let resolved = resolve_speaker lower upper attendees next in
      let explicit_finish = upper (strip next) == finish in
      let reason = value_text (get "reasoning" d) in
      let unheard = or_finish (first_unheard s attendees) in
      if_cases (IsExcusedTurn Reason attempt) (resolved == finish && not explicit_finish)
        (λ _.
          if_cases (IsExcusedTurn Reason attempt) (ltb attempt 2) {x = retry}
            {y = done (chosen s unheard reason)} (λ y. retrying y)
            (λ _.
              settled (
                chosen-IsExcused unheard reason
                  (unheard_excused (first_unheard s attendees) refl))))
        (λ n. settled (
          chosen-IsExcused resolved reason
            (λ r. said attempt d e (ground (arith, n, r, eq_iff resolved finish)))))

  failed-IsExcused :
      (error : String) (o : Option String)
      → first_unheard s attendees ≡ o
      → IsExcused Reason (failed s attendees error)
  unfolding failed degraded
  failed-IsExcused error none e = record { excuse = λ _. heard e }
  failed-IsExcused error (some x) e = record {
    excuse = λ h. unheard_excused (some x) e (ground (arith, h, e));
  }

  try_attempt-IsExcused :
      (attempt : ℕ) (v : Option Fields)
      → (outcome attempt).value ≡ v
      → IsExcusedTurn Reason attempt (try_attempt lower upper attendees s attempt (outcome attempt))
  unfolding try_attempt give_up
  try_attempt-IsExcused attempt none e =
      rw (e, try_attempt)
        (if_cases (IsExcusedTurn Reason attempt) (ltb attempt 2) (λ y. retrying y)
          (λ _. settled (failed-IsExcused _ _ refl)))
  try_attempt-IsExcused attempt (some d) e = rw (e, try_attempt) (decide-IsExcused attempt d e)

  after :
      (attempt : ℕ) (t : Turn) (u : Update)
      → IsExcusedTurn Reason attempt t
      → (ltb attempt 2 ≡ true → IsExcused Reason u)
      → IsExcused Reason (elim t [ retry ↦ u | done w ↦ w ])
  after attempt _ u (retrying y) f = f y
  after attempt _ u (settled h) f = h

  attempts-IsExcused :
      (left attempt : ℕ)
      → left + attempt ≡ 2
      → IsExcused Reason (attempts lower upper attendees s outcome (suc left) attempt)
  unfolding attempts
  attempts-IsExcused zero attempt e =
      after attempt (try_attempt lower upper attendees s attempt (outcome attempt)) _
        (try_attempt-IsExcused attempt _ refl) (λ y. absurd (ground (arith, e, y)))
  attempts-IsExcused (suc left) attempt e =
      after attempt (try_attempt lower upper attendees s attempt (outcome attempt)) _
        (try_attempt-IsExcused attempt _ refl)
        (λ _. attempts-IsExcused left (suc attempt) (omega arith))

  told_or_limit :
      (a : Bool)
      → (s.stop_requested || s.terminated) ≡ a
      → (a || leb s.turn_limit s.current_turn) ≡ true
      → Reason
  told_or_limit true e h = told e
  told_or_limit false e h = limit h

  -- The chair ends the meeting only if a stop was requested, the turn limit is reached, the model said
  -- FINISH in one of its answers, or every attendee has spoken (no attendee's id being FINISH).
  pub supervise-MayFinish :
      (supervise lower upper attendees outcome s).next_speaker ≡ some finish
      → MayFinish upper outcome attendees s
  unfolding supervise
  supervise-MayFinish h =
      let by_user = s.stop_requested || s.terminated in
      let excused : IsExcused Reason (supervise lower upper attendees outcome s) =
        if_cases (IsExcused Reason) (by_user || leb s.turn_limit s.current_turn)
          (λ y. record { excuse = λ _. told_or_limit by_user refl y })
          (λ _. attempts-IsExcused 2 0 (omega arith)) in
      excused.excuse h
