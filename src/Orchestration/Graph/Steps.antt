-- ===== src/Orchestration/Graph/Steps.antt =====
-- What one node of the meeting graph (graph.py) does to the state: the chair's node and an
-- attendee's keep the invariant of the meeting, whoever they are.
use meetings.Prelude.{
  ℕ, ◌+◌, ◌≤◌, String, ◌≡◌, refl, sym, ap, ◌∙◌, subst, ◌⊎◌, inl, inr, ◌==◌, eq_iff, true, false,
  none, some, List, [], ◌∷◌, ◌++◌, length, All, length-append, All-append, arith, Bool-cases, leb,
  leb→le, leb→lt,
}
use meetings.Dict.{Dict, get, has_key, string_eq}
use meetings.Orchestration.State.{
  Role, Message, make_utterance, is_utterance, public_transcript, Update, MeetingState, merge,
}
use meetings.Orchestration.Recovery.{finish}
use meetings.Orchestration.Graph.{Chair, IsAttendeeUpdate, At, supervisor, attendee, router, edge}

-- An utterance of an attendee.
pub record IsSpoken (attendees : Dict String Role) (m : Message) : Type 0 where
  pub content : String
  pub speaker : String
  pub attends : has_key speaker attendees ≡ true
  pub said : m ≡ make_utterance content speaker

-- The turns that were counted and not yet taken.
abbrev pending : At → ℕ
pending supervisor = 0
pending (attendee a) = 1

-- Every public utterance is an attendee's, and the utterances and the turn that is pending were
-- counted, within the limit.
pub record IsSound (attendees : Dict String Role) (at : At) (s : MeetingState) : Type 0 where
  pub attributed : All (IsSpoken attendees) (public_transcript s.messages)
  pub counted : length (public_transcript s.messages) + pending at ≤ s.current_turn
  pub within : s.current_turn ≤ s.turn_limit

append_nil {ℓ} : {A : Type ℓ} (l : List A) → l ++ [] ≡ l
append_nil [] = refl
append_nil (x ∷ l) = ap (x ∷◌) (append_nil l)

transcript-append :
    (a b : List Message) → public_transcript (a ++ b) ≡ public_transcript a ++ public_transcript b
unfolding public_transcript
transcript-append [] b = refl
transcript-append (m ∷ a) b = ground (arith, transcript-append a b)

transcript-utterance :
    (content a : String)
    → public_transcript (make_utterance content a ∷ []) ≡ make_utterance content a ∷ []
unfolding public_transcript is_utterance make_utterance get
transcript-utterance content a = refl

merge-messages : (s : MeetingState) (u : Update) → (merge s u).messages ≡ s.messages ++ u.messages
unfolding merge
merge-messages s u = refl

pub merge-uncounted :
    (s : MeetingState) (u : Update)
    → u.current_turn ≡ none
    → (merge s u).current_turn ≡ s.current_turn
unfolding merge
merge-uncounted s u e = ground (arith, e)

merge-counted :
    (s : MeetingState) (u : Update) (n : ℕ) → u.current_turn ≡ some n → (merge s u).current_turn ≡ n
unfolding merge
merge-counted s u n e = ground (arith, e)

pub merge-turn_limit : (s : MeetingState) (u : Update) → (merge s u).turn_limit ≡ s.turn_limit
unfolding merge
merge-turn_limit s u = refl

merge-next_speaker :
    (s : MeetingState) (u : Update) (x : String)
    → u.next_speaker ≡ some x
    → (merge s u).next_speaker ≡ some x
unfolding merge
merge-next_speaker s u x e = ground (arith, e)

-- Where the edge goes on, the chair named an attendee that attends.
edge-attendee :
    (attendees : Dict String Role) (s : MeetingState) (x : String) (at : At)
    → s.next_speaker ≡ some x
    → edge (router attendees s) ≡ some at
    → (at ≡ attendee x) × (has_key x attendees ≡ true) × ((x == finish) ≡ false)
unfolding router edge
edge-attendee attendees s x at e = elim (Bool-cases (x == finish)) [
  | inl y ↦ rw (e, y) (λ h. absurd (ground (arith, h)))
  | inr n ↦ elim (Bool-cases (has_key x attendees)) [
    | inl k ↦ rw (e, n, k, n) (λ h. (ground (arith, h), refl, refl))
    | inr k ↦ rw (e, n, k) (λ h. absurd (ground (arith, h)))
  ]
]

-- The chair's step: the state stays sound, with a turn pending where it goes on, and it goes on below the limit only.
module _ {attendees : Dict String Role} (chair : Chair attendees) (n : ℕ) (s : MeetingState) where
  chair_quiet : public_transcript (merge s (chair.rule n s)).messages ≡ public_transcript s.messages
  chair_quiet =
      let u = chair.rule n s in
      ap public_transcript (merge-messages s u)
      ∙ transcript-append s.messages u.messages
      ∙ subst (λ l. public_transcript s.messages ++ l ≡ public_transcript s.messages)
          (sym (chair.ruling n s).quiet) (append_nil (public_transcript s.messages))

  -- At the limit the edge leads to END.
  pub chair_closes :
      (at : At)
      → edge (router attendees (merge s (chair.rule n s))) ≡ some at
      → s.turn_limit ≤ s.current_turn
      → ⊥
  chair_closes at e l =
      let (_, _, f) =
        edge-attendee attendees (merge s (chair.rule n s)) finish at
          (merge-next_speaker s (chair.rule n s) finish (chair.closes n s l).0) e in
      ground (arith, f, eq_iff finish finish)

  chair_turn :
      ((merge s (chair.rule n s)).current_turn ≡ s.current_turn)
      ⊎ ((merge s (chair.rule n s)).current_turn ≡ s.current_turn + 1)
  chair_turn = elim (chair.ruling n s).counted [
    | inl e ↦ inl (merge-uncounted s (chair.rule n s) e)
    | inr e ↦ inr (merge-counted s (chair.rule n s) (s.current_turn + 1) e)
  ]

  pub chair_goes_on :
      (at : At)
      → edge (router attendees (merge s (chair.rule n s))) ≡ some at
      → (a : String) × (at ≡ attendee a)
        × (has_key a attendees ≡ true)
        × ((merge s (chair.rule n s)).current_turn ≡ s.current_turn + 1)
  chair_goes_on at e =
      let u = chair.rule n s in
      let r = chair.ruling n s in
      let (same, k, f) =
        edge-attendee attendees (merge s u) r.next at (merge-next_speaker s u r.next r.named) e in
      elim r.routed [
        | inl y ↦ absurd (ground (arith, y, f, eq_iff r.next finish))
        | inr (_, t) ↦ (r.next, same, k, merge-counted s u (s.current_turn + 1) t)
      ]

  chair-within :
      s.current_turn ≤ s.turn_limit → (merge s (chair.rule n s)).current_turn ≤ s.turn_limit
  chair-within w = elim (Bool-cases (leb s.turn_limit s.current_turn)) [
    | inl y ↦ ground (
      arith,
      merge-uncounted s (chair.rule n s)
          (chair.closes n s (leb→le s.turn_limit s.current_turn y)).1,
      w,
    )
    | inr f ↦ ground (arith, chair_turn, leb→lt s.turn_limit s.current_turn f)
  ]

-- The invariant after the chair's node, wherever the run goes.
module _ {attendees : Dict String Role} (chair : Chair attendees) (n : ℕ) (s : MeetingState)
    (sound : IsSound attendees supervisor s) where
  pub chair-IsSound : IsSound attendees supervisor (merge s (chair.rule n s))
  chair-IsSound = record {
    attributed = subst (All (IsSpoken attendees)) (sym (chair_quiet chair n s)) sound.attributed;
    counted = ground (arith, chair_quiet chair n s, chair_turn chair n s, sound.counted);
    within =
        subst (λ k. (merge s (chair.rule n s)).current_turn ≤ k)
          (sym (merge-turn_limit s (chair.rule n s))) (chair-within chair n s sound.within);
  }

  pub chair-IsSound_pending :
      (a : String)
      → (merge s (chair.rule n s)).current_turn ≡ s.current_turn + 1
      → IsSound attendees (attendee a) (merge s (chair.rule n s))
  chair-IsSound_pending a e = record {
    attributed = chair-IsSound.attributed;
    counted = ground (arith, chair_quiet chair n s, e, sound.counted);
    within = chair-IsSound.within;
  }

pub speaker-IsSound :
    (attendees : Dict String Role) (a : String) (s : MeetingState) (u : Update)
    → IsSound attendees (attendee a) s
    → IsAttendeeUpdate attendees u
    → IsSound attendees supervisor (merge s u)
speaker-IsSound attendees a s u sound o =
    let said : public_transcript (merge s u).messages
        ≡ public_transcript s.messages ++ make_utterance o.own.content o.speaker ∷ [] =
      ap public_transcript (merge-messages s u)
      ∙ transcript-append s.messages u.messages
      ∙ ap (λ m. public_transcript s.messages ++ public_transcript m) o.own.said
      ∙ ap (λ m. public_transcript s.messages ++ m)
          (transcript-utterance o.own.content o.speaker) in
    record {
      attributed = subst (All (IsSpoken attendees)) (sym said) (
          All-append _ _ _ sound.attributed (
            record {
              content = o.own.content;
              speaker = o.speaker;
              attends = o.attends;
              said = refl;
            },
            tt,
          ));
      counted = ground (
        arith,
        ap length said,
        length-append (public_transcript s.messages) (make_utterance o.own.content o.speaker ∷ []),
        merge-uncounted s u o.own.uncounted,
        sound.counted,
      );
      within =
          ground (arith, merge-uncounted s u o.own.uncounted, merge-turn_limit s u, sound.within);
    }

pub weaken-IsSound :
    (attendees : Dict String Role) (at : At) (s : MeetingState)
    → IsSound attendees at s
    → IsSound attendees supervisor s
weaken-IsSound attendees at s sound = record {
  attributed = sound.attributed;
  counted = ground (arith, sound.counted);
  within = sound.within;
}

pub empty-IsSpoken :
    (attendees : Dict String Role) → All (IsSpoken attendees) (public_transcript [])
unfolding public_transcript
empty-IsSpoken attendees = tt

pub empty-length : length (public_transcript []) ≡ 0
unfolding public_transcript
empty-length = refl
