-- ===== src/Orchestration/Graph/Runs.antt =====
-- What a run of the meeting graph (graph.py) guarantees, for any chair and any attendees that keep
-- to their interfaces.
use meetings.Prelude.{
  none, ℕ, zero, suc, ◌+◌, ◌*◌, ◌-◌, ◌≤◌, ◌<◌, String, ◌≡◌, ◌≢◌, refl, sym, ap, subst, inl, inr,
  true, some, [], length, All, arith, Bool-cases, Option-cases, leb, leb→le, leb→lt,
}
use meetings.Dict.{Dict, has_key, string_eq}
use meetings.Profiles.{DriftError}
use meetings.Orchestration.State.{Role, public_transcript, Update, MeetingState, merge}
use meetings.Orchestration.Agents.{Node, returned, raised}
use meetings.Orchestration.Graph.{
  Chair, Speakers, At, supervisor, attendee, Halt, ended, failed_with, chair_failed,
  recursion_error, Run, router, edge, graph_run,
}
use meetings.Orchestration.Graph.Steps.{
  IsSpoken, IsSound, merge-uncounted, merge-turn_limit, chair_closes, chair_goes_on, chair-IsSound,
  chair-IsSound_pending, speaker-IsSound, weaken-IsSound, empty-IsSpoken, empty-length,
}

-- The node that runs next is one of the graph's.
abbrev Attends : Dict String Role → At → Type 0
Attends attendees supervisor = Unit
Attends attendees (attendee a) = has_key a attendees ≡ true

-- The nodes that are enough from a node on.
abbrev pub enough : At → MeetingState → ℕ
enough supervisor s = 2 * (s.turn_limit - s.current_turn) + 1
enough (attendee a) s = 2 * (s.turn_limit - s.current_turn) + 2

module _ {W : Type 0} {attendees : Dict String Role} (chair : Chair attendees)
    (speakers : Speakers attendees W) where
  -- An attendee's node, by what it returns.
  speaker_cases :
      (P : Run W → Type 0) (left n : ℕ) (a : String) (s : MeetingState) (w : W)
      → ((x : DriftError)
          → (speakers.speak a n s w).0 ≡ raised x
          → P (record { halt = failed_with x; state = s; backend = (speakers.speak a n s w).1 }))
      → ((u : Update)
          → (speakers.speak a n s w).0 ≡ returned u
          → P (
              graph_run chair speakers left
                (suc n)
                supervisor
                (merge s u)
                (speakers.speak a n s w).1))
      → P (graph_run chair speakers (suc left) n (attendee a) s w)
  unfolding graph_run
  speaker_cases P left n a s w f g = go (speakers.speak a n s w).0 refl
    where
      go :
          (r : Node)
          → (speakers.speak a n s w).0 ≡ r
          → P (graph_run chair speakers (suc left) n (attendee a) s w)
      go (raised x) e = rw (graph_run, e) (f x e)
      go (returned u) e = rw (graph_run, e) (g u e)

  -- The chair's node, by where the edge leads.
  chair_cases :
      (P : Run W → Type 0) (left n : ℕ) (s : MeetingState) (w : W)
      → ((e : String)
          → chair.raises s ≡ some e
          → P (record { halt = chair_failed e; state = s; backend = w }))
      → P (record { halt = ended; state = merge s (chair.rule n s); backend = w })
      → ((at : At)
          → edge (router attendees (merge s (chair.rule n s))) ≡ some at
          → P (graph_run chair speakers left (suc n) at (merge s (chair.rule n s)) w))
      → P (graph_run chair speakers (suc left) n supervisor s w)
  unfolding graph_run
  chair_cases P left n s w x f g = elim (Option-cases (chair.raises s)) [
    | inr (t, r) ↦ rw (graph_run, r) (x t r)
    | inl r ↦ elim (Option-cases (edge (router attendees (merge s (chair.rule n s))))) [
      | inl e ↦ rw (graph_run, r, e) f
      | inr (at, e) ↦ rw (graph_run, r, e) (g at e)
    ]
  ]

  run-IsSound :
      (left n : ℕ) (at : At) (s : MeetingState) (w : W)
      → Attends attendees at
      → speakers.IsGood w
      → IsSound attendees at s
      → IsSound attendees supervisor (graph_run chair speakers left n at s w).state
  unfolding graph_run
  run-IsSound zero n at s w k g sound = weaken-IsSound attendees at s sound
  run-IsSound (suc left) n supervisor s w k g sound =
      chair_cases (λ r. IsSound attendees supervisor r.state) left n s w (λ _ _. sound)
        (chair-IsSound chair n s sound)
        (λ at e.
          let (a, same, h, t) = chair_goes_on chair n s at e in
          subst
            (λ x.
              IsSound attendees supervisor
                (graph_run chair speakers left (suc n) x (merge s (chair.rule n s)) w).state)
            (sym same)
            (run-IsSound left (suc n) (attendee a) (merge s (chair.rule n s)) w h g
              (chair-IsSound_pending chair n s sound a t)))
  run-IsSound (suc left) n (attendee a) s w k g sound =
      speaker_cases (λ r. IsSound attendees supervisor r.state) left n a s w
        (λ x _. weaken-IsSound attendees (attendee a) s sound)
        (λ u e.
          run-IsSound left (suc n) supervisor (merge s u) (speakers.speak a n s w).1 tt
            (speakers.speak-IsGood a n s w g)
            (speaker-IsSound attendees a s u sound
              (speakers.speak-IsAttendeeUpdate a n s w u k g e)))

  run-halts :
      (left n : ℕ) (at : At) (s : MeetingState) (w : W)
      → speakers.IsGood w
      → Attends attendees at
      → enough at s ≤ left
      → (graph_run chair speakers left n at s w).halt ≢ recursion_error
  unfolding graph_run
  run-halts zero n supervisor s w g k f = λ e. ground (arith, f)
  run-halts zero n (attendee a) s w g k f = λ e. ground (arith, f)
  run-halts (suc left) n supervisor s w g k f =
      chair_cases (λ r. r.halt ≢ recursion_error) left n s w (λ t r h. absurd (cc))
        (λ h. absurd (cc))
        (λ at h.
          let (a, same, m, t) = chair_goes_on chair n s at h in
          let below : s.current_turn < s.turn_limit =
            elim (Bool-cases (leb s.turn_limit s.current_turn)) [
              | inl y ↦ absurd (chair_closes chair n s at h (leb→le s.turn_limit s.current_turn y))
              | inr x ↦ leb→lt s.turn_limit s.current_turn x
            ] in
          subst
            (λ x.
              (graph_run chair speakers left (suc n) x (merge s (chair.rule n s)) w).halt
              ≢ recursion_error)
            (sym same)
            (run-halts left (suc n) (attendee a) (merge s (chair.rule n s)) w g m
              (ground (arith, t, f, below, merge-turn_limit s (chair.rule n s)))))
  run-halts (suc left) n (attendee a) s w g k f =
      speaker_cases (λ r. r.halt ≢ recursion_error) left n a s w (λ x _ h. absurd (cc))
        (λ u e.
          let o = speakers.speak-IsAttendeeUpdate a n s w u k g e in
          run-halts left (suc n) supervisor (merge s u) (speakers.speak a n s w).1
            (speakers.speak-IsGood a n s w g) tt
            (ground (arith, f, merge-turn_limit s u, merge-uncounted s u o.own.uncounted)))

  run-raises_nothing :
      ((a : String) (n : ℕ) (s : MeetingState) (w : W) (x : DriftError)
        → has_key a attendees ≡ true
        → (speakers.speak a n s w).0 ≢ raised x)
      → (left n : ℕ) (at : At) (s : MeetingState) (w : W) (x : DriftError) → Attends attendees at
      → (graph_run chair speakers left n at s w).halt ≢ failed_with x
  unfolding graph_run
  run-raises_nothing q zero n at s w x k = λ h. absurd (cc)
  run-raises_nothing q (suc left) n supervisor s w x k =
      chair_cases (λ r. r.halt ≢ failed_with x) left n s w (λ t r h. absurd (cc)) (λ h. absurd (cc))
        (λ at h.
          let (a, same, m, _) = chair_goes_on chair n s at h in
          subst
            (λ y.
              (graph_run chair speakers left (suc n) y (merge s (chair.rule n s)) w).halt
              ≢ failed_with x)
            (sym same)
            (run-raises_nothing q left (suc n) (attendee a) (merge s (chair.rule n s)) w x m))
  run-raises_nothing q (suc left) n (attendee a) s w x k =
      speaker_cases (λ r. r.halt ≢ failed_with x) left n a s w (λ y e. absurd (q a n s w y k e))
        (λ u e.
          run-raises_nothing q left (suc n) supervisor (merge s u) (speakers.speak a n s w).1 x tt)

  run-prepared :
      ((s : MeetingState) → chair.raises s ≡ none)
      → (left n : ℕ) (at : At) (s : MeetingState) (w : W) (x : String)
      → (graph_run chair speakers left n at s w).halt ≢ chair_failed x
  unfolding graph_run
  run-prepared q zero n at s w x = λ h. absurd (cc)
  run-prepared q (suc left) n supervisor s w x =
      chair_cases (λ r. r.halt ≢ chair_failed x) left n s w (λ t r. absurd (ground (arith, r, q s)))
        (λ h. absurd (cc)) (λ at h. run-prepared q left (suc n) at (merge s (chair.rule n s)) w x)
  run-prepared q (suc left) n (attendee a) s w x =
      speaker_cases (λ r. r.halt ≢ chair_failed x) left n a s w (λ y e h. absurd (cc))
        (λ u e. run-prepared q left (suc n) supervisor (merge s u) (speakers.speak a n s w).1 x)

  -- A meeting that starts at turn 0 with no messages, however many nodes it is allowed: in the state
  -- that its run leaves, every public utterance is an attendee's, there are no more of them than
  -- turns were counted, and no more turns than the limit.
  pub graph_run-IsSound :
      (left : ℕ) (s : MeetingState) (w : W)
      → speakers.IsGood w
      → s.messages ≡ []
      → s.current_turn ≡ 0
      → IsSound attendees supervisor (graph_run chair speakers left 0 supervisor s w).state
  graph_run-IsSound left s w g m t = run-IsSound left 0 supervisor s w tt g (record {
    attributed =
        subst (λ l. All (IsSpoken attendees) (public_transcript l)) (sym m)
          (empty-IsSpoken attendees);
    counted = ground (arith, t, ap (λ l. length (public_transcript l)) m, empty-length);
    within = ground (arith, t);
  })

  -- A run of the meeting from the supervisor that is allowed two nodes for each turn that is left, and
  -- one more, never stops by the recursion limit: it reaches END, or a node raised.
  pub graph_run-halts :
      (left n : ℕ) (s : MeetingState) (w : W)
      → speakers.IsGood w
      → 2 * (s.turn_limit - s.current_turn) + 1 ≤ left
      → (graph_run chair speakers left n supervisor s w).halt ≢ recursion_error
  graph_run-halts left n s w g f = run-halts left n supervisor s w g tt f

  -- When moreover no node raises, such a run reaches END.
  pub graph_run-ends :
      ((s : MeetingState) → chair.raises s ≡ none)
      → ((a : String) (n : ℕ) (s : MeetingState) (w : W) (x : DriftError)
          → has_key a attendees ≡ true
          → (speakers.speak a n s w).0 ≢ raised x)
      → (left n : ℕ) (s : MeetingState) (w : W) → speakers.IsGood w
      → 2 * (s.turn_limit - s.current_turn) + 1 ≤ left
      → (graph_run chair speakers left n supervisor s w).halt ≡ ended
  graph_run-ends p q left n s w g f =
      only_ended _ (run-halts left n supervisor s w g tt f)
        (λ x. run-raises_nothing q left n supervisor s w x tt)
        (λ x. run-prepared p left n supervisor s w x)
    where
      only_ended :
          (h : Halt)
          → h ≢ recursion_error
          → ((x : DriftError) → h ≢ failed_with x)
          → ((x : String) → h ≢ chair_failed x)
          → h ≡ ended
      only_ended ended a b c = refl
      only_ended recursion_error a b c = absurd (a refl)
      only_ended (failed_with x) a b c = absurd (b x refl)
      only_ended (chair_failed x) a b c = absurd (c x refl)
