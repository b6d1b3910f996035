-- ===== src/Orchestration/LlmCall/Ladder.antt =====
-- What an outcome of `structured_call` (llm_call.py) vouches for.
use meetings.Prelude.{
  ℕ, ◌*◌, ◌≤◌, String, ◌≡◌, refl, ◌==◌, Bool, true, false, Option, none, some, List, [], ◌∷◌, ◌++◌,
  length, arith, All, All-append, Bool-cases, inl, inr, if_cases, subst, subst⁻¹, sym, ◌∙◌,
}
use meetings.Orchestration.LlmCall.{
  Fields, Reply, raised, envelope, plain, ToolCall, Raw, Attempt, Outcome, outcome_ok, is_some,
  has_field, usable, settle, run, rung, climb, structured_call, rejected, describe,
  last_was_cut_off,
}

-- The verdicts of the attempts: only the last one may be a success, and it is one exactly if `b`.
abbrev pub Verdicts : Bool → List Attempt → Type 0
Verdicts b [] = b ≡ false
Verdicts b (a ∷ []) = a.is_ok ≡ b
Verdicts b (a ∷ a' ∷ rest) = (a.is_ok ≡ false) × Verdicts b (a' ∷ rest)

Verdicts-append :
    (l : List Attempt) (a : Attempt) → Verdicts false l → Verdicts a.is_ok (l ++ a ∷ [])
Verdicts-append [] a v = refl
Verdicts-append (x ∷ []) a v = (v, refl)
Verdicts-append (x ∷ y ∷ l) a v = (v.0, Verdicts-append (y ∷ l) a v.1)

has_field_some : (v : Option Fields) (name : String) → has_field v name ≡ true → is_some v ≡ true
unfolding has_field
has_field_some none name h = absurd (cc)
has_field_some (some f) name h = refl

is_some-false : (v : Option Fields) → is_some v ≡ false → v ≡ none
is_some-false none h = refl
is_some-false (some f) h = absurd (cc)

module _ (salvage : List ToolCall → String → Option Fields) (field : String) where
  record IsSound (top : ℕ) (o : Outcome) : Type 0 where
    answered : outcome_ok o ≡ has_field o.value field
    verdicts : Verdicts (outcome_ok o) o.attempts
    budgets : All (λ a. a.max_tokens ≤ top) o.attempts

  module _ (top : ℕ) (s : String) (b : ℕ) (le : b ≤ top) (o : Outcome) where
    settle-IsSound :
        (raw : Raw) (v : Option Fields)
        → o.value ≡ none
        → IsSound top o
        → IsSound top (settle salvage field s b raw v o)
    unfolding settle describe
    settle-IsSound raw v e h =
        let start : Verdicts false o.attempts =
          subst (λ x. Verdicts (is_some x) o.attempts) e h.verdicts in
        elim (Bool-cases (has_field v field)) [
          | inl y ↦ rw y (record {
            answered = has_field_some v field y ∙ sym y;
            verdicts = rw (has_field_some v field y) (Verdicts-append o.attempts _ start);
            budgets = All-append (λ a. a.max_tokens ≤ top) o.attempts _ h.budgets (le, tt);
          })
          | inr n ↦ rw n (record {
            answered = h.answered;
            verdicts =
                subst⁻¹ (λ x. Verdicts (is_some x) (o.attempts ++ describe s false raw b ∷ [])) e
                  (Verdicts-append o.attempts _ start);
            budgets = All-append (λ a. a.max_tokens ≤ top) o.attempts _ h.budgets (le, tt);
          })
        ]

    run-IsSound :
        (r : Reply) → o.value ≡ none → IsSound top o → IsSound top (run salvage field s b r o)
    unfolding run rejected
    run-IsSound (raised x) e h = record {
      answered = h.answered;
      verdicts =
          subst⁻¹ (λ v. Verdicts (is_some v) (o.attempts ++ rejected s b x ∷ [])) e
            (Verdicts-append o.attempts (rejected s b x)
              (subst (λ v. Verdicts (is_some v) o.attempts) e h.verdicts));
      budgets = All-append (λ a. a.max_tokens ≤ top) o.attempts _ h.budgets (le, tt);
    }
    run-IsSound (envelope p raw) e h = settle-IsSound raw (usable salvage field p raw) e h
    run-IsSound (plain p raw) e h = settle-IsSound raw (usable salvage field p raw) e h

  module _ (tools : ℕ → ℕ → Reply) (texts : Option (ℕ → ℕ → Reply)) (max_tokens : ℕ) where
    abbrev top_budget : ℕ
    top_budget = max_tokens * 3

    text_rung :
        (t : Option (ℕ → ℕ → Reply)) (o : Outcome)
        → o.value ≡ none
        → IsSound top_budget o
        → IsSound top_budget (elim t [
          | none ↦ o
          | some invoke ↦
              run salvage field "text" top_budget (invoke (length o.attempts) top_budget) o
        ])
    text_rung none o e h = h
    text_rung (some invoke) o e h = run-IsSound top_budget "text" top_budget (omega arith) o _ e h

    rung-IsSound :
        (s : String) (o : Outcome)
        → o.value ≡ none
        → IsSound top_budget o
        → IsSound top_budget (rung salvage field tools texts max_tokens s o)
    unfolding rung
    rung-IsSound s o e h =
        let P = λ (x : Outcome). IsSound top_budget x in
        let small : max_tokens ≤ top_budget = omega arith in
        let large : top_budget ≤ top_budget = omega arith in
        if_cases P (s == "tools") (λ _. run-IsSound top_budget "tools" max_tokens small o _ e h)
          λ _.
            if_cases P (s == "tools_retry")
              (λ _.
                if_cases P (last_was_cut_off salvage field o.attempts)
                  (λ _. run-IsSound top_budget "tools_retry" top_budget large o _ e h) (λ _. h))
              λ _. if_cases P (s == "text") (λ _. text_rung texts o e h) (λ _. h)

    climb-IsSound :
        (l : List String) (o : Outcome)
        → o.value ≡ none
        → IsSound top_budget o
        → IsSound top_budget (climb salvage field tools texts max_tokens l o)
    unfolding climb
    climb-IsSound [] o e h = h
    climb-IsSound (s ∷ l) o e h =
        let o' = rung salvage field tools texts max_tokens s o in
        let h' : IsSound top_budget o' = rung-IsSound s o e h in
        if_cases (λ x. IsSound top_budget x) (outcome_ok o') (λ _. h')
          (λ n. climb-IsSound l o' (is_some-false o'.value n) h')

    call-IsSound :
        (l : List String)
        → IsSound top_budget (structured_call salvage field tools texts max_tokens l)
    unfolding structured_call has_field
    call-IsSound l =
        climb-IsSound l _ refl (record { answered = refl; verdicts = refl; budgets = tt })

    -- A value that the ladder returns carries a non-blank text in the field asked for.
    pub structured_call-has_field :
        (l : List String) (v : Fields)
        → (structured_call salvage field tools texts max_tokens l).value ≡ some v
        → has_field (some v) field ≡ true
    structured_call-has_field l v e =
        let o = structured_call salvage field tools texts max_tokens l in
        sym (subst (λ x. is_some x ≡ has_field x field) e (call-IsSound l).answered)

    -- The ladder stops at the first success: the outcome has a value exactly if its last attempt is
    -- marked as a success, and every attempt before that one is marked as a failure.
    pub structured_call-Verdicts :
        (l : List String)
        → Verdicts
            (outcome_ok (structured_call salvage field tools texts max_tokens l))
            (structured_call salvage field tools texts max_tokens l).attempts
    structured_call-Verdicts l = (call-IsSound l).verdicts

    -- No call of the ladder is given more than three times the caller's budget.
    pub structured_call_budgets :
        (l : List String)
        → All
            (λ a. a.max_tokens ≤ max_tokens * 3)
            (structured_call salvage field tools texts max_tokens l).attempts
    structured_call_budgets l = (call-IsSound l).budgets
