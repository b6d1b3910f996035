-- ===== src/Orchestration/LlmCall/Rungs.antt =====
-- Which rungs of the default ladder (llm_call.py) are tried.
use mathlib.Core.List.{map-append}
use meetings.Prelude.{
  ℕ, String, ◌≡◌, refl, ◌⊎◌, false, Option, none, some, List, [], ◌∷◌, ◌++◌, map, if_cases, arith,
  Bool-cases, inl, inr, ◌∙◌, subst,
}
use meetings.Orchestration.LlmCall.{
  Fields, Reply, raised, envelope, plain, ToolCall, Outcome, outcome_ok, run, rung, climb,
  structured_call, default_strategies, rejected, describe, settle, last_was_cut_off,
}

-- The strategies that were tried, in order.
abbrev pub tried : Outcome → List String
tried o = map (λ a. a.strategy) o.attempts

module _ (salvage : List ToolCall → String → Option Fields) (field : String) where
  tried-run :
      (s : String) (b : ℕ) (r : Reply) (o : Outcome)
      → tried (run salvage field s b r o) ≡ tried o ++ s ∷ []
  unfolding run rejected settle describe
  tried-run s b (raised e) o = map-append (λ a. a.strategy) o.attempts _
  tried-run s b (envelope p raw) o = map-append (λ a. a.strategy) o.attempts _
  tried-run s b (plain p raw) o = map-append (λ a. a.strategy) o.attempts _

  module _ (tools texts : ℕ → ℕ → Reply) (max_tokens : ℕ) where
    abbrev step : String → Outcome → Outcome
    step = rung salvage field tools (some texts) max_tokens

    tried-tools : (o : Outcome) → tried (step "tools" o) ≡ tried o ++ "tools" ∷ []
    unfolding rung
    tried-tools o = tried-run _ _ _ o

    tried-text : (o : Outcome) → tried (step "text" o) ≡ tried o ++ "text" ∷ []
    unfolding rung
    tried-text o = tried-run _ _ _ o

    tried-retry :
        (o : Outcome)
        → (tried (step "tools_retry" o) ≡ tried o)
          ⊎ (tried (step "tools_retry" o) ≡ tried o ++ "tools_retry" ∷ [])
    unfolding rung
    tried-retry o =
        if_cases (λ x. (tried x ≡ tried o) ⊎ (tried x ≡ tried o ++ "tools_retry" ∷ []))
          (last_was_cut_off salvage field o.attempts) (λ _. inr (tried-run _ _ _ o)) (λ _. inl refl)

    -- A climb that fails has failed on its first rung, and went on from there.
    climb_failed :
        (s : String) (l : List String) (o : Outcome)
        → outcome_ok (climb salvage field tools (some texts) max_tokens (s ∷ l) o) ≡ false
        → climb salvage field tools (some texts) max_tokens (s ∷ l) o
          ≡ climb salvage field tools (some texts) max_tokens l (step s o)
    unfolding climb
    climb_failed s l o h = elim (Bool-cases (outcome_ok (step s o))) [
      | inl y ↦ absurd (ground (arith, h, y))
      | inr n ↦ rw n
    ]

    abbrev ladder : Outcome
    ladder = structured_call salvage field tools (some texts) max_tokens default_strategies

    abbrev start : Outcome
    start = record { value = none; strategy = none; attempts = [] }

    abbrev climbed : List String → Outcome → Outcome
    climbed = climb salvage field tools (some texts) max_tokens

    structured_call_lem : ladder ≡ climbed default_strategies start
    unfolding structured_call
    structured_call_lem = refl

    climb-nil : (o : Outcome) → climbed [] o ≡ o
    unfolding climb
    climb-nil o = refl

    -- A climb that fails has gone through all its rungs.
    three_rungs :
        (a b c : String) (o : Outcome)
        → outcome_ok (climbed (a ∷ b ∷ c ∷ []) o) ≡ false
        → climbed (a ∷ b ∷ c ∷ []) o ≡ step c (step b (step a o))
    three_rungs a b c o h =
        let e1 = climb_failed a (b ∷ c ∷ []) o h in
        let h1 = subst (λ x. outcome_ok x ≡ false) e1 h in
        let e2 = climb_failed b (c ∷ []) (step a o) h1 in
        let h2 = subst (λ x. outcome_ok x ≡ false) e2 h1 in
        e1 ∙ (e2 ∙ (climb_failed c [] (step b (step a o)) h2 ∙ climb-nil _))

    -- A ladder with a plain-text call that ends with no value has tried tool calling first and plain
    -- text last, and between them the larger budget or nothing.
    pub floor_tried :
        outcome_ok ladder ≡ false
        → (tried ladder ≡ "tools" ∷ "text" ∷ [])
          ⊎ (tried ladder ≡ "tools" ∷ "tools_retry" ∷ "text" ∷ [])
    floor_tried h =
        let o = step "tools" start in
        let failed = subst (λ x. outcome_ok x ≡ false) structured_call_lem h in
        rw (structured_call_lem, three_rungs "tools" "tools_retry" "text" start failed, tried-text)
          (elim (tried-retry o) [
            | inl e ↦ inl (rw (e, tried-tools))
            | inr e ↦ inr (rw (e, tried-tools))
          ])
