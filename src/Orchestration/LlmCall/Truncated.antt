-- ===== src/Orchestration/LlmCall/Truncated.antt =====
-- llm_call.py hands `salvage` the `content` that `_describe` has cut to 300 characters, on the
-- plain-text rung included.
use meetings.Prelude.{ℕ, zero, suc, String, ◌≡◌, refl, ap, Option, none, some, List, [], ◌∷◌}
use meetings.Text.{take_text}
use meetings.Orchestration.LlmCall.{
  Fields, Reply, raised, envelope, plain, ToolCall, Raw, Outcome, usable, settle, describe, run,
  rung, climb, structured_call,
}

take_text_idem : (n : ℕ) (s : String) → take_text n (take_text n s) ≡ take_text n s
unfolding take_text
take_text_idem zero s = refl
take_text_idem (suc n) String.[] = refl
take_text_idem (suc n) (String.◌∷◌ c s) = ap (String.◌∷◌ c) (take_text_idem n s)

abbrev clip_raw : Raw → Raw
clip_raw raw = record raw { content = take_text 300 raw.content }

-- The reply with its body cut to 300 characters.
abbrev pub clip : Reply → Reply
clip (raised e) = raised e
clip (envelope p raw) = envelope p (clip_raw raw)
clip (plain p raw) = plain p (clip_raw raw)

abbrev pub clip_text : Option (ℕ → ℕ → Reply) → Option (ℕ → ℕ → Reply)
clip_text none = none
clip_text (some f) = some (λ n b. clip (f n b))

module _ (salvage : List ToolCall → String → Option Fields) (field : String) where
  run-clip :
      (s : String) (b : ℕ) (r : Reply) (o : Outcome)
      → run salvage field s b (clip r) o ≡ run salvage field s b r o
  unfolding run usable settle describe
  run-clip s b (raised e) o = refl
  run-clip s b (envelope p raw) o = rw (take_text_idem 300 raw.content)
  run-clip s b (plain p raw) o = rw (take_text_idem 300 raw.content)

  module _ (tools : ℕ → ℕ → Reply) (texts : Option (ℕ → ℕ → Reply)) (max_tokens : ℕ) where
    abbrev clipped : ℕ → ℕ → Reply
    clipped n b = clip (tools n b)

    rung-clip :
        (t : Option (ℕ → ℕ → Reply)) (s : String) (o : Outcome)
        → rung salvage field clipped (clip_text t) max_tokens s o
          ≡ rung salvage field tools t max_tokens s o
    unfolding rung
    rung-clip none s o = simp run-clip
    rung-clip (some f) s o = simp run-clip

    climb-clip :
        (l : List String) (o : Outcome)
        → climb salvage field clipped (clip_text texts) max_tokens l o
          ≡ climb salvage field tools texts max_tokens l o
    unfolding climb
    climb-clip [] o = refl
    climb-clip (s ∷ l) o = simp (rung-clip texts, climb-clip l)

    -- Cutting every reply's body to 300 characters changes nothing in the outcome of the ladder.
    pub structured_call-clip :
        (l : List String)
        → structured_call salvage field clipped (clip_text texts) max_tokens l
          ≡ structured_call salvage field tools texts max_tokens l
    unfolding structured_call
    structured_call-clip l = climb-clip l _
