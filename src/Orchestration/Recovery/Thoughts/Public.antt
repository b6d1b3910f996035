-- ===== src/Orchestration/Recovery/Thoughts/Public.antt =====
-- backend/app/orchestration/recovery.py, split_thought and strip_speaker_prefix: what is said in
-- public holds no opening tag.
use Prim.Native.Char.{Char, code}
use Prim.Native.String.{String, [], ◌∷◌}
use mathlib.Core.Option.{Option, none, some}
use meetings.Prelude.{◌≡◌, refl, true, false, arith, if_cases, nat_eq}
use meetings.Text.{strip, after_prefix, contains, is_some, lstrip}
use meetings.Text.Substrings.{
  contains-strip, contains_tail, contains-lstrip, contains_cons, not_prefix,
}
use meetings.Orchestration.Recovery.Thoughts.{
  after_open, before_open, without_thoughts, split_thought, after_bracket, drop_tag,
  strip_speaker_prefix,
}

-- Neither opening tag stands in the text.
abbrev pub HidesThoughts : String → Type 0
HidesThoughts s = (contains "<thought>" s ≡ false) × (contains "<thinking>" s ≡ false)

before_open_prefix : (s : String) → is_some (after_prefix (before_open s) s) ≡ true
unfolding before_open after_prefix
before_open_prefix [] = refl
before_open_prefix (c ∷ s) =
    if_cases (λ t. is_some (after_prefix t (c ∷ s)) ≡ true) (is_some (after_open (c ∷ s)))
      (λ _. refl) (λ _. ground (arith, before_open_prefix s))

not_open :
    (s : String)
    → is_some (after_open s) ≡ false
    → (is_some (after_prefix "<thought>" s) ≡ false)
      × (is_some (after_prefix "<thinking>" s) ≡ false)
unfolding after_open
not_open s h = ground (arith, h)

cons_prefix :
    (c : Char) (t s : String)
    → is_some (after_prefix t s) ≡ true
    → is_some (after_prefix (c ∷ t) (c ∷ s)) ≡ true
unfolding after_prefix
cons_prefix c t s h = ground (arith, h)

open_cons :
    (c : Char) (s : String)
    → is_some (after_open (c ∷ s)) ≡ false
    → HidesThoughts (before_open s)
    → HidesThoughts (c ∷ before_open s)
open_cons c s n h = (
  contains_cons "<thought>" c (before_open s)
      (not_prefix "<thought>" (c ∷ before_open s) (c ∷ s) kept (not_open (c ∷ s) n).0) h.0,
  contains_cons "<thinking>" c (before_open s)
      (not_prefix "<thinking>" (c ∷ before_open s) (c ∷ s) kept (not_open (c ∷ s) n).1) h.1,
)
  where
    kept : is_some (after_prefix (c ∷ before_open s) (c ∷ s)) ≡ true
    kept = cons_prefix c (before_open s) s (before_open_prefix s)

-- A tag that begins nowhere in a text begins nowhere before the first opening tag.
before_open-HidesThoughts : (s : String) → HidesThoughts (before_open s)
unfolding before_open contains after_prefix
before_open-HidesThoughts [] = (refl, refl)
before_open-HidesThoughts (c ∷ s) =
    if_cases HidesThoughts (is_some (after_open (c ∷ s))) (λ _. (refl, refl))
      (λ n. open_cons c s n (before_open-HidesThoughts s))

split_thought-HidesThoughts : (content : String) → HidesThoughts (split_thought content).0
unfolding split_thought
split_thought-HidesThoughts content =
    strip_hides (before_open (without_thoughts 0 content))
      (before_open-HidesThoughts (without_thoughts 0 content))
  where
    strip_hides : (s : String) → HidesThoughts s → HidesThoughts (strip s)
    strip_hides s h = (contains-strip "<thought>" s h.0, contains-strip "<thinking>" s h.1)

contains-after_bracket :
    (p s r : String) → after_bracket s ≡ some r → contains p s ≡ false → contains p r ≡ false
unfolding after_bracket
contains-after_bracket p [] r e h = absurd (cc)
contains-after_bracket p (c ∷ s) r e h =
    ground (arith, e, contains_tail p c s h, contains-after_bracket p s r)

contains-drop_tag : (p s : String) → contains p s ≡ false → contains p (drop_tag s) ≡ false
unfolding drop_tag
contains-drop_tag p [] h = h
contains-drop_tag p (c ∷ s) h =
    if_cases (λ t. contains p t ≡ false) (nat_eq (code c) 91) (λ _. dropped (after_bracket s) refl)
      (λ _. h)
  where
    dropped :
        (o : Option String)
        → after_bracket s ≡ o
        → contains p (elim o [ none ↦ c ∷ s | some rest ↦ lstrip rest ]) ≡ false
    dropped none e = h
    dropped (some r) e =
        contains-lstrip p r (contains-after_bracket p s r e (contains_tail p c s h))

-- Whatever the model says, the text that is published after its private reasoning and a speaker's tag
-- are taken off holds no opening tag of private reasoning.
pub strip_speaker_prefix-HidesThoughts :
    (content : String) → HidesThoughts (strip_speaker_prefix (split_thought content).0)
unfolding strip_speaker_prefix
strip_speaker_prefix-HidesThoughts content = (
  contains-strip "<thought>" (drop_tag said)
      (contains-drop_tag "<thought>" said (split_thought-HidesThoughts content).0),
  contains-strip "<thinking>" (drop_tag said)
      (contains-drop_tag "<thinking>" said (split_thought-HidesThoughts content).1),
)
  where
    said : String
    said = (split_thought content).0
