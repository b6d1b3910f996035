-- ===== src/Orchestration/Recovery/Thoughts/Spoken.antt =====
-- split_thought of recovery.py on an answer of spoken passages and closed blocks of private reasoning.
use Prim.Native.Char.{Char}
use Prim.Native.String.{String, [], ◌∷◌, ◌++◌, count}
use mathlib.Core.Option.{none, some}
use text.Mathlib.TextLemmas.{nil-append, cons-append, length-cons}
use meetings.Prelude.{ℕ, zero, suc, ◌+◌, ◌-◌, ◌≡◌, refl, ap, ◌∙◌, false, List, All, arith, nat_eq}
use meetings.Text.{strip, after_prefix, contains}
use meetings.Orchestration.Recovery.Thoughts.{
  after_open, after_close, until_close, match_thought, match_length, without_thoughts, before_open,
  split_thought,
}

-- A passage of an answer.
pub data Passage : Type 0 where
  aloud : String → Passage
  private : String → Passage

-- The passage holds no "<".
abbrev pub IsPlain : Passage → Type 0
IsPlain (aloud s) = contains "<" s ≡ false
IsPlain (private s) = contains "<" s ≡ false

open_tag : String → String
open_tag s = "<" ∷ "t" ∷ "h" ∷ "o" ∷ "u" ∷ "g" ∷ "h" ∷ "t" ∷ ">" ∷ s

close_tag : String → String
close_tag s = "<" ∷ "/" ∷ "t" ∷ "h" ∷ "o" ∷ "u" ∷ "g" ∷ "h" ∷ "t" ∷ ">" ∷ s

-- The answer, with each private passage between <thought> and </thought>.
pub written : List Passage → String
unfolding open_tag close_tag
written List.[] = []
written (List.◌∷◌ (aloud s) ps) = s ++ written ps
written (List.◌∷◌ (private s) ps) = open_tag (s ++ close_tag (written ps))

-- What is said aloud.
pub heard_aloud : List Passage → String
heard_aloud List.[] = []
heard_aloud (List.◌∷◌ (aloud s) ps) = s ++ heard_aloud ps
heard_aloud (List.◌∷◌ (private s) ps) = heard_aloud ps

-- The text is so many characters and the rest.
data IsAhead (r : String) : ℕ → String → Type 0 where
  at : IsAhead r zero r
  more : {n : ℕ} {c : Char} {s : String} → IsAhead r n s → IsAhead r (suc n) (c ∷ s)

IsAhead-count : {r s : String} {n : ℕ} → IsAhead r n s → count s ≡ n + count r
IsAhead-count at = ground arith
IsAhead-count (more {n} {c} {s} a) = ground (arith, length-cons c s, IsAhead-count a)

IsAhead-skip : {r s : String} {n : ℕ} → IsAhead r n s → without_thoughts n s ≡ without_thoughts 0 r
unfolding without_thoughts
IsAhead-skip at = refl
IsAhead-skip (more a) = IsAhead-skip a

-- A text without "<" before a text.
plain-IsAhead : (t : String) {r s : String} {n : ℕ} → IsAhead r n s → (m : ℕ) × IsAhead r m (t ++ s)
plain-IsAhead [] {r} {s} {n} a = (n, rw (nil-append s) a)
plain-IsAhead (c ∷ t) {r} {s} {n} a =
    let (m, b) = plain-IsAhead t a in (suc m, rw (cons-append c t s) (more b))

plain_open : (c : Char) (t s : String) → contains "<" (c ∷ t) ≡ false → after_open (c ∷ s) ≡ none
unfolding contains after_prefix after_open
plain_open c t s h = ground (arith, h)

plain_close : (c : Char) (t s : String) → contains "<" (c ∷ t) ≡ false → after_close (c ∷ s) ≡ none
unfolding contains after_prefix after_close
plain_close c t s h = ground (arith, h)

plain_tail : (c : Char) (t : String) → contains "<" (c ∷ t) ≡ false → contains "<" t ≡ false
unfolding contains
plain_tail c t h = ground (arith, h)

plain-without_thoughts :
    (t s : String)
    → contains "<" t ≡ false
    → without_thoughts 0 (t ++ s) ≡ t ++ without_thoughts 0 s
unfolding without_thoughts match_length match_thought
plain-without_thoughts [] s h =
    ap (without_thoughts 0) (nil-append s) ∙ rw (nil-append (without_thoughts 0 s)) refl
plain-without_thoughts (c ∷ t) s h =
    rw
      (
        cons-append c t s,
        cons-append c t (without_thoughts 0 s),
        without_thoughts,
        match_length,
        match_thought,
        plain_open c t (t ++ s) h,
      )
      (ap (λ x. c ∷ x) (plain-without_thoughts t s (plain_tail c t h)))

plain-before_open :
    (t s : String) → contains "<" t ≡ false → before_open (t ++ s) ≡ t ++ before_open s
unfolding before_open
plain-before_open [] s h = ap before_open (nil-append s) ∙ rw (nil-append (before_open s)) refl
plain-before_open (c ∷ t) s h =
    rw (cons-append c t s, cons-append c t (before_open s), before_open, plain_open c t (t ++ s) h)
      (ap (λ x. c ∷ x) (plain-before_open t s (plain_tail c t h)))

plain-until_close :
    (t r : String) → contains "<" t ≡ false → until_close (t ++ close_tag r) ≡ some (t, r)
unfolding until_close close_tag after_close after_prefix
plain-until_close [] r h = rw (nil-append (close_tag r)) refl
plain-until_close (c ∷ t) r h =
    rw
      (
        cons-append c t (close_tag r),
        until_close,
        plain_close c t (t ++ close_tag r) h,
        plain-until_close t r (plain_tail c t h),
      )
      refl

positive : (n : ℕ) → nat_eq (suc n) 0 ≡ false
positive n = ground arith

one_less : (n : ℕ) → suc n - 1 ≡ n
one_less n = ground arith

matched :
    (c : Char) (s r : String) (n : ℕ)
    → match_length (c ∷ s) ≡ suc n
    → IsAhead r n s
    → without_thoughts 0 (c ∷ s) ≡ without_thoughts 0 r
unfolding without_thoughts
matched c s r n e a = rw (without_thoughts, e, positive n, one_less n) (IsAhead-skip a)

length_of_match :
    (c : Char) (s t r : String) (n : ℕ)
    → match_thought (c ∷ s) ≡ some (t, r)
    → IsAhead r n s
    → match_length (c ∷ s) ≡ suc n
unfolding match_length
length_of_match c s t r n e a =
    rw (match_length, e) (ground (arith, length-cons c s, IsAhead-count a))

opened-match :
    (t r : String)
    → contains "<" t ≡ false
    → match_thought (open_tag (t ++ close_tag r)) ≡ some (t, r)
unfolding match_thought after_open after_prefix open_tag
opened-match t r h = plain-until_close t r h

IsAhead-close : (r : String) → (n : ℕ) × IsAhead r n (close_tag r)
unfolding close_tag
IsAhead-close r = (_, more (more (more (more (more (more (more (more (more (more at))))))))))

private-without_thoughts :
    (t r : String)
    → contains "<" t ≡ false
    → without_thoughts 0 (open_tag (t ++ close_tag r)) ≡ without_thoughts 0 r
unfolding open_tag
private-without_thoughts t r h =
    let (m, a) = plain-IsAhead t (IsAhead-close r).1 in
    let b = more (more (more (more (more (more (more (more a))))))) in
    matched "<" _ r _ (length_of_match "<" _ t r _ (opened-match t r h) b) b

written-without_thoughts :
    (ps : List Passage) → All IsPlain ps → without_thoughts 0 (written ps) ≡ heard_aloud ps
unfolding written heard_aloud without_thoughts
written-without_thoughts List.[] h = refl
written-without_thoughts (List.◌∷◌ (aloud s) ps) h =
    plain-without_thoughts s (written ps) h.0 ∙ ap (λ x. s ++ x) (written-without_thoughts ps h.1)
written-without_thoughts (List.◌∷◌ (private s) ps) h =
    private-without_thoughts s (written ps) h.0 ∙ written-without_thoughts ps h.1

heard-before_open :
    (ps : List Passage) → All IsPlain ps → before_open (heard_aloud ps) ≡ heard_aloud ps
unfolding heard_aloud before_open
heard-before_open List.[] h = refl
heard-before_open (List.◌∷◌ (aloud s) ps) h =
    plain-before_open s (heard_aloud ps) h.0 ∙ ap (λ x. s ++ x) (heard-before_open ps h.1)
heard-before_open (List.◌∷◌ (private s) ps) h = heard-before_open ps h.1

-- Of an answer of passages without "<", what is said aloud is published and nothing else, but for the
-- blanks around it.
pub split_thought-heard_aloud :
    (ps : List Passage) → All IsPlain ps → (split_thought (written ps)).0 ≡ strip (heard_aloud ps)
unfolding split_thought
split_thought-heard_aloud ps h =
    ap (λ s. strip (before_open s)) (written-without_thoughts ps h)
    ∙ ap strip (heard-before_open ps h)
