-- ===== src/ExecPython/Bounded.antt =====
-- What is kept of a text that is cut to its first characters.
use Prim.Native.String.{String, [], ◌∷◌, count}
use meetings.Prelude.{ℕ, zero, suc, ◌≤◌, ◌≡◌, refl, true, arith}
use text.Mathlib.TextLemmas.{length-cons, length-nil}
use meetings.Text.{take_text, after_prefix, is_some}

-- At most so many characters, which the text begins with, and all of it if it has no more.
pub record IsCut (n : ℕ) (text cut : String) : Type 0 where
  pub bounded : count cut ≤ n
  pub begins : is_some (after_prefix cut text) ≡ true
  pub whole : count text ≤ n → cut ≡ text

pub take_text-IsCut : (n : ℕ) (text : String) → IsCut n text (take_text n text)
unfolding take_text after_prefix
take_text-IsCut zero [] = record { bounded = omega arith; begins = refl; whole = λ h. refl }
take_text-IsCut zero (c ∷ s) = record {
  bounded = ground (arith, length-nil);
  begins = refl;
  whole = λ h. absurd (ground (arith, h, length-cons c s));
}
take_text-IsCut (suc n) [] = record {
  bounded = ground (arith, length-nil);
  begins = refl;
  whole = λ h. refl;
}
take_text-IsCut (suc n) (c ∷ s) =
    let t = take_text-IsCut n s in
    record {
      bounded = ground (arith, t.bounded, length-cons c (take_text n s));
      begins = ground (arith, t.begins);
      whole = λ h. ground (arith, h, length-cons c s, t.whole);
    }
