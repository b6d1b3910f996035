-- ===== src/Text/Substrings.antt =====
-- Text: a text that does not contain another still does not contain it after it is stripped.
use Prim.Native.Char.{Char, code}
use Prim.Native.String.{String, [], ◌∷◌}
use meetings.Prelude.{◌≡◌, refl, true, false, arith, if_cases}
use meetings.Text.{
  strip, lstrip, rstrip, push_unless_blank, after_prefix, contains, is_some, is_space,
}

pub contains_tail :
    (p : String) (c : Char) (s : String) → contains p (c ∷ s) ≡ false → contains p s ≡ false
unfolding contains
contains_tail p c s h = ground arith

pub contains-lstrip : (p s : String) → contains p s ≡ false → contains p (lstrip s) ≡ false
unfolding lstrip
contains-lstrip p [] h = h
contains-lstrip p (c ∷ s) h =
    if_cases (λ t. contains p t ≡ false) (is_space (code c))
      (λ _. contains-lstrip p s (contains_tail p c s h)) (λ _. h)

-- Being a prefix is reflexive and transitive.
after_prefix_refl : (s : String) → is_some (after_prefix s s) ≡ true
unfolding after_prefix
after_prefix_refl [] = refl
after_prefix_refl (c ∷ s) = ground (arith, after_prefix_refl s)

after_prefix_trans :
    (p t s : String)
    → is_some (after_prefix p t) ≡ true
    → is_some (after_prefix t s) ≡ true
    → is_some (after_prefix p s) ≡ true
unfolding after_prefix
after_prefix_trans [] t s h k = refl
after_prefix_trans (c ∷ p) [] s h k = absurd (cc)
after_prefix_trans (c ∷ p) (d ∷ t) [] h k = absurd (cc)
after_prefix_trans (c ∷ p) (d ∷ t) (e ∷ s) h k = ground (arith, after_prefix_trans p t s)

-- Nothing begins at the front of a prefix that does not begin at the front of the text.
pub not_prefix :
    (p t s : String)
    → is_some (after_prefix t s) ≡ true
    → is_some (after_prefix p s) ≡ false
    → is_some (after_prefix p t) ≡ false
not_prefix p t s h n = ground (arith, after_prefix_trans p t s, h, n)

pub contains_cons :
    (p : String) (c : Char) (s : String)
    → is_some (after_prefix p (c ∷ s)) ≡ false
    → contains p s ≡ false
    → contains p (c ∷ s) ≡ false
unfolding contains
contains_cons p c s h k = ground (arith, h, k)

-- A prefix of a text contains nothing that the text does not contain.
pub contains_prefix :
    (p t s : String)
    → is_some (after_prefix t s) ≡ true
    → contains p s ≡ false
    → contains p t ≡ false
unfolding contains after_prefix
contains_prefix p [] [] h n = n
contains_prefix p [] (d ∷ s) h n = not_prefix p [] (d ∷ s) refl (ground (arith, n))
contains_prefix p (c ∷ t) [] h n = absurd (cc)
contains_prefix p (c ∷ t) (d ∷ s) h n =
    contains_cons p c t (not_prefix p (c ∷ t) (d ∷ s) h (ground (arith, n)))
      (contains_prefix p t s (ground (arith, h)) (contains_tail p d s n))

push_prefix :
    (c : Char) (t s : String)
    → is_some (after_prefix t s) ≡ true
    → is_some (after_prefix (push_unless_blank c t) (c ∷ s)) ≡ true
unfolding after_prefix
push_prefix c [] s h =
    if_cases (λ u. is_some (after_prefix u (c ∷ s)) ≡ true) (is_space (code c)) (λ _. refl)
      (λ _. ground arith)
push_prefix c (d ∷ t) s h = ground (arith, h)

rstrip_prefix : (s : String) → is_some (after_prefix (rstrip s) s) ≡ true
unfolding rstrip
rstrip_prefix [] = ground (arith, after_prefix_refl [])
rstrip_prefix (c ∷ s) = push_prefix c (rstrip s) s (rstrip_prefix s)

pub contains-strip : (p s : String) → contains p s ≡ false → contains p (strip s) ≡ false
unfolding strip
contains-strip p s h =
    contains_prefix p (rstrip (lstrip s)) (lstrip s) (rstrip_prefix (lstrip s))
      (contains-lstrip p s h)
