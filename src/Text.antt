-- ===== src/Text.antt =====
-- Python's text operations that the program uses, on code points: str.strip, `in`, removeprefix.
pub mod Substrings
pub mod Replace
use Prim.Native.Char.{Char, code}
use Prim.Native.String.{String, [], ◌∷◌, ◌++◌}
use mathlib.Core.Bool.{Bool, true, false, ◌&&◌, ◌||◌}
use mathlib.Core.Option.{Option, none, some}
use Prim.Native.Nat.{◌/◌, ◌%◌}
use meetings.Prelude.{ℕ, zero, suc, List, nat_eq, ltb, leb, if◌then◌else◌}

-- str.isspace, which is also `\s` of a text pattern.
unfoldable pub is_space : ℕ → Bool
is_space c =
    (leb 9 c && leb c 13)
    || ((leb 28 c && leb c 32)
        || (nat_eq c 133
            || (nat_eq c 160
                || (nat_eq c 5760
                    || ((leb 8192 c && leb c 8202)
                        || (nat_eq c 8232
                            || (nat_eq c 8233
                                || (nat_eq c 8239 || (nat_eq c 8287 || nat_eq c 12288)))))))))

-- s.lstrip()
unfoldable pub lstrip : String → String
lstrip [] = []
lstrip (c ∷ s) = let rest = lstrip s in if is_space (code c) then rest else c ∷ s

abbrev pub push_unless_blank : Char → String → String
push_unless_blank c [] = if is_space (code c) then [] else c ∷ []
push_unless_blank c (d ∷ s) = c ∷ d ∷ s

-- s.rstrip()
unfoldable pub rstrip : String → String
rstrip [] = []
rstrip (c ∷ s) = push_unless_blank c (rstrip s)

-- s.strip()
unfoldable pub strip : String → String
unfolding lstrip rstrip
strip s = rstrip (lstrip s)

-- What follows the prefix, if the text begins with it.
unfoldable pub after_prefix : String → String → Option String
after_prefix [] s = some s
after_prefix (c ∷ p) [] = none
after_prefix (c ∷ p) (d ∷ s) =
    let rest = after_prefix p s in if nat_eq (code c) (code d) then rest else none

abbrev pub is_some {ℓ} : {A : Type ℓ} → Option A → Bool
is_some none = false
is_some (some _) = true

-- needle in s
unfoldable pub contains : String → String → Bool
unfolding after_prefix
contains needle [] = is_some (after_prefix needle [])
contains needle (c ∷ s) = is_some (after_prefix needle (c ∷ s)) || contains needle s

-- s[:n]
unfoldable pub take_text : ℕ → String → String
take_text zero s = []
take_text (suc n) [] = []
take_text (suc n) (c ∷ s) = c ∷ take_text n s

-- sep.join(parts)
unfoldable pub join : String → List String → String
join sep List.[] = []
join sep (List.◌∷◌ s List.[]) = s
join sep (List.◌∷◌ s (List.◌∷◌ t rest)) = s ++ (sep ++ join sep (List.◌∷◌ t rest))

digit : ℕ → String
digit n =
    if nat_eq n 0
    then "0"
    else if nat_eq n 1
    then "1"
    else if nat_eq n 2
    then "2"
    else if nat_eq n 3
    then "3"
    else if nat_eq n 4
    then "4"
    else if nat_eq n 5
    then "5"
    else if nat_eq n 6
    then "6"
    else if nat_eq n 7
    then "7"
    else if nat_eq n 8
    then "8"
    else "9"

-- The decimal digits of a number below 10 ^ fuel, before an accumulator.
decimal_fuel : ℕ → ℕ → String → String
unfolding digit
decimal_fuel zero n acc = acc
decimal_fuel (suc f) n acc =
    let rest = decimal_fuel f (n / 10) (digit (n % 10) ++ acc) in
    if ltb n 10 then digit n ++ acc else rest

-- str(n)
unfoldable pub decimal : ℕ → String
unfolding decimal_fuel
decimal n = decimal_fuel (suc n) n []

-- A character before the first part.
abbrev pub push_first : Char → List String → List String
push_first c List.[] = List.◌∷◌ (c ∷ []) List.[]
push_first c (List.◌∷◌ part parts) = List.◌∷◌ (c ∷ part) parts

-- s.split(",")
unfoldable pub split_comma : String → List String
split_comma [] = List.◌∷◌ [] List.[]
split_comma (c ∷ s) =
    let rest = split_comma s in if nat_eq (code c) 44 then List.◌∷◌ [] rest else push_first c rest

-- s.split(c), for the code of one character
unfoldable pub split_on : ℕ → String → List String
split_on sep [] = List.◌∷◌ [] List.[]
split_on sep (c ∷ s) =
    let rest = split_on sep s in if nat_eq (code c) sep then List.◌∷◌ [] rest else push_first c rest

-- The first run of the characters that pass, at the front of the text.
unfoldable pub leading_run : (ℕ → Bool) → String → String
leading_run p [] = []
leading_run p (c ∷ s) = let rest = c ∷ leading_run p s in if p (code c) then rest else []

-- re.findall for a class of characters: the runs of the characters that pass. `inside` is whether
-- the character before passed.
unfoldable pub runs_from : (ℕ → Bool) → Bool → String → List String
unfolding leading_run
runs_from p inside [] = List.[]
runs_from p true (c ∷ s) = runs_from p (p (code c)) s
runs_from p false (c ∷ s) =
    let rest = runs_from p (p (code c)) s in
    if p (code c) then List.◌∷◌ (c ∷ leading_run p s) rest else rest

abbrev pub runs : (ℕ → Bool) → String → List String
runs p s = runs_from p false s
