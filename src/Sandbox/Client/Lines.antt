-- ===== src/Sandbox/Client/Lines.antt =====
-- A reader of lines that splits at two of the boundaries of str.splitlines, as an example of what
-- client.py takes from httpx.
use Prim.Native.Char.{code}
use Prim.Native.String.{String, [], ◌∷◌, ◌++◌}
use text.Mathlib.TextLemmas.{nil-append, cons-append}
use meetings.Prelude.{ℕ, ◌≤◌, ◌<◌, ◌≡◌, refl, Bool, false, ◌||◌, List, arith, nat_eq, if◌then◌else◌}
use meetings.Text.{push_first}
use meetings.Sandbox.Client.{any_code, line_feed, Httpx}

-- The lines of a text that ends in a boundary, for two of the boundaries of str.splitlines.
abbrev pub breaks_line : ℕ → Bool
breaks_line c = nat_eq c 10 || nat_eq c 8232

unfoldable pub split_lines : String → List String
split_lines [] = List.[]
split_lines (c ∷ s) =
    let rest = split_lines s in if breaks_line (code c) then List.◌∷◌ [] rest else push_first c rest

pub split_first :
    (s rest : String)
    → any_code breaks_line s ≡ false
    → split_lines (s ++ (line_feed ++ rest)) ≡ List.◌∷◌ s (split_lines rest)
unfolding split_lines any_code
split_first [] rest h =
    rw (nil-append (line_feed ++ rest), cons-append "\n" [] rest, nil-append rest) refl
split_first (c ∷ s) rest h =
    rw (cons-append c s (line_feed ++ rest)) (ground (arith, h, split_first s rest))

pub line_printable : (c : ℕ) → 32 ≤ c → c < 127 → breaks_line c ≡ false
line_printable c low high = ground arith

pub no_lines : split_lines [] ≡ List.[]
unfolding split_lines
no_lines = refl

abbrev pub httpx : Httpx
httpx = record {
  is_boundary = breaks_line;
  lines = split_lines;
  status_error = λ n. "status";
  printable = line_printable;
  no_lines = no_lines;
  first_line = split_first;
}
