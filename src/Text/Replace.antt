-- ===== src/Text/Replace.antt =====
-- Python's str.replace, and str.lstrip with a set of characters.
use Prim.Native.Char.{code}
use Prim.Native.String.{String, [], ◌∷◌, ◌++◌, count}
use meetings.Prelude.{
  ℕ, zero, suc, ◌-◌, ◌≡◌, refl, false, ◌||◌, ◌&&◌, ◌==◌, arith, if◌then◌else◌, nat_eq,
}
use meetings.Text.{after_prefix, is_some, contains}

-- Replaces from left to right; `skip` counts the characters of an occurrence that are left to pass.
unfoldable pub replace_from : String → String → ℕ → String → String
unfolding after_prefix
replace_from old new skip [] = []
replace_from old new (suc skip) (c ∷ s) = replace_from old new skip s
replace_from old new zero (c ∷ s) =
    let found = is_some (after_prefix old (c ∷ s)) in
    let rest = replace_from old new (if found then count old - 1 else 0) s in
    if found then new ++ rest else c ∷ rest

-- s.replace(old, new), for an old that is not empty
unfoldable pub replace : String → String → String → String
unfolding replace_from
replace old new s = replace_from old new 0 s

-- s.lstrip(": ")
unfoldable pub lstrip_colon : String → String
lstrip_colon [] = []
lstrip_colon (c ∷ s) =
    let rest = lstrip_colon s in if nat_eq (code c) 58 || nat_eq (code c) 32 then rest else c ∷ s

-- s.rstrip(";")
unfoldable pub rstrip_semicolons : String → String
rstrip_semicolons [] = []
rstrip_semicolons (c ∷ s) =
    let rest = rstrip_semicolons s in if nat_eq (code c) 59 && rest == "" then [] else c ∷ rest

-- s.lstrip("/")
unfoldable pub lstrip_slash : String → String
lstrip_slash [] = []
lstrip_slash (c ∷ s) = let rest = lstrip_slash s in if nat_eq (code c) 47 then rest else c ∷ s

-- s.rstrip("/")
unfoldable pub rstrip_slash : String → String
rstrip_slash [] = []
rstrip_slash (c ∷ s) =
    let rest = rstrip_slash s in if nat_eq (code c) 47 && rest == "" then [] else c ∷ rest

pub replace_absent : (old new s : String) → contains old s ≡ false → replace old new s ≡ s
unfolding replace replace_from contains
replace_absent old new [] h = refl
replace_absent old new (c ∷ s) h = ground (arith, h, replace_absent old new s)
