-- ===== src/Orchestration/Recovery/Thoughts.antt =====
-- Private reasoning in a model's answer (recovery.py of backend/app/orchestration and of the sandbox):
-- as_text, split_thought and strip_speaker_prefix. A regular expression's search from left to right
-- is structural recursion on the text: `skip` counts the characters of a match that are left to pass.
pub mod Public
pub mod Spoken
mod Tests
use Prim.Native.String.{String, [], ◌∷◌, ◌++◌, count}
use mathlib.Core.Option.{Option, none, some}
use meetings.Prelude.{ℕ, zero, suc, ◌+◌, ◌-◌, ◌==◌, Bool, true, false, List, if◌then◌else◌, nat_eq}
use meetings.Text.{strip, lstrip, after_prefix, is_some, join, is_space}
use Prim.Native.Char.{code}

-- A block of a message's content: a str, a mapping with a text, or anything else.
pub data Block : Type 0 where
  bare : String → Block
  texted : String → Block
  opaque : Block

-- The content of a message: None, a str, a list of blocks, or another object with its str().
pub data Content : Type 0 where
  absent : Content
  flat : String → Content
  blocks : List Block → Content
  object : String → Content

block_text : Block → String
block_text (bare s) = s
block_text (texted s) = s
block_text opaque = ""

join_blocks : List Block → String
unfolding block_text
join_blocks List.[] = []
join_blocks (List.◌∷◌ b bs) = block_text b ++ join_blocks bs

unfoldable pub as_text : Content → String
unfolding join_blocks
as_text absent = ""
as_text (flat s) = s
as_text (blocks bs) = join_blocks bs
as_text (object s) = s

abbrev or_else : Option String → Option String → Option String
or_else (some rest) other = some rest
or_else none other = other

unfoldable pub after_open : String → Option String
unfolding after_prefix
after_open s = or_else (after_prefix "<thought>" s) (after_prefix "<thinking>" s)

unfoldable pub after_close : String → Option String
unfolding after_prefix
after_close s = or_else (after_prefix "</thought>" s) (after_prefix "</thinking>" s)

-- What stands before the first closing tag, and after it.
unfoldable pub until_close : String → Option (String × String)
unfolding after_close
until_close [] = none
until_close (c ∷ s) = elim (after_close (c ∷ s)) [
  | some rest ↦ some ([], rest)
  | none ↦ elim (until_close s) [ none ↦ none | some (inside, rest) ↦ some (c ∷ inside, rest) ]
]

-- _THOUGHT_RE.match(s): its group, and what follows the match.
unfoldable pub match_thought : String → Option (String × String)
unfolding after_open until_close
match_thought s = elim (after_open s) [ none ↦ none | some body ↦ until_close body ]

-- The length of the match at the start of the text, 0 without one.
unfoldable pub match_length : String → ℕ
unfolding match_thought
match_length s = elim (match_thought s) [ none ↦ 0 | some (inside, rest) ↦ count s - count rest ]

-- _THOUGHT_RE.sub("", s)
unfoldable pub without_thoughts : ℕ → String → String
unfolding match_length
without_thoughts skip [] = []
without_thoughts (suc skip) (c ∷ s) = without_thoughts skip s
without_thoughts zero (c ∷ s) =
    let n = match_length (c ∷ s) in
    let rest = without_thoughts (n - 1) s in if nat_eq n 0 then c ∷ rest else rest

add_group : Option (String × String) → List String → List String
add_group none rest = rest
add_group (some (inside, after)) rest = List.◌∷◌ inside rest

-- _THOUGHT_RE.findall(s)
unfoldable pub find_thoughts : ℕ → String → List String
unfolding add_group match_length match_thought
find_thoughts skip [] = List.[]
find_thoughts (suc skip) (c ∷ s) = find_thoughts skip s
find_thoughts zero (c ∷ s) =
    let n = match_length (c ∷ s) in add_group (match_thought (c ∷ s)) (find_thoughts (n - 1) s)

-- public[:unclosed.start()], or all of it without an opening tag
unfoldable pub before_open : String → String
unfolding after_open
before_open [] = []
before_open (c ∷ s) =
    let rest = c ∷ before_open s in if is_some (after_open (c ∷ s)) then [] else rest

-- _UNCLOSED_THOUGHT_RE.search(public).group(1)
unfoldable pub unclosed : String → Option String
unfolding after_open
unclosed [] = none
unclosed (c ∷ s) = elim (after_open (c ∷ s)) [ none ↦ unclosed s | some body ↦ some body ]

add_unclosed : Option String → List String
add_unclosed none = List.[]
add_unclosed (some body) = List.◌∷◌ body List.[]

-- [t.strip() for t in thoughts if t.strip()]
stripped : List String → List String
unfolding strip
stripped List.[] = List.[]
stripped (List.◌∷◌ t ts) =
    let rest = stripped ts in if strip t == "" then rest else List.◌∷◌ (strip t) rest

append : List String → List String → List String
append List.[] ts = ts
append (List.◌∷◌ x xs) ts = List.◌∷◌ x (append xs ts)

unfoldable pub split_thought : String → String × String
unfolding without_thoughts find_thoughts before_open unclosed add_unclosed stripped append strip
    join
split_thought content =
    let public = without_thoughts 0 content in
    (
      strip (before_open public),
      join "\n\n" (stripped (append (find_thoughts 0 content) (add_unclosed (unclosed public)))),
    )

-- The text after the first "]", if no line break stands before it.
unfoldable pub after_bracket : String → Option String
after_bracket [] = none
after_bracket (c ∷ s) =
    let rest = after_bracket s in
    if nat_eq (code c) 93 then some s else if nat_eq (code c) 10 then none else rest

unfoldable pub drop_tag : String → String
unfolding after_bracket lstrip
drop_tag [] = []
drop_tag (c ∷ s) =
    if nat_eq (code c) 91
    then elim (after_bracket s) [ none ↦ c ∷ s | some rest ↦ lstrip rest ]
    else c ∷ s

unfoldable pub strip_speaker_prefix : String → String
unfolding drop_tag strip
strip_speaker_prefix content = strip (drop_tag content)
