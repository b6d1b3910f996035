-- ===== src/Runtime/Cache.antt =====
-- sandbox/runtime/runtime/idempotency.py: TurnCache, an OrderedDict with its oldest entry first.
use meetings.Prelude.{
  ℕ, suc, ◌≤◌, String, ◌≡◌, refl, eq_refl, false, Option, none, some, [], ◌∷◌, ◌++◌, length, leb,
  leb→le, if◌then◌else◌, arith, Bool-cases, inl, inr,
}
use meetings.Dict.{Dict, get, remove, has_key, string_eq}
use meetings.Orchestration.Agents.{TurnResult}

abbrev pub Entries : Type 0
Entries = Dict String TurnResult

-- move_to_end, with the value that the key has
to_end : String → TurnResult → Entries → Entries
to_end key r entries = remove key entries ++ (key, r) ∷ []

-- while len(self._entries) > self._max: self._entries.popitem(last=False)
trim : ℕ → Entries → Entries
trim max [] = []
trim max (e ∷ entries) =
    let rest = trim max entries in if leb (suc (length entries)) max then e ∷ entries else rest

-- TurnCache.get: the result, and the entries in their new order
unfoldable pub cache_get : String → Entries → Option TurnResult × Entries
unfolding to_end
cache_get key entries = elim (get key entries) [
  | none ↦ (none, entries)
  | some r ↦ (some r, to_end key r entries)
]

-- TurnCache.put
unfoldable pub cache_put : ℕ → String → TurnResult → Entries → Entries
unfolding to_end trim
cache_put max key r entries = trim max (to_end key r entries)

abbrev pub max_entries : ℕ
max_entries = 64

length-trim : (max : ℕ) (entries : Entries) → length (trim max entries) ≤ max
unfolding trim
length-trim max [] = ground arith
length-trim max (e ∷ entries) = elim (Bool-cases (leb (suc (length entries)) max)) [
  | inl y ↦ rw y (leb→le (suc (length entries)) max y)
  | inr n ↦ rw n (length-trim max entries)
]

-- The cache never holds more entries than its bound, whatever it held before.
pub length-cache_put :
    (max : ℕ) (key : String) (r : TurnResult) (entries : Entries)
    → length (cache_put max key r entries) ≤ max
unfolding cache_put
length-cache_put max key r entries = length-trim max (to_end key r entries)

get-append_last :
    (key : String) (r : TurnResult) (entries : Entries)
    → has_key key entries ≡ false
    → get key (entries ++ (key, r) ∷ []) ≡ some r
unfolding get has_key
get-append_last key r [] h = ground (arith, eq_refl key)
get-append_last key r ((j, x) ∷ entries) h = ground (arith, h, get-append_last key r entries)

get-trim_last :
    (max : ℕ) (key : String) (r : TurnResult) (entries : Entries)
    → has_key key entries ≡ false
    → 1 ≤ max
    → get key (trim max (entries ++ (key, r) ∷ [])) ≡ some r
unfolding trim get has_key
get-trim_last max key r [] h m = ground (arith, m, eq_refl key)
get-trim_last max key r ((j, x) ∷ entries) h m =
    let bound = leb (suc (length (entries ++ (key, r) ∷ []))) max in
    elim (Bool-cases bound) [
      | inl y ↦ rw y (get-append_last key r ((j, x) ∷ entries) h)
      | inr n ↦ rw n (get-trim_last max key r entries (ground (arith, h)) m)
    ]

removed_key : (key : String) (entries : Entries) → has_key key (remove key entries) ≡ false
unfolding remove has_key
removed_key key [] = refl
removed_key key ((j, x) ∷ entries) = ground (arith, removed_key key entries)

-- A cache with room for an entry gives back what was put last.
pub cache_get-cache_put :
    (max : ℕ) (key : String) (r : TurnResult) (entries : Entries)
    → 1 ≤ max
    → (cache_get key (cache_put max key r entries)).0 ≡ some r
unfolding cache_get cache_put to_end
cache_get-cache_put max key r entries m =
    rw (cache_get, get-trim_last max key r (remove key entries) (removed_key key entries) m) refl
