-- ===== src/Orchestration/TurnCache/Lookup.antt =====
-- What turn_cache.lookup finds after turn_cache.record.
use meetings.Prelude.{
  String, ◌≡◌, refl, ◌==◌, eq_refl, Bool, true, false, not, ◌&&◌, ◌⊎◌, none, some, [], ◌∷◌, arith,
  if◌then◌else◌, Option-cases, Bool-cases, inl, inr,
}
use meetings.Dict.{Dict, get, put, get-put, has_key, string_eq}
use meetings.Orchestration.State.{Update}
use meetings.Orchestration.TurnCache.{
  Database, Table, Stored, rehydrate, lookup, record_turn, found,
}

pub lookup_found :
    (db : Database) (key : String) (table : Table) (st : Stored)
    → db.connected ≡ true
    → db.reads ≡ true
    → get key table ≡ some st
    → lookup db key table ≡ some (rehydrate st)
unfolding lookup found
lookup_found db key table st c r g = rw (c, r, g) refl

pub lookup_missing :
    (db : Database) (key : String) (table : Table)
    → db.connected ≡ true
    → db.reads ≡ true
    → lookup db key table ≡ none
    → get key table ≡ none
lookup_missing db key table c r h = elim (Option-cases (get key table)) [
  | inl n ↦ n
  | inr (st, g) ↦ absurd (ground (arith, h, lookup_found db key table st c r g))
]

-- What a lookup gives stands in the table.
pub lookup-get :
    (db : Database) (key : String) (table : Table) (u : Update)
    → lookup db key table ≡ some u
    → (st : Stored) × (get key table ≡ some st) × (rehydrate st ≡ u)
unfolding lookup found
lookup-get db key table u = elim (Bool-cases (db.connected && db.reads)) [
  | inl y ↦ rw y (elim (Option-cases (get key table)) [
    | inl n ↦ rw n none_found
    | inr (st, g) ↦ rw g (λ h. (st, refl, some_found st h))
  ])
  | inr n ↦ rw n (λ h. absurd (cc))
]
  where
    none_found : found none ≡ some u → (st : Stored) × (none ≡ some st) × (rehydrate st ≡ u)
    none_found h = absurd (cc)

    some_found : (st : Stored) → found (some st) ≡ some u → rehydrate st ≡ u
    some_found st h = ground (arith, h)

pub has_key_of_get {ℓ} :
    {V : Type ℓ} (k : String) (d : Dict String V) → get k d ≡ none → has_key k d ≡ false
unfolding get has_key
has_key_of_get k [] h = refl
has_key_of_get k ((j, v) ∷ d) h = ground (arith, has_key_of_get k d)

-- A key that was not there and is there after recording holds what was recorded.
pub record_turn-get :
    (db : Database) (key : String) (payload : Stored) (table : Table)
    → has_key key table ≡ false
    → has_key key (record_turn db key payload table) ≡ true
    → get key (record_turn db key payload table) ≡ some payload
unfolding record_turn
record_turn-get db key payload table n h =
    ground (arith, n, h, get-put key key payload table, eq_refl key)

-- What stands under a key after recording stood there before or was recorded.
pub record_turn-cases :
    (db : Database) (key j : String) (payload st : Stored) (table : Table)
    → get j (record_turn db key payload table) ≡ some st
    → (get j table ≡ some st) ⊎ (payload ≡ st)
unfolding record_turn
record_turn-cases db key j payload st table =
    elim (Bool-cases (db.connected && db.writes && not (has_key key table))) [
      | inl y ↦ rw y (put-cases (key == j) (get-put key j payload table))
      | inr n ↦ rw n inl
    ]
  where
    put-cases :
        (c : Bool)
        → get j (put key payload table) ≡ (if c then some payload else get j table)
        → get j (put key payload table) ≡ some st
        → (get j table ≡ some st) ⊎ (payload ≡ st)
    put-cases true e g = inr (ground (arith, e, g))
    put-cases false e g = inl (ground (arith, e, g))
