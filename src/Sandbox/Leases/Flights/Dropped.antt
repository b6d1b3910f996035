-- ===== src/Sandbox/Leases/Flights/Dropped.antt =====
-- What the tables of SandboxManager's methods in flight (manager.py) keep when an entry leaves them.
use meetings.Prelude.{
  String, ◌≡◌, refl, ◌==◌, eq_iff, true, false, not, ◌||◌, some, List, [], ◌∷◌, map, filter, elem,
  arith, Bool-cases, inl, inr,
}
use meetings.Dict.{Dict, get, has_key, pair_eq, pair_beq, pair_beq_iff, HasUniqueKeys}
use meetings.Sandbox.Leases.{Leases}
use meetings.Sandbox.Leases.Accounting as Held
use meetings.Sandbox.Leases.Flights.{drop_first, drop_claim}

pub drop_first-has_key :
    (k j : String × String) (d : Dict (String × String) String)
    → has_key j (drop_first k d) ≡ true
    → has_key j d ≡ true
unfolding drop_first has_key
drop_first-has_key k j [] h = h
drop_first-has_key k j ((i, p) ∷ d) h = ground (arith, h, drop_first-has_key k j d)

pub drop_first_absent :
    (k : String × String) (d : Dict (String × String) String)
    → HasUniqueKeys d
    → has_key k (drop_first k d) ≡ false
unfolding drop_first has_key
drop_first_absent k [] u = refl
drop_first_absent k ((i, p) ∷ d) u =
    ground (arith, pair_beq_iff i k, drop_first_absent k d u.1, u.0)

pub drop_first-HasUniqueKeys :
    (k : String × String) (d : Dict (String × String) String)
    → HasUniqueKeys d
    → HasUniqueKeys (drop_first k d)
unfolding drop_first
drop_first-HasUniqueKeys k [] u = tt
drop_first-HasUniqueKeys k ((i, p) ∷ d) u = elim (Bool-cases (pair_beq i k)) [
  | inl y ↦ rw y (u.1)
  | inr n ↦ rw n (other, drop_first-HasUniqueKeys k d u.1)
]
  where
    other : has_key i (drop_first k d) ≡ false
    other = elim (Bool-cases (has_key i (drop_first k d))) [
      | inl y ↦ ground (arith, u.0, drop_first-has_key k i d y)
      | inr n ↦ n
    ]

pub get_of_has_key :
    (k : String × String) (p : String) (d : Dict (String × String) String)
    → get k d ≡ some p
    → has_key k d ≡ true
unfolding get has_key
get_of_has_key k p [] e = absurd (cc)
get_of_has_key k p ((i, x) ∷ d) e = ground (arith, e, get_of_has_key k p d)

abbrev pub released_claims : String → Leases → List String
released_claims meeting_id d =
    map (λ e. e.1.handle.claim_name) (filter (λ e. e.0.0 == meeting_id) d)

pub released_or_kept :
    (meeting_id c : String) (d : Leases)
    → elem c (Held.claims d) ≡ (
        elem c (released_claims meeting_id d)
        || elem c (Held.claims (filter (λ e. not (e.0.0 == meeting_id)) d)))
released_or_kept meeting_id c [] = refl
released_or_kept meeting_id c (((x, y), l) ∷ d) = ground (arith, released_or_kept meeting_id c d)

pub elem-drop_claim :
    (c claim : String) (cs : List String)
    → (c == claim) ≡ false
    → elem c (drop_claim claim cs) ≡ elem c cs
unfolding drop_claim
elem-drop_claim c claim [] n = refl
elem-drop_claim c claim (d ∷ cs) n =
    ground (arith, n, eq_iff c d, eq_iff d claim, elem-drop_claim c claim cs n)
