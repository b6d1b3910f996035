-- ===== src/Profiles/Covering.antt =====
-- `resolve` of profiles.py as the search that it is: what is wanted, which profile covers it, and
-- the exact conditions of success and of drift.
use meetings.Prelude.{
  String, ◌↔◌, ◌≡◌, refl, inl, inr, Bool, true, false, not, eq_iff, Option, none, some, List, [],
  ◌∷◌, elem, subset, filter, find?, All, arith, elem-filter, elem-subset, Bool-cases, ap, ◌∙◌,
}
use meetings.Profiles.{
  Profile, Resolved, ok, drift, profiles, all_tools, covers, wanted_tools, resolve, resolve_wanted,
  resolve_known, or_drift, DriftError,
}

-- The chosen profile covers the request, and none before it in the list does.
pub data FirstCovering (w : List String) (p : Profile) : List Profile → Type 0 where
  here : {q : Profile} {qs : List Profile} → p ≡ q → covers w p ≡ true → FirstCovering w p (q ∷ qs)
  later :
      {q : Profile} {qs : List Profile}
      → covers w q ≡ false
      → FirstCovering w p qs
      → FirstCovering w p (q ∷ qs)

find-FirstCovering :
    (w : List String) (p : Profile) (qs : List Profile)
    → find? (covers w) qs ≡ some p
    → FirstCovering w p qs
find-FirstCovering w p [] h = absurd (cc)
find-FirstCovering w p (q ∷ qs) h = elim (Bool-cases (covers w q)) [
  | inl y ↦ here (ground (arith, h, y)) (ground (arith, h, y))
  | inr n ↦ later n (find-FirstCovering w p qs (ground (arith, h, n)))
]

find_none :
    (w : List String) (qs : List Profile)
    → find? (covers w) qs ≡ none
    → All (λ q. covers w q ≡ false) qs
find_none w [] h = tt
find_none w (q ∷ qs) h = elim (Bool-cases (covers w q)) [
  | inl y ↦ absurd (ground (arith, h, y))
  | inr n ↦ (n, find_none w qs (ground (arith, h, n)))
]

-- A tool that the catalogue does not know is in no profile.
unknown_nowhere :
    (t : String) → elem t all_tools ≡ false → All (λ p. elem t p.tools ≡ false) profiles
unknown_nowhere t h = ground arith

not_covered :
    (t : String) (w ts : List String) → elem t w ≡ true → elem t ts ≡ false → subset w ts ≡ false
not_covered t w ts m n = elim (Bool-cases (subset w ts)) [
  | inl y ↦ absurd (ground (arith, elem-subset t w ts y m))
  | inr e ↦ e
]

All-not_covered :
    (t : String) (w : List String) (ps : List Profile)
    → elem t w ≡ true
    → All (λ p. elem t p.tools ≡ false) ps
    → All (λ p. covers w p ≡ false) ps
All-not_covered t w [] m h = tt
All-not_covered t w (p ∷ ps) m h = (not_covered t w p.tools m h.0, All-not_covered t w ps m h.1)

abbrev is_unknown : String → Bool
is_unknown s = not (elem s all_tools)

elem_unknown :
    (t : String) (w u : List String)
    → filter is_unknown w ≡ t ∷ u
    → (elem t w ≡ true) × (elem t all_tools ≡ false)
elem_unknown t w u e = ground (arith, elem-filter t is_unknown w, ap (elem t) e, eq_iff t t)

module _ (w : List String) where
  or_drift-ok :
      (o : Option Profile) (p : Profile)
      → find? (covers w) profiles ≡ o
      → or_drift w o ≡ ok p
      → FirstCovering w p profiles
  unfolding or_drift
  or_drift-ok none p e h = absurd (cc)
  or_drift-ok (some q) p e h = find-FirstCovering w p profiles (e ∙ cc)

  or_drift-drift :
      (o : Option Profile) (x : DriftError)
      → find? (covers w) profiles ≡ o
      → or_drift w o ≡ drift x
      → All (λ q. covers w q ≡ false) profiles
  unfolding or_drift
  or_drift-drift none x e h = find_none w profiles e
  or_drift-drift (some q) x e h = absurd (cc)

  resolve_known-ok :
      (u : List String) (p : Profile) → resolve_known w u ≡ ok p → FirstCovering w p profiles
  unfolding resolve_known
  resolve_known-ok [] p h = or_drift-ok (find? (covers w) profiles) p refl h
  resolve_known-ok (t ∷ u) p h = absurd (cc)

  resolve_known-drift :
      (u : List String) (x : DriftError)
      → filter is_unknown w ≡ u
      → resolve_known w u ≡ drift x
      → All (λ q. covers w q ≡ false) profiles
  unfolding resolve_known
  resolve_known-drift [] x e h = or_drift-drift (find? (covers w) profiles) x refl h
  resolve_known-drift (t ∷ u) x e h =
      let (m, n) = elem_unknown t w u e in All-not_covered t w profiles m (unknown_nowhere t n)

resolve_wanted-ok :
    (w : List String) (p : Profile) → resolve_wanted w ≡ ok p → FirstCovering w p profiles
unfolding resolve_wanted
resolve_wanted-ok [] p h = here (ground (arith, h)) (ground (arith, h))
resolve_wanted-ok (t ∷ w) p h = resolve_known-ok (t ∷ w) (filter is_unknown (t ∷ w)) p h

resolve_wanted-drift :
    (w : List String) (x : DriftError)
    → resolve_wanted w ≡ drift x
    → All (λ q. covers w q ≡ false) profiles
unfolding resolve_wanted
resolve_wanted-drift [] x h = absurd (cc)
resolve_wanted-drift (t ∷ w) x h = resolve_known-drift (t ∷ w) (filter is_unknown (t ∷ w)) x refl h

-- Whenever resolution succeeds, the profile covers every tool asked for, and no profile that stands
-- before it in the catalogue does.
pub resolve-FirstCovering :
    (requested : Option (List String)) (p : Profile)
    → resolve requested ≡ ok p
    → FirstCovering (wanted_tools requested) p profiles
unfolding resolve
resolve-FirstCovering requested p h = resolve_wanted-ok (wanted_tools requested) p h

not-FirstCovering :
    (w : List String) (p : Profile) (qs : List Profile)
    → All (λ q. covers w q ≡ false) qs
    → ¬ FirstCovering w p qs
not-FirstCovering w p [] a f = elim f [ ]
not-FirstCovering w p (q ∷ qs) a (here e c) = ground (arith, e, c, a.0)
not-FirstCovering w p (q ∷ qs) a (later n f) = not-FirstCovering w p qs a.1 f

module _ (requested : Option (List String)) where
  must_drift :
      (r : Resolved)
      → resolve requested ≡ r
      → All (λ q. covers (wanted_tools requested) q ≡ false) profiles
      → (x : DriftError) × (resolve requested ≡ drift x)
  must_drift (ok p) e a = absurd (
      not-FirstCovering (wanted_tools requested) p profiles a (resolve-FirstCovering requested p e))
  must_drift (drift x) e a = (x, e)

  -- Resolution is refused exactly when no profile of the catalogue covers the tools asked for.
  pub resolve_drift_iff :
      ((x : DriftError) × (resolve requested ≡ drift x))
      ↔ All (λ q. covers (wanted_tools requested) q ≡ false) profiles
  unfolding resolve
  resolve_drift_iff = (
    λ h. resolve_wanted-drift (wanted_tools requested) h.0 h.1,
    λ a. must_drift (resolve requested) refl a,
  )
