-- ===== src/Orchestration/Graph/Validation.antt =====
-- validate_attendee_profiles (graph.py) against the profiles that the nodes resolve (agents.py).
use meetings.Prelude.{
  String, ◌≡◌, refl, false, none, some, List, [], ◌∷◌, arith, inl, inr, ◌⊎◌, ◌==◌, Bool-cases,
  if◌then◌else◌, subst,
}
use meetings.Dict.{Dict, get, string_eq}
use meetings.Profiles.{Profile, DriftError, Resolved, ok, drift, resolve}
use meetings.Orchestration.State.{Role}
use meetings.Orchestration.Graph.{
  valid, add_role, resolve_all, validated, validate_attendee_profiles,
}

-- One attendee is added and there is still no problem.
add_role-resolves :
    (id j : String) (r role : Role) (x : Resolved)
    (acc : Dict String String × List (Role × DriftError))
    → resolve r.default_tools ≡ x
    → (add_role j r x acc).1 ≡ []
    → (if j == id then some r else none) ≡ some role
      ⊎ ((j == id) ≡ false)
        × (acc.1 ≡ []
            → (p : Profile) × (resolve role.default_tools ≡ ok p) × (get id acc.0 ≡ some p.name))
    → (p : Profile) × (resolve role.default_tools ≡ ok p)
      × (get id (add_role j r x acc).0 ≡ some p.name)
unfolding add_role get
add_role-resolves id j r role (drift d) acc e h c = absurd (cc)
add_role-resolves id j r role (ok p) acc e h (inl g) = (p, ground (arith, g, e), ground (arith, g))
add_role-resolves id j r role (ok p) acc e h (inr (n, rest)) =
    let (q, f, g) = rest h in (q, f, ground (arith, n, g))

-- No problem was found: every attendee got a profile.
no_problems :
    (attendees : Dict String Role)
    → (resolve_all attendees).1 ≡ []
    → (id : String) (role : Role) → get id attendees ≡ some role
    → (p : Profile) × (resolve role.default_tools ≡ ok p)
      × (get id (resolve_all attendees).0 ≡ some p.name)
unfolding resolve_all get
no_problems [] h id role g = absurd (cc)
no_problems ((j, r) ∷ attendees) h id role g =
    add_role-resolves id j r role (resolve r.default_tools) (resolve_all attendees) refl h
      (elim (Bool-cases (j == id)) [
        | inl y ↦ inl (ground (arith, y, g))
        | inr n ↦ inr (n, λ e. no_problems attendees e id role (ground (arith, n, g)))
      ])

validated-valid :
    (r : Dict String String × List (Role × DriftError)) (names : Dict String String)
    → validated r ≡ valid names
    → (r.1 ≡ []) × (r.0 ≡ names)
unfolding validated
validated-valid (d, []) names e = (refl, cc)
validated-valid (d, x ∷ l) names e = absurd (cc)

-- When the check before a meeting passes, every attendee's tools resolve to a profile, so that no
-- attendee's node raises ProfileDriftError later, and the profile it runs as is the one that the
-- check returned for it.
pub validate_attendee_profiles-resolve :
    (attendees : Dict String Role) (names : Dict String String) (id : String) (role : Role)
    → validate_attendee_profiles attendees ≡ valid names
    → get id attendees ≡ some role
    → (p : Profile) × (resolve role.default_tools ≡ ok p) × (get id names ≡ some p.name)
unfolding validate_attendee_profiles
validate_attendee_profiles-resolve attendees names id role v g =
    let (none_found, same) = validated-valid (resolve_all attendees) names v in
    subst (λ d. (p : Profile) × (resolve role.default_tools ≡ ok p) × (get id d ≡ some p.name)) same
      (no_problems attendees none_found id role g)
