-- ===== src/Profiles/Tests.antt =====
-- Examples of the resolution of profiles (profiles.py).
use meetings.Prelude.{String, ◌≡◌, refl, false, Option, some, List, [], ◌∷◌, ◌↔◌, All}
use meetings.Profiles.{
  quant, run_python_analysis, ok, drift, DriftError, resolve, resolve_wanted, wanted_tools,
  resolve_known, or_drift, profiles, covers,
}
use meetings.Profiles.Covering.{resolve_drift_iff}

abbrev requested : Option (List String)
requested = some (run_python_analysis ∷ [])

resolved : resolve requested ≡ ok quant
unfolding resolve resolve_wanted wanted_tools resolve_known or_drift
resolved = refl

resolve_drift_iff_example :
    ((x : DriftError) × (resolve (some ("launch_rocket" ∷ [])) ≡ drift x))
    ↔ All (λ q. covers (wanted_tools (some ("launch_rocket" ∷ []))) q ≡ false) profiles
resolve_drift_iff_example = resolve_drift_iff (some ("launch_rocket" ∷ []))
