-- ===== src/Sandbox/Leases/Flights/Tests.antt =====
-- Examples of SandboxManager (manager.py) with methods in flight.
use meetings.Prelude.{String, ◌≡◌, refl, true, false, [], ◌∷◌, elem}
use meetings.Dict.{get, has_key, HasUniqueKeys, pair_eq}
use meetings.Sandbox.Leases.{Sdk, made, half_made, World, Config, claim_sandbox, new_lease}
use meetings.Sandbox.Leases.Accounting.{IsAccounted}
use meetings.Sandbox.Leases.Flights.{
  Fleet, ask, settle_claim, abandon, orphan, forget_meeting, drop_first, Steps, stays, then_step,
  asks, abandons, orphans, idle,
}
use meetings.Sandbox.Leases.Flights.Accounts.{accounted, Steps-accounted}

abbrev sdk : Sdk
sdk = record { create = λ n. made "claim" "sandbox" "uid"; deletes = λ c. true }

abbrev config : Config
config = record { namespace = "meetings"; base_url_for = λ name. name }

abbrev empty_world : World
empty_world = record { leases = []; live = []; stranded = []; requested = 0 }

empty-IsAccounted : IsAccounted empty_world
empty-IsAccounted = record { held = λ c h. absurd (cc); unique = tt }

-- An acquisition is cancelled while its thread runs, and the thread makes its claim afterwards.
abbrev cancelled_fleet : Fleet
cancelled_fleet =
    orphan sdk config ("m", "a") (made "late" "sandbox" "uid")
      (abandon sdk config ("m", "a") "baseline"
        (ask sdk config ("m", "a") "baseline" (idle empty_world)))

cancelled-Steps : Steps sdk config (idle empty_world) cancelled_fleet
unfolding ask abandon get has_key
cancelled-Steps =
    then_step
      (then_step (then_step stays (asks ("m", "a") "baseline" refl refl))
        (abandons ("m", "a") "baseline" refl))
      (orphans ("m", "a") (made "late" "sandbox" "uid") refl)

-- Its sandbox lives and no lease holds it, so that releasing the meeting does not reach it.
cancelled_leaks :
    ((forget_meeting sdk config "m" cancelled_fleet).world.live ≡ "late" ∷ [])
    × ((forget_meeting sdk config "m" cancelled_fleet).deleting ≡ [])
unfolding ask abandon orphan drop_first forget_meeting
cancelled_leaks = (refl, refl)

-- Two acquisitions of one persona in flight: the second lease takes the place of the first.
abbrev doubled_fleet : Fleet
doubled_fleet =
    settle_claim sdk config ("m", "a") "baseline" (made "second" "sandbox" "uid")
      (settle_claim sdk config ("m", "a") "baseline" (made "first" "sandbox" "uid")
        (ask sdk config ("m", "a") "baseline"
          (ask sdk config ("m", "a") "baseline" (idle empty_world))))

doubled_leaks :
    (elem "first" doubled_fleet.world.live ≡ true) × (accounted doubled_fleet "first" ≡ false)
unfolding ask settle_claim claim_sandbox new_lease drop_first meetings.Dict.put
doubled_leaks = (refl, refl)

Steps-accounted_example :
    ((c : String) → elem c cancelled_fleet.world.live ≡ true → accounted cancelled_fleet c ≡ true)
    × HasUniqueKeys cancelled_fleet.world.leases
Steps-accounted_example =
    Steps-accounted sdk config empty_world cancelled_fleet empty-IsAccounted cancelled-Steps

-- A sandbox that get_sandbox cannot be asked about once its claim was made: no lease holds it, and
-- releasing the meeting does not reach it.
abbrev halfway_fleet : Fleet
halfway_fleet =
    settle_claim sdk config ("m", "a") "baseline" (half_made "claim" "timeout")
      (ask sdk config ("m", "a") "baseline" (idle empty_world))

halfway_leaks :
    ((forget_meeting sdk config "m" halfway_fleet).world.live ≡ "claim" ∷ [])
    × ((forget_meeting sdk config "m" halfway_fleet).deleting ≡ [])
unfolding ask settle_claim claim_sandbox drop_first forget_meeting
halfway_leaks = (refl, refl)
