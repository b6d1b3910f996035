-- ===== src/Sandbox/Leases/Tests.antt =====
-- Examples of SandboxManager (manager.py).
use meetings.Prelude.{◌≡◌, refl, true, []}
use meetings.Dict.{get, pair_eq}
use meetings.Sandbox.Leases.{
  Handle, Sdk, made, World, Config, acquire, handle_of, claim_sandbox, new_lease,
}
use meetings.Sandbox.Leases.Accounting.{IsAccounted, acquire-IsAccounted}

abbrev sdk : Sdk
sdk = record { create = λ n. made "claim" "sandbox" "uid"; deletes = λ c. true }

abbrev config : Config
config = record { namespace = "meetings"; base_url_for = λ name. name }

abbrev empty_world : World
empty_world = record { leases = []; live = []; stranded = []; requested = 0 }

abbrev handle : Handle
handle = record {
  claim_name = "claim";
  sandbox_name = "sandbox";
  namespace = "meetings";
  base_url = "sandbox";
  sandbox_uid = "uid";
}

-- One persona holds a sandbox.
abbrev leased_world : World
leased_world = (acquire sdk config "m" "a" "baseline" empty_world).1

empty-IsAccounted : IsAccounted empty_world
empty-IsAccounted = record { held = λ c h. absurd (cc); unique = tt }

leased-IsAccounted : IsAccounted leased_world
leased-IsAccounted = acquire-IsAccounted sdk config "m" "a" "baseline" empty_world empty-IsAccounted

acquired_handle : (acquire sdk config "m" "a" "baseline" empty_world).0 ≡ handle_of handle
unfolding acquire get claim_sandbox new_lease
acquired_handle = refl
