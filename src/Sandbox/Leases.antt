-- ===== src/Sandbox/Leases.antt =====
-- backend/app/sandbox/manager.py: SandboxManager. The lease table is kept together with what the
-- methods do to the cluster: the claims that are alive, and how many creations were asked for. What
-- the Agent Sandbox SDK answers is a parameter, by the number of the request. Methods run to their
-- end one after the other, as the meeting graph calls them.
pub mod Accounting
pub mod Release
pub mod Requests
pub mod Flights
mod Tests
use meetings.Prelude.{
  ℕ, suc, String, ◌==◌, Bool, true, false, not, ◌||◌, Option, none, some, List, [], ◌∷◌, ◌++◌, map,
  filter, if◌then◌else◌,
}
use meetings.Dict.{Dict, get, put, remove, pair_eq, string_eq}

-- SandboxHandle
pub record Handle : Type 0 where
  pub claim_name : String
  pub sandbox_name : String
  pub namespace : String
  pub base_url : String
  pub sandbox_uid : String

-- _Lease
pub record Lease : Type 0 where
  pub handle : Handle
  pub profile : String
  pub bound : Bool

abbrev pub Leases : Type 0
Leases = Dict (String × String) Lease

-- What `_create` gives: an exception of create_sandbox, an exception of get_sandbox once the claim was
-- made, or the claim's name, the sandbox's name and its uid.
pub data Created : Type 0 where
  refused : String → Created
  half_made : String → String → Created
  made : String → String → String → Created

-- The SDK: the answer to each creation, and whether each deletion of a claim succeeds.
pub record Sdk : Type 0 where
  pub create : ℕ → Created
  pub deletes : String → Bool

-- `stranded` only records the claims that a failed creation left behind.
pub record World : Type 0 where
  pub leases : Leases
  pub live : List String
  pub stranded : List String
  pub requested : ℕ

-- What `acquire` gives: a handle, or SandboxUnavailableError.
pub data Acquired : Type 0 where
  handle_of : Handle → Acquired
  unavailable : String → Acquired

pub record Config : Type 0 where
  pub namespace : String
  -- base_url_for, which depends on the router's address only
  pub base_url_for : String → String

without : String → List String → List String
without claim live = filter (λ c. not (c == claim)) live

module _ (sdk : Sdk) (config : Config) where
  -- The handle and the lease of a claim that was made.
  unfoldable pub new_lease : String → String → String → String → Lease
  new_lease profile claim name uid = record {
    handle = record {
      claim_name = claim;
      sandbox_name = name;
      namespace = config.namespace;
      base_url = config.base_url_for name;
      sandbox_uid = uid;
    };
    profile = profile;
    bound = false;
  }

  unfoldable pub claim_sandbox : String × String → String → World → Created → Acquired × World
  unfolding new_lease
  claim_sandbox key profile w (refused e) =
      (unavailable e, record w { requested = suc w.requested })
  claim_sandbox key profile w (half_made claim e) = (
    unavailable e,
    record w { live = claim ∷ w.live; stranded = claim ∷ w.stranded; requested = suc w.requested },
  )
  claim_sandbox key profile w (made claim name uid) =
      let lease = new_lease profile claim name uid in
      (
        handle_of lease.handle,
        record w {
          leases = put key lease w.leases;
          live = claim ∷ w.live;
          requested = suc w.requested;
        },
      )

  unfoldable pub acquire : String → String → String → World → Acquired × World
  unfolding claim_sandbox
  acquire meeting_id agent_id profile w = elim (get (meeting_id, agent_id) w.leases) [
    | some lease ↦ (handle_of lease.handle, w)
    | none ↦ claim_sandbox (meeting_id, agent_id) profile w (sdk.create w.requested)
  ]

  unfoldable pub needs_bind : String → String → World → Bool
  needs_bind meeting_id agent_id w = elim (get (meeting_id, agent_id) w.leases) [
    | some lease ↦ not lease.bound
    | none ↦ true
  ]

  unfoldable pub mark_bound : String → String → World → World
  mark_bound meeting_id agent_id w = elim (get (meeting_id, agent_id) w.leases) [
    | some lease ↦ record w {
      leases = put (meeting_id, agent_id) (record lease { bound = true }) w.leases;
    }
    | none ↦ w
  ]

  -- release, which never raises
  unfoldable pub release : Handle → World → World
  unfolding without
  release handle w =
      if sdk.deletes handle.claim_name
      then record w { live = without handle.claim_name w.live }
      else w

  unfoldable pub invalidate : String → String → World → World
  invalidate meeting_id agent_id w = elim (get (meeting_id, agent_id) w.leases) [
    | some lease ↦
        release lease.handle (record w { leases = remove (meeting_id, agent_id) w.leases })
    | none ↦ w
  ]

  -- release_all; the order of the concurrent releases does not matter
  unfoldable pub release_all : List Handle → World → World
  release_all [] w = w
  release_all (h ∷ handles) w = release_all handles (release h w)

  abbrev pub of_meeting : String → (String × String) × Lease → Bool
  of_meeting meeting_id entry = entry.0.0 == meeting_id

  unfoldable pub release_meeting : String → World → World
  unfolding release_all
  release_meeting meeting_id w =
      release_all (map (λ e. e.1.handle) (filter (of_meeting meeting_id) w.leases))
        (record w { leases = filter (λ e. not (of_meeting meeting_id e)) w.leases })

-- leased_sandboxes
unfoldable pub leased_sandboxes : String → World → List String
leased_sandboxes meeting_id w =
    map (λ e. e.1.handle.sandbox_name) (filter (λ e. e.0.0 == meeting_id) w.leases)

-- An entry of leases_for.
pub record LeaseView : Type 0 where
  pub agent_id : String
  pub profile : String
  pub sandbox : String
  pub sandbox_uid : String
  pub claim : String
  pub namespace : String

-- leases_for
unfoldable pub leases_for : String → World → List LeaseView
leases_for meeting_id w =
    map
      (λ e. record {
        agent_id = e.0.1;
        profile = e.1.profile;
        sandbox = e.1.handle.sandbox_name;
        sandbox_uid = e.1.handle.sandbox_uid;
        claim = e.1.handle.claim_name;
        namespace = e.1.handle.namespace;
      })
      (filter (λ e. e.0.0 == meeting_id) w.leases)
