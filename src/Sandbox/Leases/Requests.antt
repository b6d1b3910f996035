-- ===== src/Sandbox/Leases/Requests.antt =====
-- How many sandboxes the methods of SandboxManager (manager.py) ask the cluster for.
use meetings.Prelude.{suc, ◌+◌, ◌≤◌, String, ◌≡◌, refl, none, Option-cases, inl, inr, arith}
use meetings.Dict.{get, pair_eq, get-remove, pair_beq_iff}
use meetings.Sandbox.Leases.{
  Handle, Created, refused, half_made, made, Sdk, World, Config, claim_sandbox, acquire, mark_bound,
  release, invalidate,
}

claim_requested :
    (sdk : Sdk) (config : Config) (k : String × String) (profile : String) (w : World) (c : Created)
    → (claim_sandbox sdk config k profile w c).1.requested ≡ suc w.requested
unfolding claim_sandbox
claim_requested sdk config k profile w (refused e) = refl
claim_requested sdk config k profile w (half_made c e) = refl
claim_requested sdk config k profile w (made c n u) = refl

pub acquire_requested :
    (sdk : Sdk) (config : Config) (meeting_id agent_id profile : String) (w : World)
    → (acquire sdk config meeting_id agent_id profile w).1.requested ≤ w.requested + 1
unfolding acquire
acquire_requested sdk config meeting_id agent_id profile w =
    elim (Option-cases (get (meeting_id, agent_id) w.leases)) [
      | inl n ↦
          rw (acquire, n)
            (ground (
              arith,
              claim_requested sdk config (meeting_id, agent_id) profile w (sdk.create w.requested),
            ))
      | inr (l, e) ↦ rw (acquire, e) (ground arith)
    ]

pub mark_bound_requested :
    (sdk : Sdk) (config : Config) (meeting_id agent_id : String) (w : World)
    → (mark_bound sdk config meeting_id agent_id w).requested ≡ w.requested
unfolding mark_bound
mark_bound_requested sdk config meeting_id agent_id w =
    elim (Option-cases (get (meeting_id, agent_id) w.leases)) [
      | inl n ↦ rw (mark_bound, n) refl
      | inr (l, e) ↦ rw (mark_bound, e) refl
    ]

release_requested :
    (sdk : Sdk) (config : Config) (h : Handle) (w : World)
    → (release sdk config h w).requested ≡ w.requested
unfolding release
release_requested sdk config h w = ground arith

release-leases :
    (sdk : Sdk) (config : Config) (h : Handle) (w : World)
    → (release sdk config h w).leases ≡ w.leases
unfolding release
release-leases sdk config h w = ground arith

pub invalidate_requested :
    (sdk : Sdk) (config : Config) (meeting_id agent_id : String) (w : World)
    → (invalidate sdk config meeting_id agent_id w).requested ≡ w.requested
unfolding invalidate
invalidate_requested sdk config meeting_id agent_id w =
    elim (Option-cases (get (meeting_id, agent_id) w.leases)) [
      | inl n ↦ rw (invalidate, n) refl
      | inr (l, e) ↦ rw (invalidate, e) (release_requested sdk config l.handle _)
    ]

-- After a lease is invalidated the persona holds none.
pub invalidate-get :
    (sdk : Sdk) (config : Config) (meeting_id agent_id : String) (w : World)
    → get (meeting_id, agent_id) (invalidate sdk config meeting_id agent_id w).leases ≡ none
unfolding invalidate
invalidate-get sdk config meeting_id agent_id w =
    elim (Option-cases (get (meeting_id, agent_id) w.leases)) [
      | inl n ↦ rw (invalidate, n) n
      | inr (l, e) ↦
          rw (invalidate, e, release-leases sdk config l.handle (record w { leases = _ }))
            (ground (
              arith,
              get-remove (meeting_id, agent_id) (meeting_id, agent_id) w.leases,
              pair_beq_iff (meeting_id, agent_id) (meeting_id, agent_id),
            ))
    ]
