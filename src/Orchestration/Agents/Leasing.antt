-- ===== src/Orchestration/Agents/Leasing.antt =====
-- What a turn of an attendee (agents.py) does to the sandboxes.
use meetings.Prelude.{
  ℕ, suc, ◌+◌, ◌≤◌, String, ◌≡◌, refl, inl, inr, true, Option, none, some, arith, Option-cases,
  Bool-cases,
}
use meetings.Dict.{Dict, get, string_eq, pair_eq}
use meetings.Profiles.{Resolved, ok, drift, resolve}
use meetings.Orchestration.State.{Role, Update, MeetingState}
use meetings.Orchestration.TurnCache.{Database, lookup}
use meetings.Sandbox.Leases.{
  Handle, Sdk, Config, World, Acquired, handle_of, unavailable, acquire, needs_bind, mark_bound,
  invalidate,
}
use meetings.Sandbox.Leases.Accounting.{
  IsAccounted, acquire-IsAccounted, mark_bound-IsAccounted, invalidate-IsAccounted,
}
use meetings.Sandbox.Leases.Requests.{acquire_requested, mark_bound_requested, invalidate_requested}
use meetings.Orchestration.Agents.{
  Issued, answered, errored, lost, ended, Pod, Backend, turn_key, issue, settle_turn, with_sandbox,
  attempt_turn, take_turn, run_resolved, replay_or_run, known_node, agent_node,
}

module _ (sdk : Sdk) (config : Config) (db : Database) (agent_id : String) (role : Role)
    (meeting_id key : String) (Q : World → Type 0)
    (acquired : (p : String) (w : World) → Q w → Q (acquire sdk config meeting_id agent_id p w).1)
    (bound : (w : World) → Q w → Q (mark_bound sdk config meeting_id agent_id w))
    (dropped : (w : World) → Q w → Q (invalidate sdk config meeting_id agent_id w)) where
  Keeps : Option (String → Backend → Update × Backend) → Type 0
  Keeps none = Unit
  Keeps (some again) = (e : String) (b : Backend) → Q b.world → Q (again e b).1.world

  issue-keeps :
      (pod : Pod) (w : World) → Q w → Q (issue sdk config db agent_id role meeting_id pod w).1
  unfolding issue
  issue-keeps pod w q = elim (Bool-cases (needs_bind sdk config meeting_id agent_id w)) [
    | inl y ↦ elim (Option-cases pod.bind_fails) [
      | inl n ↦ rw (y, n) (bound w q)
      | inr (e, s) ↦ rw (y, s) q
    ]
    | inr n ↦ rw n q
  ]

  settle-keeps :
      (last : String) (h : Handle) (i : Issued) (b : Backend)
      (again : Option (String → Backend → Update × Backend))
      → Keeps again
      → Q b.world
      → Q (settle_turn sdk config db agent_id role meeting_id key last h i b again).1.world
  unfolding settle_turn Keeps
  settle-keeps last h (answered r) b again g q = q
  settle-keeps last h (errored t) b again g q = q
  settle-keeps last h ended b again g q = q
  settle-keeps last h (lost t) b none g q = dropped b.world q
  settle-keeps last h (lost t) b (some again) g q = g t _ (dropped b.world q)

  with_sandbox-keeps :
      (last : String) (pod : Pod) (b : Backend)
      (again : Option (String → Backend → Update × Backend)) (a : Acquired × World)
      → Keeps again
      → Q a.1
      → Q (with_sandbox sdk config db agent_id role meeting_id key last pod b again a).1.world
  unfolding with_sandbox
  with_sandbox-keeps last pod b again (unavailable t, w) g q = q
  with_sandbox-keeps last pod b again (handle_of h, w) g q =
      settle-keeps last h _ _ again g (issue-keeps pod w q)

  take_turn-keeps :
      (profile : String) (pods : ℕ → Pod) (b : Backend)
      → Q b.world
      → Q (take_turn sdk config db agent_id role meeting_id key profile pods b).1.world
  unfolding take_turn attempt_turn Keeps
  take_turn-keeps profile pods b q =
      with_sandbox-keeps _ (pods 0) b _ _
        (λ t c h. with_sandbox-keeps t (pods 1) c none _ tt (acquired profile c.world h))
        (acquired profile b.world q)

module _ (sdk : Sdk) (config : Config) (db : Database) (agent_id : String) (role : Role) where
  -- The sandbox requests of a turn, counted against those of an attempt that follows.
  issue_requested :
      (meeting_id : String) (pod : Pod) (w : World)
      → (issue sdk config db agent_id role meeting_id pod w).1.requested ≡ w.requested
  unfolding issue
  issue_requested meeting_id pod w =
      elim (Bool-cases (needs_bind sdk config meeting_id agent_id w)) [
        | inl y ↦ elim (Option-cases pod.bind_fails) [
          | inl n ↦ rw (y, n) (mark_bound_requested sdk config meeting_id agent_id w)
          | inr (e, s) ↦ rw (y, s) refl
        ]
        | inr n ↦ rw n refl
      ]

  Costs : ℕ → Option (String → Backend → Update × Backend) → Type 0
  Costs n none = Unit
  Costs n (some again) =
      (e : String) (b : Backend) → (again e b).1.world.requested ≤ b.world.requested + n

  settle_requested :
      (meeting_id key last : String) (h : Handle) (i : Issued) (b : Backend) (n : ℕ)
      (again : Option (String → Backend → Update × Backend))
      → Costs n again
      → (settle_turn sdk config db agent_id role meeting_id key last h i b again).1.world.requested
        ≤ b.world.requested + n
  unfolding settle_turn Costs
  settle_requested meeting_id key last h (answered r) b n again g = ground arith
  settle_requested meeting_id key last h (errored t) b n again g = ground arith
  settle_requested meeting_id key last h ended b n again g = ground arith
  settle_requested meeting_id key last h (lost t) b n none g =
      ground (arith, invalidate_requested sdk config meeting_id agent_id b.world)
  settle_requested meeting_id key last h (lost t) b n (some again) g = ground (
    arith,
    invalidate_requested sdk config meeting_id agent_id b.world,
    g t (record b { world = invalidate sdk config meeting_id agent_id b.world }),
  )

  with_sandbox_requested :
      (meeting_id key last : String) (pod : Pod) (b : Backend) (n : ℕ)
      (again : Option (String → Backend → Update × Backend)) (a : Acquired × World)
      → Costs n again
      → (with_sandbox sdk config db agent_id role meeting_id key last pod b again
          a).1.world.requested
        ≤ a.1.requested + n
  unfolding with_sandbox
  with_sandbox_requested meeting_id key last pod b n again (unavailable t, w) g = ground arith
  with_sandbox_requested meeting_id key last pod b n again (handle_of h, w) g = ground (
    arith,
    issue_requested meeting_id pod w,
    settle_requested meeting_id key last h (issue sdk config db agent_id role meeting_id pod w).0
        (record b { world = (issue sdk config db agent_id role meeting_id pod w).1 }) n again g,
  )

  attempt_requested :
      (meeting_id key profile last : String) (pod : Pod) (b : Backend) (n : ℕ)
      (again : Option (String → Backend → Update × Backend))
      → Costs n again
      → (attempt_turn sdk config db agent_id role meeting_id key profile pod again last
          b).1.world.requested
        ≤ b.world.requested + suc n
  unfolding attempt_turn
  attempt_requested meeting_id key profile last pod b n again g = ground (
    arith,
    acquire_requested sdk config meeting_id agent_id profile b.world,
    with_sandbox_requested meeting_id key last pod b n again
        (acquire sdk config meeting_id agent_id profile b.world) g,
  )

  take_turn_requested :
      (meeting_id key profile : String) (pods : ℕ → Pod) (b : Backend)
      → (take_turn sdk config db agent_id role meeting_id key profile pods b).1.world.requested
        ≤ b.world.requested + 2
  unfolding take_turn Costs
  take_turn_requested meeting_id key profile pods b =
      attempt_requested meeting_id key profile _ (pods 0) b 1 _
        (λ t c. attempt_requested meeting_id key profile t (pods 1) c 0 none tt)

  run_requested :
      (s : MeetingState) (pods : ℕ → Pod) (b : Backend) (r : Resolved)
      → (run_resolved sdk config db agent_id role s.meeting_id
          (turn_key s.meeting_id s.current_turn agent_id)
          pods
          b
          r).1.world.requested
        ≤ b.world.requested + 2
  unfolding run_resolved
  run_requested s pods b (drift e) = ground arith
  run_requested s pods b (ok p) = take_turn_requested s.meeting_id _ p.name pods b

  known_requested :
      (s : MeetingState) (pods : ℕ → Pod) (b : Backend)
      → (known_node sdk config db agent_id role s pods b).1.world.requested ≤ b.world.requested + 2
  unfolding known_node replay_or_run
  known_requested s pods b =
      elim (Option-cases (lookup db (turn_key s.meeting_id s.current_turn agent_id) b.turns)) [
        | inl n ↦ rw n (run_requested s pods b (resolve role.default_tools))
        | inr (u, e) ↦ rw e (ground arith)
      ]

  run-IsAccounted :
      (s : MeetingState) (pods : ℕ → Pod) (b : Backend) (r : Resolved)
      → ((c : String) → sdk.deletes c ≡ true)
      → IsAccounted b.world
      → IsAccounted
          (run_resolved sdk config db agent_id role s.meeting_id
            (turn_key s.meeting_id s.current_turn agent_id)
            pods
            b
            r).1.world
  unfolding run_resolved
  run-IsAccounted s pods b (drift e) d a = a
  run-IsAccounted s pods b (ok p) d a =
      take_turn-keeps sdk config db agent_id role s.meeting_id _ IsAccounted
        (acquire-IsAccounted sdk config s.meeting_id agent_id)
        (mark_bound-IsAccounted sdk config s.meeting_id agent_id)
        (λ w. invalidate-IsAccounted sdk config s.meeting_id agent_id w d) p.name pods b a

  known-IsAccounted :
      (s : MeetingState) (pods : ℕ → Pod) (b : Backend)
      → ((c : String) → sdk.deletes c ≡ true)
      → IsAccounted b.world
      → IsAccounted (known_node sdk config db agent_id role s pods b).1.world
  unfolding known_node replay_or_run
  known-IsAccounted s pods b d a =
      elim (Option-cases (lookup db (turn_key s.meeting_id s.current_turn agent_id) b.turns)) [
        | inl n ↦ rw n (run-IsAccounted s pods b (resolve role.default_tools) d a)
        | inr (u, e) ↦ rw e a
      ]

-- One run of an attendee's node asks the cluster for at most two sandboxes, whatever the sandboxes,
-- the cluster and the database answer.
pub agent_node_requests :
    (sdk : Sdk) (config : Config) (db : Database) (attendees : Dict String Role) (agent_id : String)
    (s : MeetingState) (pods : ℕ → Pod) (b : Backend)
    → (agent_node sdk config db attendees agent_id s pods b).1.world.requested
      ≤ b.world.requested + 2
unfolding agent_node
agent_node_requests sdk config db attendees agent_id s pods b =
    elim (Option-cases (get agent_id attendees)) [
      | inl n ↦ rw (agent_node, n) (ground arith)
      | inr (role, e) ↦ rw (agent_node, e) (known_requested sdk config db agent_id role s pods b)
    ]

-- When deletions succeed, a run of an attendee's node keeps the accounts, the two losses of a sandbox
-- included: every claim that is alive is held by a lease or was left by a creation that failed after
-- making it, and each persona holds one lease.
pub agent_node-IsAccounted :
    (sdk : Sdk) (config : Config) (db : Database) (attendees : Dict String Role) (agent_id : String)
    (s : MeetingState) (pods : ℕ → Pod) (b : Backend)
    → ((c : String) → sdk.deletes c ≡ true)
    → IsAccounted b.world
    → IsAccounted (agent_node sdk config db attendees agent_id s pods b).1.world
unfolding agent_node
agent_node-IsAccounted sdk config db attendees agent_id s pods b d a =
    elim (Option-cases (get agent_id attendees)) [
      | inl n ↦ rw (agent_node, n) a
      | inr (role, e) ↦
          rw (agent_node, e) (known-IsAccounted sdk config db agent_id role s pods b d a)
    ]
