-- ===== src/Sandbox/Leases/Release.antt =====
-- SandboxManager.release_meeting (manager.py), at the end of a meeting.
use meetings.Prelude.{
  String, ◌≡◌, refl, ◌==◌, eq_iff, true, false, not, ◌&&◌, none, some, eq_refl, List, [], ◌∷◌, map,
  filter, elem, elem-filter, arith, if◌then◌else◌, Bool-cases, inl, inr,
}
use meetings.Dict.{get, has_key, pair_eq, pair_beq, pair_beq_iff, HasUniqueKeys}
use meetings.Sandbox.Leases.{
  Handle, Lease, Leases, Sdk, World, Config, without, release, release_all, release_meeting,
  of_meeting,
}
use meetings.Sandbox.Leases.Accounting.{claims, IsAccounted}

-- Releasing leaves the lease table as it is.
release_all-leases :
    (sdk : Sdk) (config : Config) (handles : List Handle) (w : World)
    → (release_all sdk config handles w).leases ≡ w.leases
unfolding release_all release
release_all-leases sdk config [] w = refl
release_all-leases sdk config (h ∷ handles) w =
    ground (arith, release_all-leases sdk config handles (release sdk config h w))

release_all-live :
    (sdk : Sdk) (config : Config) (handles : List Handle) (w : World) (c : String)
    → ((x : String) → sdk.deletes x ≡ true)
    → elem c (release_all sdk config handles w).live
      ≡ (elem c w.live && not (elem c (map (λ h. h.claim_name) handles)))
unfolding release_all release without
release_all-live sdk config [] w c ok = ground arith
release_all-live sdk config (h ∷ handles) w c ok = ground (
  arith,
  ok h.claim_name,
  release_all-live sdk config handles (release sdk config h w) c ok,
  elem-filter c (λ x. not (x == h.claim_name)) w.live,
)

release_all-stranded :
    (sdk : Sdk) (config : Config) (handles : List Handle) (w : World)
    → (release_all sdk config handles w).stranded ≡ w.stranded
unfolding release_all release
release_all-stranded sdk config [] w = refl
release_all-stranded sdk config (h ∷ handles) w =
    ground (arith, release_all-stranded sdk config handles (release sdk config h w))

pub kept-get :
    (meeting_id m a : String) (d : Leases)
    → get (m, a) (filter (λ e. not (e.0.0 == meeting_id)) d)
      ≡ (if m == meeting_id then none else get (m, a) d)
unfolding get
kept-get meeting_id m a [] = ground arith
kept-get meeting_id m a (((x, y), l) ∷ d) =
    ground (arith, kept-get meeting_id m a d, eq_iff x m, eq_iff x meeting_id, eq_iff m meeting_id)

kept-has_key :
    (meeting_id : String) (k : String × String) (d : Leases)
    → has_key k d ≡ false
    → has_key k (filter (λ e. not (e.0.0 == meeting_id)) d) ≡ false
unfolding has_key
kept-has_key meeting_id k [] h = refl
kept-has_key meeting_id k (((x, y), l) ∷ d) h = ground (arith, kept-has_key meeting_id k d)

pub kept-HasUniqueKeys :
    (meeting_id : String) (d : Leases)
    → HasUniqueKeys d
    → HasUniqueKeys (filter (λ e. not (e.0.0 == meeting_id)) d)
kept-HasUniqueKeys meeting_id [] u = u
kept-HasUniqueKeys meeting_id (((x, y), l) ∷ d) (n, u) = elim (Bool-cases (x == meeting_id)) [
  | inl e ↦ rw e (kept-HasUniqueKeys meeting_id d u)
  | inr e ↦ rw e (kept-has_key meeting_id (x, y) d n, kept-HasUniqueKeys meeting_id d u)
]

-- The claim of a lease of the meeting is among those that are released.
leased-listed :
    (meeting_id agent_id : String) (l : Lease) (d : Leases)
    → get (meeting_id, agent_id) d ≡ some l
    → elem l.handle.claim_name
        (map (λ h. h.claim_name) (map (λ e. e.1.handle) (filter (λ e. e.0.0 == meeting_id) d)))
      ≡ true
unfolding get
leased-listed meeting_id agent_id l [] e = absurd (cc)
leased-listed meeting_id agent_id l (((x, y), k) ∷ d) e =
    elim (Bool-cases (pair_beq (x, y) (meeting_id, agent_id))) [
      | inl m ↦ ground (
        arith,
        m,
        e,
        eq_refl l.handle.claim_name,
        eq_refl meeting_id,
        pair_beq_iff (x, y) (meeting_id, agent_id),
      )
      | inr n ↦ ground (arith, n, e, leased-listed meeting_id agent_id l d)
    ]

-- A claim that is held is held for the meeting or for another one.
pub kept_or_released :
    (meeting_id c : String) (d : Leases)
    → elem c (claims d) ≡ true
    → elem c (map (λ h. h.claim_name) (map (λ e. e.1.handle) (filter (λ e. e.0.0 == meeting_id) d)))
      ≡ false
    → elem c (claims (filter (λ e. not (e.0.0 == meeting_id)) d)) ≡ true
kept_or_released meeting_id c [] h n = absurd (cc)
kept_or_released meeting_id c (((x, y), l) ∷ d) h n = elim (Bool-cases (x == meeting_id)) [
  | inl e ↦ ground (arith, e, h, n, kept_or_released meeting_id c d)
  | inr e ↦ ground (arith, e, h, n, kept_or_released meeting_id c d)
]

-- After a meeting is released none of its personas holds a lease, and every persona of another
-- meeting holds the lease it held before.
pub release_meeting-get :
    (sdk : Sdk) (config : Config) (meeting_id m a : String) (w : World)
    → get (m, a) (release_meeting sdk config meeting_id w).leases
      ≡ (if m == meeting_id then none else get (m, a) w.leases)
unfolding release_meeting
release_meeting-get sdk config meeting_id m a w =
    rw
      (release_all-leases sdk config
        (map (λ e. e.1.handle) (filter (of_meeting sdk config meeting_id) w.leases))
        (record w { leases = filter (λ e. not (of_meeting sdk config meeting_id e)) w.leases }))
      (kept-get meeting_id m a w.leases)

-- When deletions succeed, releasing a meeting keeps the accounts: every claim that is still alive is
-- held by a lease or was left by a creation that failed after making it, and each persona holds one
-- lease.
pub release_meeting-IsAccounted :
    (sdk : Sdk) (config : Config) (meeting_id : String) (w : World)
    → ((c : String) → sdk.deletes c ≡ true)
    → IsAccounted w
    → IsAccounted (release_meeting sdk config meeting_id w)
unfolding release_meeting
release_meeting-IsAccounted sdk config meeting_id w ok a =
    let handles = map (λ e. e.1.handle) (filter (of_meeting sdk config meeting_id) w.leases) in
    let kept = record w {
      leases = filter (λ e. not (of_meeting sdk config meeting_id e)) w.leases;
    } in
    let same = release_all-leases sdk config handles kept in
    record {
      held = λ c h.
          rw (same, release_all-stranded sdk config handles kept)
            (ground (
              arith,
              h,
              release_all-live sdk config handles kept c ok,
              a.held c,
              kept_or_released meeting_id c w.leases,
            ));
      unique = rw same (kept-HasUniqueKeys meeting_id w.leases a.unique);
    }

-- When deletions succeed, no sandbox of a released meeting is alive: the claim of each lease that the
-- meeting had is deleted.
pub release_meeting-live :
    (sdk : Sdk) (config : Config) (meeting_id agent_id : String) (w : World) (l : Lease)
    → ((c : String) → sdk.deletes c ≡ true)
    → get (meeting_id, agent_id) w.leases ≡ some l
    → elem l.handle.claim_name (release_meeting sdk config meeting_id w).live ≡ false
unfolding release_meeting
release_meeting-live sdk config meeting_id agent_id w l ok e =
    let handles = map (λ e. e.1.handle) (filter (of_meeting sdk config meeting_id) w.leases) in
    let kept = record w {
      leases = filter (λ e. not (of_meeting sdk config meeting_id e)) w.leases;
    } in
    ground (
      arith,
      release_all-live sdk config handles kept l.handle.claim_name ok,
      leased-listed meeting_id agent_id l w.leases e,
    )
