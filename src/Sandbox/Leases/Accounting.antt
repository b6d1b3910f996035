-- ===== src/Sandbox/Leases/Accounting.antt =====
-- The claims that SandboxManager (manager.py) made and the leases that hold them.
use meetings.Prelude.{
  String, ◌≡◌, refl, ◌==◌, true, false, not, ◌||◌, none, some, List, [], ◌∷◌, map, elem,
  elem-filter, arith, Bool-cases, inl, inr, Option-cases,
}
use meetings.Dict.{
  get, put, get-put, remove, has_key, pair_eq, pair_beq, pair_beq_iff, HasUniqueKeys,
  put-HasUniqueKeys, remove-HasUniqueKeys,
}
use meetings.Sandbox.Leases.{
  Handle, Lease, Leases, Created, refused, half_made, made, Sdk, World, handle_of, Config, without,
  claim_sandbox, new_lease, acquire, mark_bound, release, invalidate,
}

-- The claims that the lease table holds.
abbrev pub claims : Leases → List String
claims d = map (λ e. e.1.handle.claim_name) d

-- Every claim that is alive is held, but for those that a failed creation left behind, and each
-- persona holds one lease.
pub record IsAccounted (w : World) : Type 0 where
  pub held :
      (c : String) → elem c w.live ≡ true → (elem c (claims w.leases) || elem c w.stranded) ≡ true
  pub unique : HasUniqueKeys w.leases

pub claims-put :
    (c : String) (k : String × String) (l : Lease) (d : Leases)
    → get k d ≡ none
    → elem c (claims (put k l d)) ≡ (c == l.handle.claim_name || elem c (claims d))
unfolding get put
claims-put c k l [] e = refl
claims-put c k l ((j, m) ∷ d) e = elim (Bool-cases (pair_beq j k)) [
  | inl y ↦ absurd (ground (arith, y, e))
  | inr n ↦ ground (arith, n, e, claims-put c k l d)
]

-- The claim of one persona is exchanged for itself.
pub claims-put_same :
    (c : String) (k : String × String) (l m : Lease) (d : Leases)
    → get k d ≡ some m
    → m.handle.claim_name ≡ l.handle.claim_name
    → elem c (claims (put k l d)) ≡ elem c (claims d)
unfolding get put
claims-put_same c k l m [] e h = absurd (cc)
claims-put_same c k l m ((j, x) ∷ d) e h = elim (Bool-cases (pair_beq j k)) [
  | inl y ↦ ground (arith, y, e, h)
  | inr n ↦ ground (arith, n, e, claims-put_same c k l m d)
]

claims-remove_absent :
    (c : String) (k : String × String) (d : Leases)
    → has_key k d ≡ false
    → elem c (claims (remove k d)) ≡ elem c (claims d)
unfolding has_key remove
claims-remove_absent c k [] h = refl
claims-remove_absent c k ((j, x) ∷ d) h = ground (arith, claims-remove_absent c k d)

pub claims-remove :
    (c : String) (k : String × String) (m : Lease) (d : Leases)
    → HasUniqueKeys d
    → get k d ≡ some m
    → (c == m.handle.claim_name) ≡ false
    → elem c (claims d) ≡ true
    → elem c (claims (remove k d)) ≡ true
unfolding get remove
claims-remove c k m [] u e n h = absurd (cc)
claims-remove c k m ((j, x) ∷ d) u e n h = elim (Bool-cases (pair_beq j k)) [
  | inl y ↦ ground (arith, y, e, n, h, u.0, pair_beq_iff j k, claims-remove_absent c j d)
  | inr f ↦ ground (arith, f, e, n, h, claims-remove c k m d u.1)
]

-- Claiming a sandbox keeps the accounts.
claim-IsAccounted :
    (sdk : Sdk) (config : Config) (k : String × String) (profile : String) (w : World) (c : Created)
    → IsAccounted w
    → get k w.leases ≡ none
    → IsAccounted (claim_sandbox sdk config k profile w c).1
unfolding claim_sandbox new_lease
claim-IsAccounted sdk config k profile w (refused e) a h = record {
  held = a.held;
  unique = a.unique;
}
claim-IsAccounted sdk config k profile w (half_made claim e) a h = record {
  held = λ c l. ground (arith, l, a.held c);
  unique = a.unique;
}
claim-IsAccounted sdk config k profile w (made claim name uid) a h = record {
  held = λ c l.
      ground (
        arith,
        l,
        a.held c,
        claims-put c k (new_lease sdk config profile claim name uid) w.leases h,
      );
  unique = put-HasUniqueKeys k (new_lease sdk config profile claim name uid) w.leases a.unique;
}

pub acquire-IsAccounted :
    (sdk : Sdk) (config : Config) (meeting_id agent_id profile : String) (w : World)
    → IsAccounted w
    → IsAccounted (acquire sdk config meeting_id agent_id profile w).1
unfolding acquire
acquire-IsAccounted sdk config meeting_id agent_id profile w a =
    elim (Option-cases (get (meeting_id, agent_id) w.leases)) [
      | inl n ↦
          rw (acquire, n)
            (claim-IsAccounted sdk config (meeting_id, agent_id) profile w (sdk.create w.requested)
              a n)
      | inr (l, e) ↦ rw (acquire, e) a
    ]

pub mark_bound-IsAccounted :
    (sdk : Sdk) (config : Config) (meeting_id agent_id : String) (w : World)
    → IsAccounted w
    → IsAccounted (mark_bound sdk config meeting_id agent_id w)
unfolding mark_bound
mark_bound-IsAccounted sdk config meeting_id agent_id w a =
    elim (Option-cases (get (meeting_id, agent_id) w.leases)) [
      | inl n ↦ rw (mark_bound, n) a
      | inr (l, e) ↦
          rw (mark_bound, e)
            (record {
              held = λ c h. ground (
                arith,
                a.held c h,
                claims-put_same c (meeting_id, agent_id) (record l { bound = true }) l w.leases e
                    refl,
              );
              unique =
                  put-HasUniqueKeys (meeting_id, agent_id) (record l { bound = true }) w.leases
                    a.unique;
            })
    ]

pub invalidate-IsAccounted :
    (sdk : Sdk) (config : Config) (meeting_id agent_id : String) (w : World)
    → ((c : String) → sdk.deletes c ≡ true)
    → IsAccounted w
    → IsAccounted (invalidate sdk config meeting_id agent_id w)
unfolding invalidate without release
invalidate-IsAccounted sdk config meeting_id agent_id w ok a =
    elim (Option-cases (get (meeting_id, agent_id) w.leases)) [
      | inl n ↦ rw (invalidate, n) a
      | inr (l, e) ↦
          rw (invalidate, release, e, ok l.handle.claim_name)
            (record {
              held = λ c h. ground (
                arith,
                h,
                a.held c,
                claims-remove c (meeting_id, agent_id) l w.leases a.unique e,
                elem-filter c (λ x. not (x == l.handle.claim_name)) w.live,
              );
              unique = remove-HasUniqueKeys (meeting_id, agent_id) w.leases a.unique;
            })
    ]

acquire_held :
    (sdk : Sdk) (config : Config) (meeting_id agent_id profile : String) (w : World) (l : Lease)
    → get (meeting_id, agent_id) w.leases ≡ some l
    → acquire sdk config meeting_id agent_id profile w ≡ (handle_of l.handle, w)
unfolding acquire
acquire_held sdk config meeting_id agent_id profile w l e = rw (acquire, e) refl

acquire_new :
    (sdk : Sdk) (config : Config) (meeting_id agent_id profile : String) (w : World)
    → get (meeting_id, agent_id) w.leases ≡ none
    → acquire sdk config meeting_id agent_id profile w
      ≡ claim_sandbox sdk config (meeting_id, agent_id) profile w (sdk.create w.requested)
unfolding acquire
acquire_new sdk config meeting_id agent_id profile w e = rw (acquire, e) refl

-- What a claim that was made leaves is a lease on the handle that was given.
claim_leased :
    (sdk : Sdk) (config : Config) (k : String × String) (profile : String) (w : World) (c : Created)
    (h : Handle)
    → (claim_sandbox sdk config k profile w c).0 ≡ handle_of h
    → (l : Lease) × (get k (claim_sandbox sdk config k profile w c).1.leases ≡ some l)
      × (l.handle ≡ h)
unfolding claim_sandbox new_lease
claim_leased sdk config k profile w (refused t) h e = absurd (cc)
claim_leased sdk config k profile w (half_made c t) h e = absurd (cc)
claim_leased sdk config k profile w (made c name uid) h e = (
  new_lease sdk config profile c name uid,
  ground (arith, get-put k k (new_lease sdk config profile c name uid) w.leases, pair_beq_iff k k),
  cc,
)

acquire_leased :
    (sdk : Sdk) (config : Config) (meeting_id agent_id profile : String) (w : World) (h : Handle)
    → (acquire sdk config meeting_id agent_id profile w).0 ≡ handle_of h
    → (l : Lease) × (get
          (meeting_id, agent_id)
          (acquire sdk config meeting_id agent_id profile w).1.leases
        ≡ some l)
      × (l.handle ≡ h)
acquire_leased sdk config meeting_id agent_id profile w h =
    elim (Option-cases (get (meeting_id, agent_id) w.leases)) [
      | inl n ↦
          rw (acquire_new sdk config meeting_id agent_id profile w n)
            (claim_leased sdk config (meeting_id, agent_id) profile w (sdk.create w.requested) h)
      | inr (l, g) ↦
          rw (acquire_held sdk config meeting_id agent_id profile w l g) (λ e. (l, g, cc))
    ]

-- Once a persona got a handle, acquiring again gives the same handle, whatever profile is asked
-- for, and the cluster is not asked for another sandbox.
pub acquire-acquire :
    (sdk : Sdk) (config : Config) (meeting_id agent_id profile other : String) (w : World)
    (h : Handle)
    → (acquire sdk config meeting_id agent_id profile w).0 ≡ handle_of h
    → acquire sdk config meeting_id agent_id other
        (acquire sdk config meeting_id agent_id profile w).1
      ≡ (handle_of h, (acquire sdk config meeting_id agent_id profile w).1)
acquire-acquire sdk config meeting_id agent_id profile other w h e =
    let (l, g, s) = acquire_leased sdk config meeting_id agent_id profile w h e in
    rw
      (
        acquire_held sdk config meeting_id agent_id other
            (acquire sdk config meeting_id agent_id profile w).1 l g,
        s,
      )
      refl
