-- ===== src/Sandbox/Leases/Flights/Accounts.antt =====
-- What the interleaved methods of SandboxManager (manager.py) leave alive in the cluster.
use meetings.Prelude.{
  String, ◌≡◌, refl, ◌==◌, Bool, true, false, not, ◌||◌, none, some, elem, elem-filter, elem-append,
  arith, Bool-cases, Option-cases, inl, inr,
}
use meetings.Dict.{
  get, put, get-put, get-remove, has_key, pair_eq, pair_beq, pair_beq_iff, HasUniqueKeys,
  remove-HasUniqueKeys, put-HasUniqueKeys,
}
use meetings.Sandbox.Leases.{
  Lease, Created, refused, half_made, made, Sdk, World, Config, without, new_lease, claim_sandbox,
  mark_bound,
}
use meetings.Sandbox.Leases.Accounting as Held
use meetings.Sandbox.Leases.Accounting.{IsAccounted}
use meetings.Sandbox.Leases.Release.{kept-get, kept-HasUniqueKeys}
use meetings.Sandbox.Leases.Flights.{
  Fleet, drop_first, ask, settle_claim, abandon, withdraw, orphan, forget, forget_meeting,
  settle_deletion, bind, Step, asks, claims, abandons, withdraws, orphans, forgets, forgets_meeting,
  deletes, binds, Steps, stays, then_step, idle,
}
use meetings.Sandbox.Leases.Flights.Dropped.{
  drop_first-has_key, drop_first_absent, drop_first-HasUniqueKeys, get_of_has_key, released_or_kept,
  elem-drop_claim, released_claims,
}

-- What has become of a claim: a lease holds it, it is being deleted, its deletion failed, it was made
-- for an acquisition that was cancelled, or its creation failed once it was made.
abbrev pub accounted : Fleet → String → Bool
accounted f c =
    elem c (Held.claims f.world.leases)
    || (elem c f.deleting || (elem c f.undeleted || (elem c f.orphaned || elem c f.world.stranded)))

pub record IsTracked (f : Fleet) : Type 0 where
  pub held : (c : String) → elem c f.world.live ≡ true → accounted f c ≡ true
  pub unique : HasUniqueKeys f.world.leases
  -- A persona that is being acquired holds no lease, and is acquired once.
  pub waiting : (k : String × String) → has_key k f.creating ≡ true → get k f.world.leases ≡ none
  pub single : HasUniqueKeys f.creating

-- One lemma for each step.
module _ (sdk : Sdk) (config : Config) (f : Fleet) (t : IsTracked f) where
  ask-IsTracked :
      (k : String × String) (profile : String)
      → get k f.world.leases ≡ none
      → has_key k f.creating ≡ false
      → IsTracked (ask sdk config k profile f)
  unfolding ask has_key
  ask-IsTracked k profile free new = record {
    held = t.held;
    unique = t.unique;
    waiting = λ j h. elim (Bool-cases (pair_beq k j)) [
      | inl y ↦ ground (arith, pair_beq_iff k j, y, free)
      | inr n ↦ t.waiting j (ground (arith, h, n))
    ];
    single = (new, t.single);
  }

  forgotten-IsTracked :
      (k : String × String) → IsTracked (record f { creating = drop_first k f.creating })
  forgotten-IsTracked k = record {
    held = t.held;
    unique = t.unique;
    waiting = λ j h. t.waiting j (drop_first-has_key k j f.creating h);
    single = drop_first-HasUniqueKeys k f.creating t.single;
  }

  abandon-IsTracked :
      (k : String × String) (profile : String) → IsTracked (abandon sdk config k profile f)
  unfolding abandon
  abandon-IsTracked k profile = record {
    held = t.held;
    unique = t.unique;
    waiting = (forgotten-IsTracked k).waiting;
    single = (forgotten-IsTracked k).single;
  }

  withdraw-IsTracked : (k : String × String) → IsTracked (withdraw sdk config k f)
  unfolding withdraw
  withdraw-IsTracked k = forgotten-IsTracked k

  orphan-IsTracked :
      (k : String × String) (answer : Created) → IsTracked (orphan sdk config k answer f)
  unfolding orphan
  orphan-IsTracked k (refused e) = record {
    held = t.held;
    unique = t.unique;
    waiting = t.waiting;
    single = t.single;
  }
  orphan-IsTracked k (half_made claim e) = record {
    held = λ c h. ground (arith, h, t.held c);
    unique = t.unique;
    waiting = t.waiting;
    single = t.single;
  }
  orphan-IsTracked k (made claim name uid) = record {
    held = λ c h. ground (arith, h, t.held c);
    unique = t.unique;
    waiting = t.waiting;
    single = t.single;
  }

  -- The persona that gets a lease is no longer being acquired, and no other persona's lease changes.
  claimed_waiting :
      (k : String × String) (l : Lease) (j : String × String)
      → has_key j (drop_first k f.creating) ≡ true
      → get j (put k l f.world.leases) ≡ none
  claimed_waiting k l j h = elim (Bool-cases (pair_beq k j)) [
    | inl y ↦ ground (arith, pair_beq_iff k j, y, h, drop_first_absent k f.creating t.single)
    | inr n ↦
        ground (
          arith,
          n,
          get-put k j l f.world.leases,
          t.waiting j (drop_first-has_key k j f.creating h),
        )
  ]

  settle_claim-IsTracked :
      (k : String × String) (profile : String) (answer : Created)
      → has_key k f.creating ≡ true
      → IsTracked (settle_claim sdk config k profile answer f)
  unfolding settle_claim claim_sandbox
  settle_claim-IsTracked k profile (refused e) h = record {
    held = t.held;
    unique = t.unique;
    waiting = (forgotten-IsTracked k).waiting;
    single = (forgotten-IsTracked k).single;
  }
  settle_claim-IsTracked k profile (half_made claim e) h = record {
    held = λ c m. ground (arith, m, t.held c);
    unique = t.unique;
    waiting = (forgotten-IsTracked k).waiting;
    single = (forgotten-IsTracked k).single;
  }
  settle_claim-IsTracked k profile (made claim name uid) h =
      let l = new_lease sdk config profile claim name uid in
      let named : l.handle.claim_name ≡ claim = unfold new_lease in refl in
      record {
        held = λ c m.
            ground
              (arith, m, named, t.held c, Held.claims-put c k l f.world.leases (t.waiting k h));
        unique = put-HasUniqueKeys k l f.world.leases t.unique;
        waiting = claimed_waiting k l;
        single = (forgotten-IsTracked k).single;
      }

  forget-IsTracked :
      (k : String × String) (l : Lease)
      → get k f.world.leases ≡ some l
      → IsTracked (forget sdk config k l f)
  unfolding forget
  forget-IsTracked k l e = record {
    held = λ c m. ground (arith, m, t.held c, Held.claims-remove c k l f.world.leases t.unique e);
    unique = remove-HasUniqueKeys k f.world.leases t.unique;
    waiting = λ j h. ground (arith, get-remove k j f.world.leases, t.waiting j h);
    single = t.single;
  }

  forget_meeting-IsTracked :
      (meeting_id : String) → IsTracked (forget_meeting sdk config meeting_id f)
  unfolding forget_meeting
  forget_meeting-IsTracked meeting_id = record {
    held = λ c m. ground (
      arith,
      m,
      t.held c,
      elem-append c (released_claims meeting_id f.world.leases) f.deleting,
      released_or_kept meeting_id c f.world.leases,
    );
    unique = kept-HasUniqueKeys meeting_id f.world.leases t.unique;
    waiting =
        λ (m, a) h. ground (arith, kept-get meeting_id m a f.world.leases, t.waiting (m, a) h);
    single = t.single;
  }

  settle_deletion-IsTracked :
      (succeeds : Bool) (claim : String) → IsTracked (settle_deletion sdk config succeeds claim f)
  unfolding settle_deletion without
  settle_deletion-IsTracked true claim = record {
    held = λ c m. ground (
      arith,
      m,
      t.held c,
      elem-filter c (λ x. not (x == claim)) f.world.live,
      elem-drop_claim c claim f.deleting,
    );
    unique = t.unique;
    waiting = t.waiting;
    single = t.single;
  }
  settle_deletion-IsTracked false claim = record {
    held = λ c m. ground (arith, m, t.held c, elem-drop_claim c claim f.deleting);
    unique = t.unique;
    waiting = t.waiting;
    single = t.single;
  }

  bind-IsTracked : (k : String × String) → IsTracked (bind sdk config k f)
  unfolding bind mark_bound
  bind-IsTracked (m, a) = elim (Option-cases (get (m, a) f.world.leases)) [
    | inl n ↦
        rw (bind, mark_bound, n)
          (record { held = t.held; unique = t.unique; waiting = t.waiting; single = t.single })
    | inr (l, e) ↦
        let marked = record l { bound = true } in
        rw (bind, mark_bound, e)
          (record {
            held = λ c h.
                ground (
                  arith,
                  h,
                  t.held c,
                  Held.claims-put_same c (m, a) marked l f.world.leases e refl,
                );
            unique = put-HasUniqueKeys (m, a) marked f.world.leases t.unique;
            waiting = λ j h. elim (Bool-cases (pair_beq (m, a) j)) [
              | inl y ↦ ground (arith, pair_beq_iff (m, a) j, y, e, t.waiting j h)
              | inr n ↦ ground (arith, n, get-put (m, a) j marked f.world.leases, t.waiting j h)
            ];
            single = t.single;
          })
  ]

module _ (sdk : Sdk) (config : Config) where
  Step-IsTracked : {f g : Fleet} → IsTracked f → Step sdk config f g → IsTracked g
  Step-IsTracked {f} t (asks k profile free new) = ask-IsTracked sdk config f t k profile free new
  Step-IsTracked {f} t (claims k profile answer e) =
      settle_claim-IsTracked sdk config f t k profile answer (get_of_has_key k profile f.creating e)
  Step-IsTracked {f} t (abandons k profile e) = abandon-IsTracked sdk config f t k profile
  Step-IsTracked {f} t (withdraws k profile e) = withdraw-IsTracked sdk config f t k
  Step-IsTracked {f} t (orphans k answer e) = orphan-IsTracked sdk config f t k answer
  Step-IsTracked {f} t (forgets k lease e) = forget-IsTracked sdk config f t k lease e
  Step-IsTracked {f} t (forgets_meeting meeting_id) =
      forget_meeting-IsTracked sdk config f t meeting_id
  Step-IsTracked {f} t (deletes succeeds claim e) =
      settle_deletion-IsTracked sdk config f t succeeds claim
  Step-IsTracked {f} t (binds k) = bind-IsTracked sdk config f t k

  Steps-IsTracked : {f g : Fleet} → IsTracked f → Steps sdk config f g → IsTracked g
  Steps-IsTracked t stays = t
  Steps-IsTracked t (then_step r s) = Step-IsTracked (Steps-IsTracked t r) s

  idle-IsTracked : (w : World) → IsAccounted w → IsTracked (idle w)
  unfolding has_key
  idle-IsTracked w a = record {
    held = λ c h. ground (arith, h, a.held c);
    unique = a.unique;
    waiting = λ k h. absurd (cc);
    single = tt;
  }

  -- From a lease table whose accounts are kept, however the methods interleave and whatever fails or
  -- is cancelled, as long as no persona is acquired twice at a time: each persona holds one lease,
  -- and every claim that is alive is held by a lease, is being deleted, could not be deleted, was made
  -- for an acquisition that was cancelled, or was left by a creation that failed after making it.
  pub Steps-accounted :
      (w : World) (f : Fleet)
      → IsAccounted w
      → Steps sdk config (idle w) f
      → ((c : String) → elem c f.world.live ≡ true → accounted f c ≡ true)
        × HasUniqueKeys f.world.leases
  Steps-accounted w f a r = let t = Steps-IsTracked (idle-IsTracked w a) r in (t.held, t.unique)
