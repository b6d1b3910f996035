-- ===== src/Sandbox/Leases/Flights.antt =====
-- backend/app/sandbox/manager.py: the methods of SandboxManager at their awaits. Creating and
-- deleting a claim run in worker threads, and other methods run until they answer. A fleet is the
-- lease table with what is in flight: the acquisitions that wait for `_create`, the threads of
-- acquisitions whose task was cancelled, and the claims that are being deleted. `undeleted` and
-- `orphaned` only record what became of a claim: its deletion failed, or its thread answered nobody.
pub mod Accounts
mod Dropped
mod Tests
use meetings.Prelude.{
  String, ◌==◌, ◌≡◌, Bool, true, false, not, Option, none, some, List, [], ◌∷◌, ◌++◌, map, filter,
  elem, if◌then◌else◌,
}
use meetings.Dict.{Dict, get, has_key, remove, pair_eq, pair_beq}
use meetings.Sandbox.Leases.{
  Lease, Created, refused, half_made, made, Sdk, World, Config, without, claim_sandbox, mark_bound,
  of_meeting,
}

pub record Fleet : Type 0 where
  pub world : World
  -- by persona, the profile that is asked for
  pub creating : Dict (String × String) String
  pub adrift : Dict (String × String) String
  pub deleting : List String
  pub undeleted : List String
  pub orphaned : List String

-- The first entry of a persona is taken out.
unfoldable pub drop_first :
    String × String → Dict (String × String) String → Dict (String × String) String
drop_first k [] = []
drop_first k ((j, p) ∷ d) = let rest = drop_first k d in if pair_beq j k then d else (j, p) ∷ rest

-- One deletion of a claim is no longer in flight.
unfoldable pub drop_claim : String → List String → List String
drop_claim claim [] = []
drop_claim claim (c ∷ cs) = let rest = drop_claim claim cs in if c == claim then cs else c ∷ rest

module _ (sdk : Sdk) (config : Config) where
  -- acquire up to its await, for a persona that holds no lease
  unfoldable pub ask : String × String → String → Fleet → Fleet
  ask k profile f = record f { creating = (k, profile) ∷ f.creating }

  -- The rest of acquire, when `_create` answers.
  unfoldable pub settle_claim : String × String → String → Created → Fleet → Fleet
  unfolding drop_first
  settle_claim k profile answer f = record f {
    world = (claim_sandbox sdk config k profile f.world answer).1;
    creating = drop_first k f.creating;
  }

  -- acquire is cancelled while its thread runs, which goes on without it.
  unfoldable pub abandon : String × String → String → Fleet → Fleet
  unfolding drop_first
  abandon k profile f = record f {
    creating = drop_first k f.creating;
    adrift = (k, profile) ∷ f.adrift;
  }

  -- acquire is cancelled before it has the lock.
  unfoldable pub withdraw : String × String → Fleet → Fleet
  unfolding drop_first
  withdraw k f = record f { creating = drop_first k f.creating }

  -- The claim that such a thread makes.
  unfoldable pub orphan : String × String → Created → Fleet → Fleet
  unfolding drop_first
  orphan k (refused e) f = record f { adrift = drop_first k f.adrift }
  orphan k (half_made claim e) f = record f {
    world = record f.world { live = claim ∷ f.world.live };
    adrift = drop_first k f.adrift;
    orphaned = claim ∷ f.orphaned;
  }
  orphan k (made claim name uid) f = record f {
    world = record f.world { live = claim ∷ f.world.live };
    adrift = drop_first k f.adrift;
    orphaned = claim ∷ f.orphaned;
  }

  -- invalidate up to its await, for a persona that holds a lease
  unfoldable pub forget : String × String → Lease → Fleet → Fleet
  forget k lease f = record f {
    world = record f.world { leases = remove k f.world.leases };
    deleting = lease.handle.claim_name ∷ f.deleting;
  }

  -- release_meeting up to its await
  unfoldable pub forget_meeting : String → Fleet → Fleet
  forget_meeting meeting_id f = record f {
    world = record f.world {
      leases = filter (λ e. not (of_meeting sdk config meeting_id e)) f.world.leases;
    };
    deleting =
        map (λ e. e.1.handle.claim_name) (filter (of_meeting sdk config meeting_id) f.world.leases)
        ++ f.deleting;
  }

  -- A deletion answers.
  unfoldable pub settle_deletion : Bool → String → Fleet → Fleet
  unfolding without drop_claim
  settle_deletion true claim f = record f {
    world = record f.world { live = without claim f.world.live };
    deleting = drop_claim claim f.deleting;
  }
  settle_deletion false claim f = record f {
    deleting = drop_claim claim f.deleting;
    undeleted = claim ∷ f.undeleted;
  }

  unfoldable pub bind : String × String → Fleet → Fleet
  bind k f = record f { world = mark_bound sdk config k.0 k.1 f.world }

  -- What can happen next, where no persona is acquired twice at a time: a meeting runs one node at a
  -- time, and one task runs a meeting.
  pub data Step : Fleet → Fleet → Type 0 where
    asks :
        {f : Fleet} (k : String × String) (profile : String)
        → get k f.world.leases ≡ none
        → has_key k f.creating ≡ false
        → Step f (ask k profile f)
    claims :
        {f : Fleet} (k : String × String) (profile : String) (answer : Created)
        → get k f.creating ≡ some profile
        → Step f (settle_claim k profile answer f)
    abandons :
        {f : Fleet} (k : String × String) (profile : String)
        → get k f.creating ≡ some profile
        → Step f (abandon k profile f)
    withdraws :
        {f : Fleet} (k : String × String) (profile : String)
        → get k f.creating ≡ some profile
        → Step f (withdraw k f)
    orphans :
        {f : Fleet} (k : String × String) (answer : Created)
        → has_key k f.adrift ≡ true
        → Step f (orphan k answer f)
    forgets :
        {f : Fleet} (k : String × String) (lease : Lease)
        → get k f.world.leases ≡ some lease
        → Step f (forget k lease f)
    forgets_meeting : {f : Fleet} (meeting_id : String) → Step f (forget_meeting meeting_id f)
    deletes :
        {f : Fleet} (succeeds : Bool) (claim : String)
        → elem claim f.deleting ≡ true
        → Step f (settle_deletion succeeds claim f)
    binds : {f : Fleet} (k : String × String) → Step f (bind k f)

  pub data Steps : Fleet → Fleet → Type 0 where
    stays : {f : Fleet} → Steps f f
    then_step : {f g h : Fleet} → Steps f g → Step g h → Steps f h

-- Nothing is in flight.
abbrev pub idle : World → Fleet
idle w = record {
  world = w;
  creating = [];
  adrift = [];
  deleting = [];
  undeleted = [];
  orphaned = [];
}
