-- ===== src/Meetings/Executor/Outcomes.antt =====
-- run_meeting_execution: how a run ends, on every path on which the results can be written.
use meetings.Prelude.{
  String, ◌≡◌, refl, ap, eq_refl, ◌⊎◌, inl, inr, Bool, true, false, ◌||◌, Option, none, some, List,
  [], ◌∷◌, ◌++◌, any, elem, arith, Bool-cases, if_cases, if◌then◌else◌, subst⁻¹, ◌∙◌,
}
use meetings.Dict.{Dict, get, string_eq, get-put, pair_eq}
use meetings.Orchestration.State.{Role}
use meetings.Orchestration.Graph.{Validated, valid, refused, validate_attendee_profiles}
use meetings.Sandbox.Leases.{Sdk, Config, Lease, Leases}
use meetings.Sandbox.Leases.Release.{release_meeting-get, release_meeting-live}
use meetings.Meetings.{UiEvent, Meeting, meeting_completed}
use meetings.Meetings.Executor.{
  Streamed, World, Rows, Run, Pool, no_url, closed, opened, stream_graph, is_error,
  final_summary_of, update_meeting_status, execute_with_checkpointer, refuse, recover, checkpointed,
  checked, started, announced, after, run_meeting_execution, runnable_statuses, completion, or_kept,
  or_before, drift_text, checkpoint_refusal, no_database,
}

any-append {ℓ} :
    {A : Type ℓ} (p : A → Bool) (xs ys : List A) → any p (xs ++ ys) ≡ (any p xs || any p ys)
any-append p [] ys = refl
any-append p (x ∷ xs) ys = ground (arith, any-append p xs ys)

-- Writing a status changes the row, if there is one.
update_get :
    (meeting_id status : String) (log : Option (List UiEvent)) (summary : Option String)
    (rows : Rows) (m : Meeting)
    → get meeting_id rows ≡ some m
    → get meeting_id (update_meeting_status meeting_id status log summary rows)
      ≡ some (record m {
        status = status;
        meeting_log = or_kept log m.meeting_log;
        final_summary = or_before summary m.final_summary;
      })
unfolding update_meeting_status
update_get meeting_id status log summary rows m e =
    rw (update_meeting_status, e)
      (ground (
        arith,
        get-put meeting_id meeting_id
            (record m {
              status = status;
              meeting_log = or_kept log m.meeting_log;
              final_summary = or_before summary m.final_summary;
            })
            rows,
        eq_refl meeting_id,
      ))

completion_errors :
    (es : List UiEvent) → any is_error (es ++ completion (any is_error es)) ≡ any is_error es
unfolding is_error
completion_errors es = elim (Bool-cases (any is_error es)) [
  | inl y ↦ ground (arith, y, any-append is_error es (completion (any is_error es)))
  | inr n ↦ rw (n) (any-append is_error es (meeting_completed ∷ []) ∙ rw (n) refl)
]

module _ (sdk : Sdk) (config : Config) (meeting_id : String) (before : Leases)
    (deleted : (c : String) → sdk.deletes c ≡ true) where
  -- The meeting is completed without an error event, none of its personas holds a lease, and the
  -- claim of each lease that it had is not alive any more; or it is failed and an error event says
  -- so. Nothing is raised.
  pub record IsSettled (r : Run) : Type 0 where
    pub row : Meeting
    pub found_row : get meeting_id r.world.rows ≡ some row
    pub quiet : r.raised ≡ none
    pub outcome :
        ((row.status ≡ "completed")
          × (any is_error r.events ≡ false)
          × ((a : String) → get (meeting_id, a) r.world.sandboxes.leases ≡ none)
          × ((a : String) (l : Lease)
              → get (meeting_id, a) before ≡ some l
              → elem l.handle.claim_name r.world.sandboxes.live ≡ false))
        ⊎ ((row.status ≡ "failed") × (any is_error r.events ≡ true))

  execute-IsSettled :
      (s : Streamed) (w : World) (m : Meeting)
      → get meeting_id w.rows ≡ some m
      → w.sandboxes.leases ≡ before
      → IsSettled (execute_with_checkpointer sdk config meeting_id s none w)
  unfolding execute_with_checkpointer
  execute-IsSettled s w m e same = record {
    row = written;
    found_row =
        update_get meeting_id (if has_failed then "failed" else "completed") (some (stream_graph s))
          (final_summary_of (stream_graph s)) w.rows m e;
    quiet = refl;
    outcome = elim (Bool-cases has_failed) [
      | inl y ↦ inr (rw (y) refl, completion_errors (stream_graph s) ∙ y)
      | inr n ↦ inl (
        rw (n) refl,
        completion_errors (stream_graph s) ∙ n,
        λ a.
            (release_meeting-get sdk config meeting_id meeting_id a w.sandboxes
              ∙ rw (eq_refl meeting_id) refl),
        λ a l g.
            release_meeting-live sdk config meeting_id a w.sandboxes l deleted
              (ap (get (meeting_id, a)) same ∙ g),
      )
    ];
  }
    where
      has_failed : Bool
      has_failed = any is_error (stream_graph s)

      written : Meeting
      written = record m {
        status = if has_failed then "failed" else "completed";
        meeting_log = stream_graph s;
        final_summary = or_before (final_summary_of (stream_graph s)) m.final_summary;
      }

  refuse-IsSettled :
      (content : String) (w : World) (m : Meeting)
      → get meeting_id w.rows ≡ some m
      → IsSettled (refuse sdk config meeting_id content w)
  unfolding refuse is_error
  refuse-IsSettled content w m e = record {
    row = record m { status = "failed" };
    found_row = update_get meeting_id "failed" none none w.rows m e;
    quiet = refl;
    outcome = inr (refl, refl);
  }

  recover-none :
      (allow_volatile : Bool) (s : Streamed) (fails : Option String) (r : Run)
      → r.raised ≡ none
      → recover sdk config meeting_id allow_volatile s fails r ≡ r
  unfolding recover
  recover-none allow_volatile s fails r e = simp (recover, e) refl

  recover_quiet :
      (allow_volatile : Bool) (s : Streamed) (fails : Option String) (r : Run)
      → IsSettled r
      → IsSettled (recover sdk config meeting_id allow_volatile s fails r)
  recover_quiet allow_volatile s fails r h =
      subst⁻¹ IsSettled (recover-none allow_volatile s fails r h.quiet) h

  checkpointed-IsSettled :
      (pool : Pool) (allow_volatile : Bool) (s again : Streamed) (w : World) (m : Meeting)
      → get meeting_id w.rows ≡ some m
      → w.sandboxes.leases ≡ before
      → IsSettled (checkpointed sdk config meeting_id pool allow_volatile s none again none w)
  unfolding checkpointed recover after
  checkpointed-IsSettled no_url allow_volatile s again w m e k =
      if_cases IsSettled allow_volatile (λ _. execute-IsSettled again w m e k)
        (λ _. refuse-IsSettled no_database w m e)
  checkpointed-IsSettled (closed x) allow_volatile s again w m e k =
      if_cases IsSettled allow_volatile (λ _. execute-IsSettled again w m e k)
        (λ _. refuse-IsSettled (checkpoint_refusal x) w m e)
  checkpointed-IsSettled opened allow_volatile s again w m e k =
      recover_quiet allow_volatile again none
        (execute_with_checkpointer sdk config meeting_id s none w) (execute-IsSettled s w m e k)

  checked-IsSettled :
      (v : Validated) (run : Run) (w : World) (m : Meeting)
      → get meeting_id w.rows ≡ some m
      → IsSettled run
      → IsSettled (checked sdk config meeting_id v run w)
  unfolding checked
  checked-IsSettled (refused problems) run w m e h = refuse-IsSettled (drift_text problems) w m e
  checked-IsSettled (valid profiles) run w m e h = h

  started-IsSettled : (r : Run) → IsSettled r → IsSettled (started sdk config meeting_id r)
  unfolding started is_error
  started-IsSettled r h = record {
    row = h.row;
    found_row = h.found_row;
    quiet = h.quiet;
    outcome = h.outcome;
  }

  announced-get :
      (b : Bool) (w : World) (m : Meeting)
      → get meeting_id w.rows ≡ some m
      → (n : Meeting) × (get meeting_id (announced sdk config meeting_id b w).rows ≡ some n)
  unfolding announced
  announced-get true w m e = (_, update_get meeting_id "running" none none w.rows m e)
  announced-get false w m e = (m, e)

  announced-leases :
      (b : Bool) (w : World)
      → (announced sdk config meeting_id b w).sandboxes.leases ≡ w.sandboxes.leases
  unfolding announced
  announced-leases true w = refl
  announced-leases false w = refl

  -- A meeting that is queued, running or a draft, when the results can be written and deletions
  -- succeed: the run raises nothing, and its row says completed, with no error event, no lease left
  -- and none of the claims alive that its leases held, or failed, with an error event, whatever the
  -- graph, the checkpointer and the attendees are.
  pub run_meeting_execution-IsSettled :
      (attendees : Dict String Role) (creates_settings : Bool) (pool : Pool) (allow_volatile : Bool)
      (s again : Streamed) (w : World) (m : Meeting)
      → get meeting_id w.rows ≡ some m
      → elem m.status runnable_statuses ≡ true
      → w.sandboxes.leases ≡ before
      → IsSettled (
          run_meeting_execution sdk config meeting_id attendees creates_settings pool allow_volatile
            s none again none w)
  unfolding run_meeting_execution
  run_meeting_execution-IsSettled attendees creates_settings pool allow_volatile s again w m e h k =
      rw (run_meeting_execution, e, h)
        (started-IsSettled _ (
          checked-IsSettled (validate_attendee_profiles attendees) _ _ now.0 now.1 (
            checkpointed-IsSettled pool allow_volatile s again _ now.0 now.1
              (announced-leases creates_settings w ∙ k))))
    where
      now :
          (n : Meeting) × (get meeting_id (announced sdk config meeting_id creates_settings w).rows
            ≡ some n)
      now = announced-get creates_settings w m e
