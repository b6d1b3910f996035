-- ===== src/Meetings/Lifecycle.antt =====
-- backend/app/api/routes/meetings.py, meeting_websocket, for one meeting: its row, its entry of
-- `active_meetings`, the asyncio tasks that run it and the sockets that are connected to it. A handler
-- runs until it awaits. asyncio's cancellation, of the standard library: a task that has not begun is
-- dropped without running any of its code, and one that has begun gets a CancelledError where it awaits.
pub mod Serial
use meetings.Prelude.{
  ℕ, suc, String, ◌≡◌, Bool, true, false, not, ◌&&◌, Option, none, some, List, [], ◌∷◌, elem, map,
  if◌then◌else◌,
}
use meetings.Dict.{Dict, get, put, remove, has_key, string_eq, number_eq}
use meetings.Meetings.{Meeting, UiEvent, terminate}
use meetings.Meetings.Executor.{runnable_statuses}

-- A task that runs send_events: whether it has begun, and whether it is to be cancelled.
pub record Task : Type 0 where
  pub has_begun : Bool
  pub is_cancelled : Bool

pub record Life : Type 0 where
  pub row : Option Meeting
  -- active_meetings.get(meeting_id)
  pub active : Option ℕ
  pub tasks : Dict ℕ Task
  -- The number of tasks that were created.
  pub created : ℕ
  -- execution_task of each socket that has one
  pub sockets : Dict String ℕ

map_row : (Meeting → Meeting) → Option Meeting → Option Meeting
map_row f none = none
map_row f (some m) = some (f m)

-- `meeting_id in active_meetings`
abbrev pub is_active : Life → Bool
is_active l = elim l.active [ none ↦ false | some t ↦ true ]

-- start_meeting after its check: the row is queued, and the task is created and registered.
unfoldable pub launch : String → Life → Life
unfolding map_row
launch socket l = record {
  row = map_row (λ m. record m { status = "queued" }) l.row;
  active = some l.created;
  tasks = put l.created (record { has_begun = false; is_cancelled = false }) l.tasks;
  created = suc l.created;
  sockets = put socket l.created l.sockets;
}

-- start_meeting
unfoldable pub start_meeting : String → Life → Life
unfolding launch
start_meeting socket l = if is_active l then l else launch socket l

unfoldable cancel_found : Option Task → ℕ → Dict ℕ Task → Dict ℕ Task
cancel_found none t tasks = tasks
cancel_found (some task) t tasks = put t (record task { is_cancelled = true }) tasks

-- task.cancel(), which does nothing to a task that is done
unfoldable pub cancel : ℕ → Dict ℕ Task → Dict ℕ Task
unfolding cancel_found
cancel t tasks = cancel_found (get t tasks) t tasks

unfoldable cancel_task : Option ℕ → Life → Life
unfolding cancel
cancel_task none l = l
cancel_task (some t) l = record l { tasks = cancel t l.tasks }

-- `if execution_task: execution_task.cancel()`
unfoldable pub cancel_own : String → Life → Life
unfolding cancel_task
cancel_own socket l = cancel_task (get socket l.sockets) l

-- stop_meeting and terminate_meeting
unfoldable pub stop_meeting : String → String → Life → Life
unfolding cancel_own map_row
stop_meeting rule socket l =
    let after = cancel_own socket l in record after { row = map_row (terminate rule) after.row }

-- WebSocketDisconnect
unfoldable pub disconnect : String → Life → Life
unfolding cancel_own
disconnect socket l = cancel_own socket l

-- The end of send_events, whose `finally` clears the registry.
unfoldable pub leave : ℕ → Life → Life
leave t l = record l { active = none; tasks = remove t l.tasks }

row_runs : Option Meeting → Bool
row_runs none = false
row_runs (some m) = elem m.status runnable_statuses

-- The task begins: the executor accepts the row, or ends at once.
unfoldable pub begin : ℕ → Life → Life
unfolding leave row_runs
begin t l =
    if row_runs l.row
    then record l { tasks = put t (record { has_begun = true; is_cancelled = false }) l.tasks }
    else leave t l

-- The executor writes its status and its log, and the task ends.
unfoldable pub finish_run : ℕ → String → List UiEvent → Life → Life
unfolding leave map_row
finish_run t status log l =
    leave t
      (record l { row = map_row (λ m. record m { status = status; meeting_log = log }) l.row })

-- A CancelledError in a task that has begun.
unfoldable pub interrupt : String → ℕ → Life → Life
unfolding leave map_row
interrupt rule t l = leave t (record l { row = map_row (terminate rule) l.row })

-- A task that is cancelled before it begins.
unfoldable pub drop : ℕ → Life → Life
drop t l = record l { tasks = remove t l.tasks }

-- delete_meeting, which a running task does not prevent
unfoldable pub delete_meeting : Life → Life
delete_meeting l = record l { row = none }

-- What can happen next, where no other handler runs between the check of start_meeting and the
-- task's registration.
pub data Step : Life → Life → Type 0 where
  starts : {l : Life} (socket : String) → Step l (start_meeting socket l)
  stops : {l : Life} (rule socket : String) → Step l (stop_meeting rule socket l)
  disconnects : {l : Life} (socket : String) → Step l (disconnect socket l)
  begins :
      {l : Life} (t : ℕ)
      → get t l.tasks ≡ some (record { has_begun = false; is_cancelled = false })
      → Step l (begin t l)
  finishes :
      {l : Life} (t : ℕ) (status : String) (log : List UiEvent)
      → get t l.tasks ≡ some (record { has_begun = true; is_cancelled = false })
      → Step l (finish_run t status log l)
  interrupts :
      {l : Life} (rule : String) (t : ℕ)
      → get t l.tasks ≡ some (record { has_begun = true; is_cancelled = true })
      → Step l (interrupt rule t l)
  drops :
      {l : Life} (t : ℕ)
      → get t l.tasks ≡ some (record { has_begun = false; is_cancelled = true })
      → Step l (drop t l)
  -- Any other exception of a task that has begun, such as a socket that is closed.
  fails :
      {l : Life} (t : ℕ) (flag : Bool)
      → get t l.tasks ≡ some (record { has_begun = true; is_cancelled = flag })
      → Step l (leave t l)
  deletes : {l : Life} → Step l (delete_meeting l)

pub data Steps : Life → Life → Type 0 where
  stays : {l : Life} → Steps l l
  then_step : {l m n : Life} → Steps l m → Step m n → Steps l n
