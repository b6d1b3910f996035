-- ===== src/Meetings/Lifecycle/Serial.antt =====
-- The steps of meeting_websocket, where no other handler runs inside start_meeting: how many tasks
-- can run a meeting, and when it can be started again.
use meetings.Prelude.{
  ℕ, String, ◌≡◌, refl, sym, ◌∙◌, true, false, Option, none, some, [], arith, if_cases, subst⁻¹,
  eq_refl,
}
use meetings.Dict.{
  Dict, get, put, remove, has_key, number_eq, string_eq, nat_eq_iff, has_key-put, has_key-remove,
  get_of_not-has_key,
}
use meetings.Meetings.{Meeting}
use meetings.Meetings.Lifecycle.{
  Task, Life, is_active, launch, start_meeting, cancel, cancel_found, cancel_task, cancel_own,
  stop_meeting, disconnect, leave, row_runs, begin, finish_run, interrupt, drop, delete_meeting,
  Step, starts, stops, disconnects, begins, finishes, interrupts, drops, fails, deletes, Steps,
  stays, then_step,
}

-- Every task is the one that the registry names.
pub IsRegistered : Life → Type 0
IsRegistered l = (t : ℕ) → has_key t l.tasks ≡ true → l.active ≡ some t

-- Cancelling a task neither adds nor removes one.
cancel_found-has_key :
    (o : Option Task) (t u : ℕ) (tasks : Dict ℕ Task)
    → get t tasks ≡ o
    → has_key u (cancel_found o t tasks) ≡ has_key u tasks
unfolding cancel_found
cancel_found-has_key none t u tasks e = refl
cancel_found-has_key (some task) t u tasks e = ground (
  arith,
  nat_eq_iff t u,
  has_key-put t u (record task { is_cancelled = true }) tasks,
  get_of_not-has_key t tasks,
  e,
)

cancel_task-has_key :
    (o : Option ℕ) (u : ℕ) (l : Life) → has_key u (cancel_task o l).tasks ≡ has_key u l.tasks
unfolding cancel_task cancel
cancel_task-has_key none u l = refl
cancel_task-has_key (some t) u l = cancel_found-has_key (get t l.tasks) t u l.tasks refl

cancel_task-active : (o : Option ℕ) (l : Life) → (cancel_task o l).active ≡ l.active
unfolding cancel_task
cancel_task-active none l = refl
cancel_task-active (some t) l = refl

-- What cancelling leaves of the invariant.
cancel_own-IsRegistered :
    (socket : String) (l : Life) → IsRegistered l → IsRegistered (cancel_own socket l)
unfolding IsRegistered cancel_own
cancel_own-IsRegistered socket l r t h =
    cancel_task-active (get socket l.sockets) l
    ∙ r t (sym (cancel_task-has_key (get socket l.sockets) t l) ∙ h)

-- Without a registered task there is none.
idle_tasks : (l : Life) (t : ℕ) → IsRegistered l → is_active l ≡ false → has_key t l.tasks ≡ false
unfolding IsRegistered
idle_tasks l t r n = ground (arith, n, r t)

launch-IsRegistered :
    (socket : String) (l : Life)
    → is_active l ≡ false
    → IsRegistered l
    → IsRegistered (launch socket l)
unfolding IsRegistered launch
launch-IsRegistered socket l n r t h = ground (
  arith,
  idle_tasks l t r n,
  nat_eq_iff l.created t,
  has_key-put l.created t (record { has_begun = false; is_cancelled = false }) l.tasks,
  h,
)

-- A registered task that goes leaves none behind.
remove_registered :
    (l : Life) (t u : ℕ)
    → IsRegistered l
    → has_key t l.tasks ≡ true
    → has_key u (remove t l.tasks) ≡ false
unfolding IsRegistered
remove_registered l t u r h = ground (arith, r t h, r u, nat_eq_iff t u, has_key-remove t u l.tasks)

get-has_key :
    (t : ℕ) (task : Task) (tasks : Dict ℕ Task) → get t tasks ≡ some task → has_key t tasks ≡ true
get-has_key t task tasks e = ground (arith, e, get_of_not-has_key t tasks)

leave-IsRegistered :
    (t : ℕ) (o : Option Meeting) (l : Life)
    → IsRegistered l
    → has_key t l.tasks ≡ true
    → IsRegistered (leave t (record l { row = o }))
unfolding leave IsRegistered
leave-IsRegistered t o l r h u k = absurd (ground (arith, k, remove_registered l t u r h))

put-IsRegistered :
    (t : ℕ) (task : Task) (l : Life)
    → IsRegistered l
    → has_key t l.tasks ≡ true
    → IsRegistered (record l { tasks = put t task l.tasks })
unfolding IsRegistered
put-IsRegistered t task l r h u k =
    ground (arith, k, r t h, r u, nat_eq_iff t u, has_key-put t u task l.tasks)

begin-IsRegistered :
    (t : ℕ) (l : Life) → IsRegistered l → has_key t l.tasks ≡ true → IsRegistered (begin t l)
unfolding begin
begin-IsRegistered t l r h =
    if_cases IsRegistered (row_runs l.row)
      (λ _. put-IsRegistered t (record { has_begun = true; is_cancelled = false }) l r h)
      (λ _. leave-IsRegistered t l.row l r h)

drop-IsRegistered : (t : ℕ) (l : Life) → IsRegistered l → IsRegistered (drop t l)
unfolding drop IsRegistered
drop-IsRegistered t l r u k = ground (arith, k, has_key-remove t u l.tasks, r u)

-- The row does not matter.
row-IsRegistered :
    (o : Option Meeting) (l : Life) → IsRegistered l → IsRegistered (record l { row = o })
unfolding IsRegistered
row-IsRegistered o l r = r

Step-IsRegistered : (l m : Life) → Step l m → IsRegistered l → IsRegistered m
unfolding start_meeting stop_meeting disconnect finish_run interrupt drop delete_meeting
Step-IsRegistered l _ (starts socket) r =
    if_cases IsRegistered (is_active l) (λ _. r) (λ n. launch-IsRegistered socket l n r)
Step-IsRegistered l _ (stops rule socket) r =
    row-IsRegistered _ (cancel_own socket l) (cancel_own-IsRegistered socket l r)
Step-IsRegistered l _ (disconnects socket) r = cancel_own-IsRegistered socket l r
Step-IsRegistered l _ (begins t e) r = begin-IsRegistered t l r (get-has_key t _ l.tasks e)
Step-IsRegistered l _ (finishes t status log e) r =
    leave-IsRegistered t _ l r (get-has_key t _ l.tasks e)
Step-IsRegistered l _ (interrupts rule t e) r =
    leave-IsRegistered t _ l r (get-has_key t _ l.tasks e)
Step-IsRegistered l _ (drops t e) r = drop-IsRegistered t l r
Step-IsRegistered l _ (fails t flag e) r =
    leave-IsRegistered t l.row l r (get-has_key t _ l.tasks e)
Step-IsRegistered l _ deletes r = row-IsRegistered none l r

Steps-IsRegistered : (l m : Life) → Steps l m → IsRegistered l → IsRegistered m
Steps-IsRegistered l _ stays r = r
Steps-IsRegistered l n (then_step {m = m} s step) r =
    Step-IsRegistered m n step (Steps-IsRegistered l m s r)

-- No task, no socket, and the meeting may be started.
abbrev pub idle : Option Meeting → Life
idle row = record { row = row; active = none; tasks = []; created = 0; sockets = [] }

idle-IsRegistered : (row : Option Meeting) → IsRegistered (idle row)
unfolding IsRegistered has_key
idle-IsRegistered row t h = absurd (cc)

-- From a process in which nothing runs, whatever its sockets and tasks do, as long as no other handler
-- runs inside start_meeting: two tasks that run the meeting are the same task.
pub Steps-single_task :
    (row : Option Meeting) (l : Life) (t u : ℕ)
    → Steps (idle row) l
    → has_key t l.tasks ≡ true
    → has_key u l.tasks ≡ true
    → t ≡ u
unfolding IsRegistered
Steps-single_task row l t u s h k =
    let registered = Steps-IsRegistered (idle row) l s (idle-IsRegistered row) in
    ground (arith, registered t h, registered u k)

-- The registry names a task, and there is none.
pub IsStuck : Life → Type 0
IsStuck l = (is_active l ≡ true) × ((t : ℕ) → has_key t l.tasks ≡ false)

no_task : (l : Life) (t : ℕ) (task : Task) → IsStuck l → get t l.tasks ≡ some task → ⊥
unfolding IsStuck
no_task l t task k e = ground (arith, k.1 t, get-has_key t task l.tasks e)

cancel_own-IsStuck : (socket : String) (l : Life) → IsStuck l → IsStuck (cancel_own socket l)
unfolding IsStuck cancel_own
cancel_own-IsStuck socket l k = (
  ground (arith, k.0, cancel_task-active (get socket l.sockets) l),
  λ t. (cancel_task-has_key (get socket l.sockets) t l ∙ k.1 t),
)

row-IsStuck : (o : Option Meeting) (l : Life) → IsStuck l → IsStuck (record l { row = o })
unfolding IsStuck
row-IsStuck o l k = k

start_refused : (socket : String) (l : Life) → IsStuck l → start_meeting socket l ≡ l
unfolding IsStuck start_meeting
start_refused socket l k = simp (k.0) refl

Step-IsStuck : (l m : Life) → Step l m → IsStuck l → IsStuck m
unfolding stop_meeting disconnect delete_meeting
Step-IsStuck l _ (starts socket) k = subst⁻¹ IsStuck (start_refused socket l k) k
Step-IsStuck l _ (stops rule socket) k =
    row-IsStuck _ (cancel_own socket l) (cancel_own-IsStuck socket l k)
Step-IsStuck l _ (disconnects socket) k = cancel_own-IsStuck socket l k
Step-IsStuck l _ (begins t e) k = absurd (no_task l t _ k e)
Step-IsStuck l _ (finishes t status log e) k = absurd (no_task l t _ k e)
Step-IsStuck l _ (interrupts rule t e) k = absurd (no_task l t _ k e)
Step-IsStuck l _ (drops t e) k = absurd (no_task l t _ k e)
Step-IsStuck l _ (fails t flag e) k = absurd (no_task l t _ k e)
Step-IsStuck l _ deletes k = row-IsStuck none l k

Steps-IsStuck : (l m : Life) → Steps l m → IsStuck l → IsStuck m
Steps-IsStuck l _ stays k = k
Steps-IsStuck l n (then_step {m = m} s step) k = Step-IsStuck m n step (Steps-IsStuck l m s k)

dropped :
    (row : Option Meeting) (rule socket : String)
    → IsStuck (drop 0 (stop_meeting rule socket (start_meeting socket (idle row))))
unfolding IsStuck drop stop_meeting cancel_own cancel_task cancel cancel_found start_meeting launch
    get put remove has_key
dropped row rule socket = rw (eq_refl socket) (refl, λ t. refl)

-- A start whose socket stops the meeting before the task has begun, the task being dropped for it: no
-- later start of the meeting does anything, whichever socket asks and whatever happens in between.
pub drop-start_meeting :
    (row : Option Meeting) (rule socket other_socket : String) (m : Life)
    → Steps (drop 0 (stop_meeting rule socket (start_meeting socket (idle row)))) m
    → start_meeting other_socket m ≡ m
unfolding IsStuck
drop-start_meeting row rule socket other_socket m s = start_refused other_socket m (
    Steps-IsStuck (drop 0 (stop_meeting rule socket (start_meeting socket (idle row)))) m s
      (dropped row rule socket))
