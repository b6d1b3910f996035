-- ===== src/Roles/Matrix.antt =====
-- The capability matrix of a meeting (api/routes/meetings.py) against what the attendees' sandboxes
-- build.
use Prim.Native.Nat.{Ordering}
use Prim.Native.String.{compare}
use mathlib.Core.List.{Perm}
use mathlib.Core.List.Perm
use meetings.Prelude.{
  String, ◌≡◌, refl, sym, ◌∙◌, some, List, [], ◌∷◌, elem, subset, true, subst, All,
}
use meetings.Prelude.Order.{sorted, elem-sorted}
use meetings.Dict.{Dict}
use meetings.Profiles.{
  Profile, Resolved, ok, drift, resolve, DriftError, wanted_tools, run_python_analysis, all_tools,
}
use meetings.Profiles.Resolution.{resolve-executes}
use meetings.Runtime.Prompt.{build_tools}
use meetings.Orchestration.Agents.Binding.{
  RoleAgent, ProcessSettings, ModelSettings, bind_request, bound_persona,
}
use meetings.Orchestration.Agents.Binding.Granted.{bound_persona-build_tools}
use meetings.Roles.{
  Entry, Entries, stopped, collected, entries, entry_of, grant_of, insert_entry, sort_entries,
  get_meeting_capabilities, matrix, raised,
}

placed-perm :
    (e x : Entry) (xs later : List Entry) (o : Ordering)
    → Perm later (e ∷ xs)
    → Perm (elim o [ Ordering.gt ↦ x ∷ later | _ ↦ e ∷ x ∷ xs ]) (e ∷ x ∷ xs)
placed-perm e x xs later Ordering.gt p = Perm.trans (Perm.cons x p) (Perm.swap e x xs)
placed-perm e x xs later Ordering.lt p = Perm.rfl
placed-perm e x xs later Ordering.eq p = Perm.rfl

insert_entry-perm : (e : Entry) (es : List Entry) → Perm (insert_entry e es) (e ∷ es)
unfolding insert_entry
insert_entry-perm e [] = Perm.rfl
insert_entry-perm e (x ∷ xs) =
    placed-perm e x xs (insert_entry e xs) (compare e.display_name x.display_name)
      (insert_entry-perm e xs)

sort_entries-perm : (es : List Entry) → Perm (sort_entries es) es
unfolding sort_entries
sort_entries-perm [] = Perm.rfl
sort_entries-perm (e ∷ es) =
    Perm.trans (insert_entry-perm e (sort_entries es)) (Perm.cons e (sort_entries-perm es))

-- A row whose tools resolve.
abbrev pub Resolves : String × RoleAgent → Type 0
Resolves e = (p : Profile) × (resolve e.1.role.default_tools ≡ ok p)

entries-collected :
    (rows : Dict String RoleAgent)
    → All Resolves rows
    → (es : List Entry) × (entries rows ≡ collected es)
unfolding entries
entries-collected [] h = ([], refl)
entries-collected ((id, r) ∷ rows) h =
    let (es, c) = entries-collected rows h.1 in
    (entry_of id r h.0.0 ∷ es, rw (entries, h.0.1, c) refl)

-- An attendee whose tools have drifted from every profile: no matrix is answered for the meeting.
pub get_meeting_capabilities-raised :
    (rows : Dict String RoleAgent) (id : String) (r : RoleAgent) (d : DriftError)
    → resolve r.role.default_tools ≡ drift d
    → get_meeting_capabilities (some ((id, r) ∷ rows)) ≡ raised d
unfolding get_meeting_capabilities entries
get_meeting_capabilities-raised rows id r d h = rw (get_meeting_capabilities, entries, h) refl

module _ {F : Type 0} (default_agent_prompt : String) (process : ProcessSettings)
    (m : ModelSettings F) (meeting_id : String) where
  -- An entry of a row: in every sandbox that allows the tools of the row's profile, the tools that
  -- are built are those that the entry shows; and it shows the interpreter exactly if the row names it.
  pub record Shows (id : String) (r : RoleAgent) (e : Entry) : Type 0 where
    pub profile : Profile
    pub resolved : resolve r.role.default_tools ≡ ok profile
    pub named : e ≡ entry_of id r profile
    pub built :
        (allowed : List String) (t : String)
        → subset profile.tools allowed ≡ true
        → elem t e.grant.granted_tools
          ≡ elem t (
              build_tools
                (bound_persona allowed (
                  bind_request default_agent_prompt process m id meeting_id r
                    profile)).0.active_tools)
    pub executes :
        e.grant.can_execute_code ≡ elem run_python_analysis (wanted_tools r.role.default_tools)

  -- One entry for each row.
  pub data ShowsAll : Dict String RoleAgent → List Entry → Type 0 where
    nobody : ShowsAll [] []
    and :
        {id : String} {r : RoleAgent} {e : Entry} {rows : Dict String RoleAgent} {es : List Entry}
        → Shows id r e
        → ShowsAll rows es
        → ShowsAll ((id, r) ∷ rows) (e ∷ es)

  entry_of-Shows :
      (id : String) (r : RoleAgent) (p : Profile)
      → resolve r.role.default_tools ≡ ok p
      → Shows id r (entry_of id r p)
  unfolding grant_of
  entry_of-Shows id r p h = record {
    profile = p;
    resolved = h;
    named = refl;
    built = λ allowed t s.
        elem-sorted t p.tools
        ∙ sym
            (bound_persona-build_tools default_agent_prompt process m id meeting_id r p allowed t h
              s).1;
    executes = resolve-executes r.role.default_tools p h;
  }

  Collects : Dict String RoleAgent → Entries → Type 0
  Collects rows (stopped d) = Unit
  Collects rows (collected es) = ShowsAll rows es

  row-Collects :
      (id : String) (r : RoleAgent) (rows : Dict String RoleAgent) (q : Resolved) (rest : Entries)
      → resolve r.role.default_tools ≡ q
      → Collects rows rest
      → Collects ((id, r) ∷ rows) (elim q [
        | drift e ↦ stopped e
        | ok p ↦ elim rest [
          | stopped e ↦ stopped e
          | collected es ↦ collected (entry_of id r p ∷ es)
        ]
      ])
  unfolding Collects
  row-Collects id r rows (drift e) rest h c = tt
  row-Collects id r rows (ok p) (stopped e) h c = tt
  row-Collects id r rows (ok p) (collected es) h c = and (entry_of-Shows id r p h) c

  entries-Collects : (rows : Dict String RoleAgent) → Collects rows (entries rows)
  unfolding Collects entries
  entries-Collects [] = nobody
  entries-Collects ((id, r) ∷ rows) =
      row-Collects id r rows (resolve r.role.default_tools) (entries rows) refl
        (entries-Collects rows)

  -- Where every attendee's tools resolve, the capability matrix of the meeting is answered, and is up
  -- to its order one entry for each attendee: its tools are those that the attendee's sandbox builds,
  -- in every sandbox that allows the tools of the attendee's profile, and it has the interpreter
  -- exactly if the role names it.
  pub get_meeting_capabilities-ShowsAll :
      (rows : Dict String RoleAgent)
      → All Resolves rows
      → (shown es : List Entry) × (get_meeting_capabilities (some rows)
          ≡ matrix shown (sorted all_tools))
        × Perm shown es
        × ShowsAll rows es
  unfolding get_meeting_capabilities Collects
  get_meeting_capabilities-ShowsAll rows h =
      let (es, c) = entries-collected rows h in
      (
        sort_entries es,
        es,
        rw (get_meeting_capabilities, c) refl,
        sort_entries-perm es,
        subst (Collects rows) c (entries-Collects rows),
      )
