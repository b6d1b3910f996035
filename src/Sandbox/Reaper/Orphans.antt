-- ===== src/Sandbox/Reaper/Orphans.antt =====
-- Which sandboxes the sweeps of reaper.py delete.
use meetings.Prelude.{
  String, ◌≡◌, refl, ap, sym, subst, ◌==◌, eq_iff, eq_refl, Bool, true, false, not, ◌&&◌, ◌||◌,
  Option, none, some, List, [], ◌∷◌, map, filter, elem, All, any, arith, Bool-cases, if_cases,
  Option-cases, inl, inr,
}
use meetings.Sandbox.Reaper.{
  MeetingRow, is_live, terminate, reap_abandoned_meetings, Item, meeting_of, add_label, is_gone,
  labels_of, live_ids, is_stale, delete_items, sweep_labelled, sweep_orphaned_sandboxes,
}

-- No row is a live meeting with the id.
abbrev pub is_over : List MeetingRow → String → Bool
is_over rows m = not (any (λ r. r.id == m && is_live r) rows)

-- A sandbox of a meeting that is not live, or not there any more.
abbrev pub is_of_over : List MeetingRow → Option String → Bool
is_of_over rows none = false
is_of_over rows (some m) = is_over rows m

abbrev pub is_orphan : List MeetingRow → Item → Bool
is_orphan rows item = is_of_over rows (meeting_of item)

live_ids-elem :
    (wanted : List String) (rows : List MeetingRow) (m : String)
    → elem m wanted ≡ true
    → elem m (live_ids wanted rows) ≡ any (λ r. r.id == m && is_live r) rows
unfolding live_ids
live_ids-elem wanted [] m w = refl
live_ids-elem wanted (r ∷ rows) m w = elim (Bool-cases (is_live r)) [
  | inl y ↦ ground (arith, y, w, live_ids-elem wanted rows m w, eq_iff r.id m, eq_iff m r.id)
  | inr n ↦ ground (arith, n, live_ids-elem wanted rows m w)
]

-- Of the meetings that were asked for, the sweep knows which are over.
stale-orphan :
    (wanted : List String) (rows : List MeetingRow) (items : List Item)
    → ((m : String) → elem m (labels_of items) ≡ true → elem m wanted ≡ true)
    → All (λ i. is_stale (live_ids wanted rows) i ≡ is_orphan rows i) items
unfolding is_stale labels_of
stale-orphan wanted rows [] f = tt
stale-orphan wanted rows (i ∷ items) f =
    cases (meeting_of i) f (λ g. stale-orphan wanted rows items g)
  where
    cases :
        (o : Option String)
        → ((m : String) → elem m (add_label o (labels_of items)) ≡ true → elem m wanted ≡ true)
        → (((m : String) → elem m (labels_of items) ≡ true → elem m wanted ≡ true)
            → All (λ k. is_stale (live_ids wanted rows) k ≡ is_orphan rows k) items)
        → (is_gone (live_ids wanted rows) o ≡ is_of_over rows o)
          × All (λ k. is_stale (live_ids wanted rows) k ≡ is_orphan rows k) items
    cases none g rest = (refl, rest g)
    cases (some m) g rest = (
      ap not (live_ids-elem wanted rows m (g m (ground (arith, eq_refl m)))),
      rest (λ x h. g x (ground (arith, h))),
    )

filter-kept :
    (deletes : String → Bool) (p q : Item → Bool) (items : List Item)
    → All (λ i. p i ≡ q i) items
    → filter (λ i. not (p i && deletes i.name)) items
      ≡ filter (λ i. not (q i && deletes i.name)) items
filter-kept deletes p q [] a = refl
filter-kept deletes p q (i ∷ items) a = ground (arith, a.0, filter-kept deletes p q items a.1)

filter-unlabelled :
    (deletes : String → Bool) (rows : List MeetingRow) (items : List Item)
    → labels_of items ≡ []
    → filter (λ i. not (is_orphan rows i && deletes i.name)) items ≡ items
unfolding labels_of
filter-unlabelled deletes rows [] h = refl
filter-unlabelled deletes rows (i ∷ items) h =
    cases (meeting_of i) refl h (λ g. filter-unlabelled deletes rows items g)
  where
    cases :
        (o : Option String)
        → meeting_of i ≡ o
        → add_label o (labels_of items) ≡ []
        → (labels_of items ≡ []
            → filter (λ k. not (is_orphan rows k && deletes k.name)) items ≡ items)
        → filter (λ k. not (is_orphan rows k && deletes k.name)) (i ∷ items) ≡ i ∷ items
    cases none e g rest = rw e (ap (i ∷◌) (rest g))
    cases (some m) e g rest = absurd (cc)

sweep_labelled-filter :
    (deletes : String → Bool) (rows : List MeetingRow) (items : List Item) (wanted : List String)
    → labels_of items ≡ wanted
    → (sweep_labelled deletes rows items wanted).0
      ≡ filter (λ i. not (is_orphan rows i && deletes i.name)) items
unfolding sweep_labelled delete_items
sweep_labelled-filter deletes rows items [] e = sym (filter-unlabelled deletes rows items e)
sweep_labelled-filter deletes rows items (m ∷ wanted) e =
    filter-kept deletes (is_stale (live_ids (m ∷ wanted) rows)) (is_orphan rows) items
      (stale-orphan (m ∷ wanted) rows items (λ x h. subst (λ l. elem x l ≡ true) e h))

-- Where the cluster can be asked, the sweep has no deletion accepted for exactly the sandboxes that
-- carry no meeting, those whose meeting is live, and those whose deletion is refused.
pub sweep_orphaned_sandboxes-filter :
    (deletes : String → Bool) (rows : List MeetingRow) (items : List Item)
    → (sweep_orphaned_sandboxes deletes rows (some items)).0
      ≡ filter (λ i. not (is_orphan rows i && deletes i.name)) items
unfolding sweep_orphaned_sandboxes
sweep_orphaned_sandboxes-filter deletes rows items =
    sweep_labelled-filter deletes rows items (labels_of items) refl

terminate-dead : (r : MeetingRow) → is_live (terminate r) ≡ false
unfolding terminate
terminate-dead r =
    if_cases (λ x. is_live x ≡ false) (is_live r)
      {x = record r { status = "terminated"; terminated = true }} {y = r} (λ _. refl) (λ h. h)

and_dead : (a b c : Bool) → b ≡ false → not c ≡ true → not (a && b || c) ≡ true
and_dead a b c e f = ground (arith, e, f)

reaped_over : (rows : List MeetingRow) (m : String) → is_over (map terminate rows) m ≡ true
reaped_over [] m = refl
reaped_over (r ∷ rows) m =
    and_dead ((terminate r).id == m) (is_live (terminate r))
      (any (λ x. x.id == m && is_live x) (map terminate rows)) (terminate-dead r)
      (reaped_over rows m)

unlabelled_left :
    (deletes : String → Bool) (rows : List MeetingRow) (items : List Item)
    → ((name : String) → deletes name ≡ true)
    → ((m : String) → is_over rows m ≡ true)
    → All (λ i. meeting_of i ≡ none) (filter (λ i. not (is_orphan rows i && deletes i.name)) items)
unlabelled_left deletes rows [] d o = tt
unlabelled_left deletes rows (i ∷ items) d o = elim (Option-cases (meeting_of i)) [
  | inl n ↦ rw n (n, unlabelled_left deletes rows items d o)
  | inr (m, e) ↦ rw (e, o m, d i.name) (unlabelled_left deletes rows items d o)
]

-- When the backend starts it reaps the abandoned meetings and then sweeps: if the cluster can be
-- asked and accepts deletions, every Sandbox of its list that carries a meeting has its deletion
-- accepted.
pub sweep_orphaned_sandboxes-reap_abandoned_meetings :
    (deletes : String → Bool) (rows : List MeetingRow) (items : List Item)
    → ((name : String) → deletes name ≡ true)
    → All
        (λ i. meeting_of i ≡ none)
        (sweep_orphaned_sandboxes deletes (reap_abandoned_meetings rows).0 (some items)).0
unfolding reap_abandoned_meetings
sweep_orphaned_sandboxes-reap_abandoned_meetings deletes rows items d =
    subst (All (λ i. meeting_of i ≡ none))
      (sym (sweep_orphaned_sandboxes-filter deletes (map terminate rows) items))
      (unlabelled_left deletes (map terminate rows) items d (reaped_over rows))
