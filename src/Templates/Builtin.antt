-- ===== src/Templates/Builtin.antt =====
-- What no request changes (templates.py).
use meetings.Prelude.{
  String, ◌==◌, eq_iff, ◌≡◌, true, false, Option, none, some, List, [], ◌∷◌, All, arith, Bool-cases,
  if_cases, Option-cases, subst⁻¹, inl, inr,
}
use meetings.Dict.{get, get-put, get-remove, string_eq}
use meetings.Internal.{Answer}
use meetings.Templates.{
  Template, Table, TemplateUpdate, Request, creates, updates, deletes, edited, saved,
  create_template, update_template, delete_template, serve, serve_all,
}

-- The id that a request draws for a new row is not this one.
abbrev pub IsFresh : String → Request → Type 0
IsFresh id (creates new template) = (new == id) ≡ false
IsFresh id (updates other u) = Unit
IsFresh id (deletes other) = Unit

module _ (id : String) (b : Template) (builtin : b.is_builtin ≡ true) where
  saved-get :
      (other : String) (o : Option Template) (t : Table)
      → (other == id) ≡ false
      → get id t ≡ some b
      → get id (saved other o t).1 ≡ some b
  unfolding saved
  saved-get other none t n e = e
  saved-get other (some x) t n e = ground (arith, n, e, get-put other id x t)

  -- A request for the template itself is refused.
  update_refused :
      (u : TemplateUpdate) (t : Table) → get id t ≡ some b → (update_template id u t).1 ≡ t
  unfolding update_template
  update_refused u t e = ground (arith, e, builtin)

  delete_refused : (t : Table) → get id t ≡ some b → (delete_template id t).1 ≡ t
  unfolding delete_template
  delete_refused t e = ground (arith, e, builtin)

  -- A request for another one leaves this one.
  update_other :
      (other : String) (u : TemplateUpdate) (t : Table)
      → (other == id) ≡ false
      → get id t ≡ some b
      → get id (update_template other u t).1 ≡ some b
  unfolding update_template
  update_other other u t n e = elim (Option-cases (get other t)) [
    | inl m ↦ rw (update_template, m) e
    | inr (x, m) ↦
        rw (update_template, m)
          (if_cases (λ (r : Answer Template × Table). get id r.1 ≡ some b) x.is_builtin (λ _. e)
            (λ _. saved-get other (edited u x) t n e))
  ]

  delete_other :
      (other : String) (t : Table)
      → (other == id) ≡ false
      → get id t ≡ some b
      → get id (delete_template other t).1 ≡ some b
  unfolding delete_template
  delete_other other t n e = elim (Option-cases (get other t)) [
    | inl m ↦ rw (delete_template, m) e
    | inr (x, m) ↦ elim (Bool-cases x.is_builtin) [
      | inl y ↦ rw (delete_template, m, y) e
      | inr f ↦ rw (delete_template, m, f) (ground (arith, n, e, get-remove other id t))
    ]
  ]

  serve-get :
      (r : Request) (t : Table) → IsFresh id r → get id t ≡ some b → get id (serve r t) ≡ some b
  unfolding serve create_template
  serve-get (creates new template) t f e = ground (arith, f, e, get-put new id template t)
  serve-get (updates other u) t f e = elim (Bool-cases (other == id)) [
    | inl y ↦
        rw ((eq_iff other id).0 y) (subst⁻¹ (λ rows. get id rows ≡ some b) (update_refused u t e) e)
    | inr n ↦ update_other other u t n e
  ]
  serve-get (deletes other) t f e = elim (Bool-cases (other == id)) [
    | inl y ↦
        rw ((eq_iff other id).0 y) (subst⁻¹ (λ rows. get id rows ≡ some b) (delete_refused t e) e)
    | inr n ↦ delete_other other t n e
  ]

-- Whatever requests to create, edit or delete a template are served, in any order: a template that is
-- built in is still there and as it was, as long as no new row draws its id. Seeding, which writes the
-- built-in templates anew, is no such request.
pub serve_all-get :
    (rs : List Request) (id : String) (b : Template) (t : Table)
    → b.is_builtin ≡ true
    → All (IsFresh id) rs
    → get id t ≡ some b
    → get id (serve_all rs t) ≡ some b
unfolding serve_all
serve_all-get [] id b t builtin f e = e
serve_all-get (r ∷ rs) id b t builtin f e =
    serve_all-get rs id b (serve r t) builtin f.1 (serve-get id b builtin r t f.0 e)
