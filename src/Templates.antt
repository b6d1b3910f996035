-- ===== src/Templates.antt =====
-- backend/app/api/routes/templates.py: the requests that read, create, edit and delete meeting
-- templates, over the table of their rows. A new row's id is drawn by the database layer. In an edit
-- `none` is a field that the request leaves out, and `some none` one that it sets to null.
pub mod Builtin
mod Tests
use meetings.Prelude.{
  String, ◌==◌, Bool, true, false, Option, none, some, List, [], ◌∷◌, map, if◌then◌else◌,
}
use meetings.Dict.{Dict, get, put, remove, string_eq}
use meetings.Internal.{Answer, success, http_error}

-- MeetingTemplate (models/meetings.py)
pub record Template : Type 0 where
  pub name : String
  pub description : Option String
  pub brief : Option String
  pub objective : Option String
  pub expectations : Option String
  pub agenda : Option String
  pub default_selected_attendee_ids : List String
  pub default_document_ids : List String
  pub is_builtin : Bool

abbrev pub Table : Type 0
Table = Dict String Template

-- MeetingTemplateUpdate (domain/meetings.py)
pub record TemplateUpdate : Type 0 where
  pub name : Option (Option String)
  pub description : Option (Option String)
  pub brief : Option (Option String)
  pub objective : Option (Option String)
  pub expectations : Option (Option String)
  pub agenda : Option (Option String)
  pub default_selected_attendee_ids : Option (Option (List String))
  pub is_builtin : Option (Option Bool)

abbrev changed {ℓ} : {A : Type ℓ} → Option A → A → A
changed none old = old
changed (some new) old = new

-- A column that may not be null: the commit fails where it is set to null.
abbrev required {ℓ} : {A : Type ℓ} → Option (Option A) → A → Option A
required none old = some old
required (some new) old = new

-- The row after the edit, or none where the commit fails.
unfoldable pub edited : TemplateUpdate → Template → Option Template
edited u t = elim (required u.name t.name) [
  | none ↦ none
  | some name ↦ elim (required u.default_selected_attendee_ids t.default_selected_attendee_ids) [
    | none ↦ none
    | some attendees ↦ elim (required u.is_builtin t.is_builtin) [
      | none ↦ none
      | some builtin ↦ some (record {
        name = name;
        description = changed u.description t.description;
        brief = changed u.brief t.brief;
        objective = changed u.objective t.objective;
        expectations = changed u.expectations t.expectations;
        agenda = changed u.agenda t.agenda;
        default_selected_attendee_ids = attendees;
        default_document_ids = t.default_document_ids;
        is_builtin = builtin;
      })
    ]
  ]
]

-- create_template, where the row's id is `id`
unfoldable pub create_template : String → Template → Table → Answer Template × Table
create_template id template t = (success template, put id template t)

-- get_template
unfoldable pub get_template : String → Table → Answer Template
get_template id t = elim (get id t) [
  | none ↦ http_error 404 "Template not found"
  | some template ↦ success template
]

saved : String → Option Template → Table → Answer Template × Table
saved id none t = (http_error 500 "Internal Server Error", t)
saved id (some template) t = (success template, put id template t)

-- update_template
unfoldable pub update_template : String → TemplateUpdate → Table → Answer Template × Table
unfolding edited saved
update_template id u t = elim (get id t) [
  | none ↦ (http_error 404 "Template not found", t)
  | some template ↦
      if template.is_builtin
      then (http_error 403 "Built-in templates cannot be edited", t)
      else saved id (edited u template) t
]

-- delete_template
unfoldable pub delete_template : String → Table → Answer String × Table
delete_template id t = elim (get id t) [
  | none ↦ (http_error 404 "Template not found", t)
  | some template ↦
      if template.is_builtin
      then (http_error 403 "Built-in templates cannot be deleted", t)
      else (success "Template deleted", remove id t)
]

-- A request that can change the table.
pub data Request : Type 0 where
  creates : String → Template → Request
  updates : String → TemplateUpdate → Request
  deletes : String → Request

unfoldable pub serve : Request → Table → Table
unfolding create_template update_template delete_template
serve (creates id template) t = (create_template id template t).1
serve (updates id u) t = (update_template id u t).1
serve (deletes id) t = (delete_template id t).1

unfoldable pub serve_all : List Request → Table → Table
unfolding serve
serve_all [] t = t
serve_all (r ∷ rs) t = serve_all rs (serve r t)
