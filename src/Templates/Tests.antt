-- ===== src/Templates/Tests.antt =====
-- Examples of the requests for meeting templates (templates.py).
use meetings.Prelude.{◌≡◌, refl, true, false, none, some, List, [], ◌∷◌}
use meetings.Dict.{get, put, string_eq}
use meetings.Templates.{
  Template, Table, TemplateUpdate, Request, updates, deletes, edited, serve_all,
}
use meetings.Templates.Builtin.{serve_all-get}

abbrev board_template : Template
board_template = record {
  name = "Board";
  description = none;
  brief = none;
  objective = none;
  expectations = none;
  agenda = none;
  default_selected_attendee_ids = [];
  default_document_ids = [];
  is_builtin = true;
}

abbrev renaming : TemplateUpdate
renaming = record {
  name = some (some "Mine");
  description = none;
  brief = none;
  objective = none;
  expectations = none;
  agenda = none;
  default_selected_attendee_ids = none;
  is_builtin = some (some true);
}

abbrev table : Table
table = ("b", board_template) ∷ ("own", record board_template { is_builtin = false }) ∷ []

board_found : get "b" table ≡ some board_template
unfolding get
board_found = refl

abbrev requests : List Request
requests = updates "b" renaming ∷ updates "own" renaming ∷ deletes "b" ∷ []

serve_all-get_example : get "b" (serve_all requests table) ≡ some board_template
serve_all-get_example =
    serve_all-get requests "b" board_template table refl (tt, (tt, (tt, tt))) board_found

-- An edit that says so makes a template built in: it can no longer be deleted.
locked :
    get "own" (serve_all (updates "own" renaming ∷ deletes "own" ∷ []) table)
    ≡ some (record board_template { name = "Mine" })
unfolding serve_all get put edited
locked = refl
