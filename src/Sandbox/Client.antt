-- ===== src/Sandbox/Client.antt =====
-- backend/app/sandbox/client.py against TurnEvent.to_sse of protocol.py: a turn's events as the text
-- of a stream. The JSON of an event, its reading, and httpx's lines are parameters, with what their
-- documents say: the JSON is an object's, it is read back as the event, and lines end at the
-- boundaries of str.splitlines, a line feed among them.
pub mod Streams
pub mod Lines
mod Tests
use Prim.Native.Char.{code}
use Prim.Native.String.{String, [], ◌∷◌, ◌++◌}
use meetings.Prelude.{
  ℕ, ◌≤◌, ◌<◌, ◌==◌, ◌≡◌, Bool, true, false, ◌&&◌, ◌||◌, Option, none, some, List, if◌then◌else◌,
  leb,
}
use meetings.Text.{after_prefix, strip}

-- A character of the text passes.
unfoldable pub any_code : (ℕ → Bool) → String → Bool
any_code p [] = false
any_code p (c ∷ s) = p (code c) || any_code p s

abbrev pub line_feed : String
line_feed = "\n"

-- TurnEvent's JSON: what the sandbox writes of an event and what the backend reads. `none` is a
-- JSONDecodeError or a ValidationError.
pub record Json (E F : Type 0) : Type 0 where
  pub model_dump_json : E → String
  pub model_validate : String → Option F
  -- the event as the backend sees it
  pub wire : E → F

-- httpx: the lines of a response's text, and the message of raise_for_status.
pub record Httpx : Type 0 where
  pub is_boundary : ℕ → Bool
  pub lines : String → List String
  pub status_error : ℕ → String
  pub printable : (c : ℕ) → 32 ≤ c → c < 127 → is_boundary c ≡ false
  pub no_lines : lines [] ≡ List.[]
  pub first_line :
      (s rest : String)
      → any_code is_boundary s ≡ false
      → lines (s ++ (line_feed ++ rest)) ≡ List.◌∷◌ s (lines rest)

-- The JSON of an event is an object's on one line, and is read back as the event.
pub record IsSent {E F : Type 0} (json : Json E F) (httpx : Httpx) (e : E) : Type 0 where
  pub inner : String
  pub object : json.model_dump_json e ≡ "{" ++ (inner ++ "}")
  pub one_line : any_code httpx.is_boundary (json.model_dump_json e) ≡ false
  pub reads : json.model_validate (json.model_dump_json e) ≡ some (json.wire e)

-- A response: its status, its text, and the exception that ends it.
pub record Response : Type 0 where
  pub status : ℕ
  pub body : String
  pub breaks : Option String

abbrev pub data_prefix : String
data_prefix = "data: "

module _ {E F : Type 0} (json : Json E F) where
  -- to_sse
  unfoldable pub to_sse : E → String
  to_sse e = data_prefix ++ (json.model_dump_json e ++ (line_feed ++ line_feed))

  -- The body that the server streams.
  unfoldable pub sse_body : List E → String
  unfolding to_sse
  sse_body List.[] = []
  sse_body (List.◌∷◌ e es) = to_sse e ++ sse_body es

  -- What a payload gives, or nothing.
  payload_event : String → Option F
  payload_event payload = if payload == "" then none else json.model_validate payload

  line_event : String → Option F
  unfolding payload_event
  line_event line = elim (after_prefix data_prefix line) [
    | none ↦ none
    | some rest ↦ payload_event (strip rest)
  ]

  unfoldable pub line_events : List String → List F
  unfolding line_event
  line_events List.[] = List.[]
  line_events (List.◌∷◌ l ls) =
      let rest = line_events ls in
      elim (line_event l) [ none ↦ rest | some event ↦ List.◌∷◌ event rest ]

  -- stream_turn: the events it yields, and the exception that it ends with.
  unfoldable pub stream_turn : Httpx → Response → List F × Option String
  unfolding line_events
  stream_turn httpx response =
      if leb 200 response.status && leb response.status 299
      then (line_events (httpx.lines response.body), response.breaks)
      else (List.[], some (httpx.status_error response.status))
