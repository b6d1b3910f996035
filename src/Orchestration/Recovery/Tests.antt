-- ===== src/Orchestration/Recovery/Tests.antt =====
-- Examples of recover_speaker_id (recovery.py).
use meetings.Prelude.{String, none, [], ◌∷◌}
use meetings.Dict.{Dict}
use meetings.Orchestration.State.{Role}

abbrev same : String → String
same s = s

abbrev role : Role
role = record {
  display_name = "Ada";
  title = "Chief";
  department = "Research";
  default_tools = none;
}

abbrev attendees : Dict String Role
attendees = ("a", role) ∷ []
