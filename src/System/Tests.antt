-- ===== src/System/Tests.antt =====
-- Examples of the setup guard's status (system.py).
use Prim.Native.String.{String}
use meetings.Prelude.{◌≡◌, refl, true, not, some, [], ◌∷◌}
use meetings.Text.{is_some}
use meetings.System.{
  untagged, model_is_served, Environment, Endpoint, fetched, listed, named, personas, system_status,
}
use meetings.System.Ready.{is_empty, system_status-ready}

-- A model with another tag than the one that is asked for.
other_tag : model_is_served "llama:7b" ("llama:70b" ∷ []) ≡ true
unfolding model_is_served untagged
other_tag = refl

abbrev same_text : String → String
same_text s = s

abbrev serving : Endpoint
serving = record {
  url = some "http://models";
  model_name = some "phi";
  answer = fetched (listed (named "phi:latest" ∷ []));
}

abbrev seeded : Environment
seeded = record {
  database_url = some "postgres://db";
  probe = personas 7;
  inference = serving;
  embedding = serving;
}

seeded_ready : (system_status same_text seeded).ready ≡ true
unfolding system_status untagged model_is_served
seeded_ready = refl

system_status-ready_example :
    ((system_status same_text seeded).ready ≡ is_empty (system_status same_text seeded).reasons)
    × (is_some (system_status same_text seeded).remediation
        ≡ not (system_status same_text seeded).ready)
system_status-ready_example = system_status-ready same_text seeded
