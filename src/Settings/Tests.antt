-- ===== src/Settings/Tests.antt =====
-- Reads and writes of the settings, an endpoint's address, and calls of an embedding model.
use meetings.Prelude.{String, ◌≡◌, refl, ◌==◌, Bool, false, none, [], ◌∷◌, List}
use meetings.Text.{is_space}
use meetings.Settings.{
  Tunables, SettingsState, SettingsAccess, reads, writes, IsCoherent, access_all, load_tunables,
  or_defaults, normalize_v1_endpoint, access_all-load_tunables,
}
use meetings.Settings.Embedding.{
  Embedded, raised, IsLearned, wrap_embedding_call, wrap_embedding_call-IsLearned,
}

abbrev default_tunables : Tunables
default_tunables = ("default_turn_limit", "50") ∷ []

abbrev is_turn_limit : String → Bool
is_turn_limit k = k == "default_turn_limit"

abbrev fresh_settings : SettingsState
fresh_settings = record { row = none; cache = none; version = 0 }

fresh-IsCoherent : IsCoherent default_tunables is_turn_limit fresh_settings
unfolding IsCoherent
fresh-IsCoherent t e = absurd (cc)

abbrev three_accesses : List (SettingsAccess default_tunables is_turn_limit)
three_accesses =
    reads
    ∷ writes (("default_turn_limit", "20") ∷ [])
    ∷ writes (("inference_api_key", "x") ∷ [])
    ∷ []

access_all-load_tunables_example :
    (load_tunables default_tunables is_turn_limit
      (access_all default_tunables is_turn_limit three_accesses fresh_settings)).0
    ≡ or_defaults default_tunables
        (access_all default_tunables is_turn_limit three_accesses fresh_settings).row
access_all-load_tunables_example =
    access_all-load_tunables default_tunables is_turn_limit three_accesses fresh_settings
      fresh-IsCoherent

abbrev lower_case : String → String
lower_case s = s

bare_host :
    normalize_v1_endpoint lower_case "http://localhost:11434/ " ≡ "http://localhost:11434/v1"
unfolding normalize_v1_endpoint is_space
bare_host = refl

abbrev demanding : Embedded
demanding = raised "input_type is required"

wrap_embedding_call-IsLearned_example :
    IsLearned lower_case
      (λ told. demanding)
      false
      "query"
      (wrap_embedding_call lower_case (λ told. demanding) false "query")
wrap_embedding_call-IsLearned_example =
    wrap_embedding_call-IsLearned lower_case (λ told. demanding) false "query"
