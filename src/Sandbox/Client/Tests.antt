-- ===== src/Sandbox/Client/Tests.antt =====
-- Examples of a stream between a sandbox and the backend (client.py).
use Prim.Native.String.{String}
use meetings.Prelude.{◌==◌, ◌≡◌, refl, none, some, List, arith, if◌then◌else◌}
use meetings.Text.{after_prefix, strip, is_space}
use meetings.Sandbox.Client.{any_code, Json, IsSent, sse_body, stream_turn}
use meetings.Sandbox.Client.Lines.{split_lines, httpx}
use meetings.Sandbox.Client.Streams.{stream_turn-sse_body}

-- Events that are their JSON.
abbrev json : Json String String
json = record { model_dump_json = λ t. t; model_validate = λ t. some t; wire = λ t. t }

event-IsSent : IsSent json httpx "{\"text\": \"Hello\"}"
unfolding any_code
event-IsSent = record {
  inner = "\"text\": \"Hello\"";
  object = refl;
  one_line = refl;
  reads = refl;
}

stream_turn-sse_body_example :
    stream_turn json httpx (record {
      status = 200;
      body = sse_body json (List.◌∷◌ "{\"text\": \"Hello\"}" List.[]);
      breaks = none;
    })
    ≡ (List.◌∷◌ "{\"text\": \"Hello\"}" List.[], none)
stream_turn-sse_body_example =
    stream_turn-sse_body json httpx 200 none (List.◌∷◌ "{\"text\": \"Hello\"}" List.[])
      (omega arith) (omega arith) (event-IsSent, tt)

-- What reads an object's text only.
abbrev strict_json : Json String String
strict_json = record {
  model_dump_json = λ t. t;
  model_validate = λ t. if t == "{\"text\": \"a\u{2028}b\"}" then some t else none;
  wire = λ t. t;
}

-- An event whose text holds a line separator, which JSON leaves as it is, is not read.
separator_lost :
    stream_turn strict_json httpx (record {
      status = 200;
      body = sse_body strict_json (List.◌∷◌ "{\"text\": \"a\u{2028}b\"}" List.[]);
      breaks = none;
    })
    ≡ (List.[], none)
unfolding stream_turn sse_body split_lines after_prefix strip is_space
separator_lost = refl
