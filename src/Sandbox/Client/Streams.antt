-- ===== src/Sandbox/Client/Streams.antt =====
-- What stream_turn (client.py) reads of the text that a sandbox streams.
use Prim.Native.Char.{Char}
use Prim.Native.String.{String, [], ◌∷◌, ◌++◌}
use text.Mathlib.TextLemmas.{nil-append, cons-append, append_assoc, cons-ne-nil}
use meetings.Prelude.{
  ℕ, ◌≤◌, ◌==◌, ◌≡◌, refl, eq_iff, Bool-cases, inl, inr, sym, ap, ◌∙◌, false, Option, none, some,
  List, map, arith, All,
}
use meetings.Text.{after_prefix, strip, lstrip, rstrip, is_space, push_unless_blank}
use meetings.Sandbox.Client.{
  any_code, line_feed, data_prefix, Json, IsSent, Httpx, to_sse, sse_body, payload_event,
  line_event, line_events, stream_turn,
}

data_cons : (s : String) → data_prefix ++ s ≡ "d" ∷ "a" ∷ "t" ∷ "a" ∷ ":" ∷ " " ∷ s
data_cons s =
    cons-append "d" "ata: " s
    ∙ ap ("d" ∷◌) (
        cons-append "a" "ta: " s
        ∙ ap ("a" ∷◌) (
            cons-append "t" "a: " s
            ∙ ap ("t" ∷◌) (
                cons-append "a" ": " s
                ∙ ap ("a" ∷◌) (
                    cons-append ":" " " s
                    ∙ ap (":" ∷◌) (cons-append " " [] s ∙ ap (" " ∷◌) (nil-append s))))))

brace_cons : (s : String) → "{" ++ s ≡ "{" ∷ s
brace_cons s = cons-append "{" [] s ∙ ap ("{" ∷◌) (nil-append s)

-- The end of a text that ends in a brace is no blank.
push_solid : (c : Char) (s : String) → push_unless_blank c (s ++ "}") ≡ c ∷ (s ++ "}")
push_solid c [] = rw (nil-append "}") refl
push_solid c (d ∷ s) = rw (cons-append d s "}") refl

rstrip_brace : (s : String) → rstrip (s ++ "}") ≡ s ++ "}"
unfolding rstrip is_space
rstrip_brace [] = rw (nil-append "}") refl
rstrip_brace (c ∷ s) =
    ap rstrip (cons-append c s "}")
    ∙ (ap (push_unless_blank c) (rstrip_brace s) ∙ (push_solid c s ∙ sym (cons-append c s "}")))

strip_object : (s : String) → strip ("{" ++ (s ++ "}")) ≡ "{" ++ (s ++ "}")
unfolding strip lstrip is_space
strip_object s =
    ap (λ t. rstrip (lstrip t)) (brace_cons (s ++ "}"))
    ∙ (ap rstrip (sym (cons-append "{" s "}"))
        ∙ (rstrip_brace ("{" ∷ s) ∙ (cons-append "{" s "}" ∙ sym (brace_cons (s ++ "}")))))

object-ne-empty : (s : String) → ("{" ++ s == "") ≡ false
object-ne-empty s = elim (Bool-cases ("{" ++ s == "")) [
  | inl y ↦ absurd (cons-ne-nil "{" s (sym (brace_cons s) ∙ (eq_iff ("{" ++ s) "").0 y))
  | inr n ↦ n
]

module _ (httpx : Httpx) where
  data_line :
      (s : String)
      → any_code httpx.is_boundary s ≡ false
      → any_code httpx.is_boundary (data_prefix ++ s) ≡ false
  unfolding any_code
  data_line s h = rw (data_cons s) (
      rw
        (
          httpx.printable 100 (omega arith) (omega arith),
          httpx.printable 97 (omega arith) (omega arith),
          httpx.printable 116 (omega arith) (omega arith),
          httpx.printable 58 (omega arith) (omega arith),
          httpx.printable 32 (omega arith) (omega arith),
        )
        h)

after_data : (s : String) → after_prefix data_prefix (data_prefix ++ s) ≡ some s
unfolding after_prefix
after_data s = rw (data_cons s) refl

module _ {E F : Type 0} (json : Json E F) where
  sse_text :
      (e : E) (rest : String)
      → to_sse json e ++ rest
        ≡ (data_prefix ++ json.model_dump_json e) ++ (line_feed ++ ([] ++ (line_feed ++ rest)))
  unfolding to_sse
  sse_text e rest =
      let j = json.model_dump_json e in
      append_assoc data_prefix (j ++ (line_feed ++ line_feed)) rest
      ∙ (ap (λ t. data_prefix ++ t) (append_assoc j (line_feed ++ line_feed) rest)
          ∙ (sym (append_assoc data_prefix j ((line_feed ++ line_feed) ++ rest))
              ∙ ap (λ t. (data_prefix ++ j) ++ t)
                  (append_assoc line_feed line_feed rest
                    ∙ ap (λ t. line_feed ++ t) (sym (nil-append (line_feed ++ rest))))))

  payload_of :
      (httpx : Httpx) (e : E)
      → IsSent json httpx e
      → payload_event json (strip (json.model_dump_json e)) ≡ some (json.wire e)
  unfolding payload_event
  payload_of httpx e sent =
      let trimmed : strip (json.model_dump_json e) ≡ json.model_dump_json e =
        ap strip sent.object ∙ (strip_object sent.inner ∙ sym sent.object) in
      let solid : (json.model_dump_json e == "") ≡ false =
        ap (λ t. t == "") sent.object ∙ object-ne-empty (sent.inner ++ "}") in
      rw (trimmed, solid) sent.reads

  data_event :
      (httpx : Httpx) (e : E)
      → IsSent json httpx e
      → line_event json (data_prefix ++ json.model_dump_json e) ≡ some (json.wire e)
  unfolding line_event
  data_event httpx e sent =
      rw (line_event, after_data (json.model_dump_json e)) (payload_of httpx e sent)

  blank_event : line_event json [] ≡ none
  unfolding line_event after_prefix
  blank_event = refl

  body_events :
      (httpx : Httpx) (es : List E)
      → All (IsSent json httpx) es
      → line_events json (httpx.lines (sse_body json es)) ≡ map json.wire es
  unfolding line_events sse_body any_code
  body_events httpx List.[] h = rw (httpx.no_lines) refl
  body_events httpx (List.◌∷◌ e es) h =
      let line = data_prefix ++ json.model_dump_json e in
      let rest = sse_body json es in
      let split : httpx.lines (sse_body json (List.◌∷◌ e es))
          ≡ List.◌∷◌ line (List.◌∷◌ [] (httpx.lines rest)) =
        ap httpx.lines (sse_text e rest)
        ∙ (httpx.first_line line ([] ++ (line_feed ++ rest))
              (data_line httpx (json.model_dump_json e) h.0.one_line)
            ∙ ap (List.◌∷◌ line) (httpx.first_line [] rest refl)) in
      rw (split, line_events, data_event httpx e h.0, blank_event)
        (ap (List.◌∷◌ (json.wire e)) (body_events httpx es h.1))

  -- A turn's events that are streamed with a status of success, each event's JSON an object on
  -- one line that is read back as the event: the backend reads these events in their order, and no other, and ends as the response ends.
  pub stream_turn-sse_body :
      (httpx : Httpx) (status : ℕ) (breaks : Option String) (es : List E)
      → 200 ≤ status
      → status ≤ 299
      → All (IsSent json httpx) es
      → stream_turn json httpx
          (record { status = status; body = sse_body json es; breaks = breaks })
        ≡ (map json.wire es, breaks)
  unfolding stream_turn
  stream_turn-sse_body httpx status breaks es low high h = ground (arith, body_events httpx es h)
