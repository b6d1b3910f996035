-- ===== src/Orchestration/Recovery/Thoughts/Tests.antt =====
-- Runs of split_thought and strip_speaker_prefix on texts.
use meetings.Prelude.{◌≡◌, refl}
use meetings.Text.{is_space}
use meetings.Orchestration.Recovery.Thoughts.Public.{
  HidesThoughts, strip_speaker_prefix-HidesThoughts,
}
use meetings.Orchestration.Recovery.Thoughts.{split_thought, strip_speaker_prefix}

split_closed :
    split_thought "<thought> a </thought> Yes. <thinking>b</thought>" ≡ ("Yes.", "a\n\nb")
unfolding split_thought is_space
split_closed = refl

split_nested : split_thought "<thou<thought>x</thought>ght>secret" ≡ ("", "x\n\nsecret")
unfolding split_thought is_space
split_nested = refl

strip_tag : strip_speaker_prefix "[Ana - CFO] Hello" ≡ "Hello"
unfolding strip_speaker_prefix is_space
strip_tag = refl

strip_speaker_prefix-HidesThoughts_example :
    HidesThoughts
      (strip_speaker_prefix (split_thought "[A - B] Hi <thou<thought>x</thought>ght>secret").0)
strip_speaker_prefix-HidesThoughts_example =
    strip_speaker_prefix-HidesThoughts "[A - B] Hi <thou<thought>x</thought>ght>secret"
