-- ===== src/Orchestration/Recovery/Speaker.antt =====
-- Whom recover_speaker_id (recovery.py) can name.
use Prim.Native.String.{count}
use meetings.Prelude.{
  String, ◌≡◌, refl, ◌⊎◌, inl, inr, ◌==◌, eq_iff, true, Option, none, some, List, [], ◌∷◌, elem,
  arith, if_cases, ltb,
}
use meetings.Dict.{Dict, has_key, string_eq}
use meetings.Text.{strip}
use meetings.Orchestration.State.{Role}
use meetings.Orchestration.Recovery.{
  min_fuzzy_match_len, finish, unambiguous, fuzzy_matches, recover_speaker_id,
}

module _ (lower upper : String → String) where
  fuzzy-has_key :
      (needle x : String) (l : Dict String Role)
      → elem x (fuzzy_matches lower upper needle l) ≡ true
      → has_key x l ≡ true
  unfolding fuzzy_matches has_key
  fuzzy-has_key needle x [] h = absurd (cc)
  fuzzy-has_key needle x ((aid, a) ∷ l) h =
      ground (arith, fuzzy-has_key needle x l, eq_iff x aid, eq_iff aid x)

  unambiguous_cases : (l : List String) → (unambiguous l ≡ finish) ⊎ (elem (unambiguous l) l ≡ true)
  unfolding unambiguous
  unambiguous_cases [] = inl refl
  unambiguous_cases (a ∷ []) = inr (ground (arith, eq_iff a a))
  unambiguous_cases (a ∷ b ∷ l) = inl refl

  abbrev pub IsNamed : List String → Dict String Role → String → Type 0
  IsNamed valid attendees x = (x ≡ finish) ⊎ ((elem x valid ≡ true) ⊎ (has_key x attendees ≡ true))

  -- Whatever the model wrote, the answer is FINISH, one of the valid ids, or an attendee's id.
  pub recover_speaker_id-IsNamed :
      (raw : Option String) (valid : List String) (attendees : Dict String Role)
      → IsNamed valid attendees (recover_speaker_id lower upper raw valid attendees)
  unfolding recover_speaker_id
  recover_speaker_id-IsNamed none valid attendees = inl refl
  recover_speaker_id-IsNamed (some raw) valid attendees =
      let c = strip raw in
      let P = λ (x : String). IsNamed valid attendees x in
      if_cases P (c == "") (λ _. inl refl)
        λ _.
          if_cases P (elem c valid) (λ h. inr (inl h))
            λ _.
              if_cases P (upper c == finish) (λ _. inl refl)
                λ _.
                  if_cases P (ltb (count (lower c)) min_fuzzy_match_len) (λ _. inl refl)
                    λ _.
                      fuzzy_IsNamed (lower c) (fuzzy_matches lower upper (lower c) attendees) refl
    where
      fuzzy_IsNamed :
          (needle : String) (l : List String)
          → fuzzy_matches lower upper needle attendees ≡ l
          → IsNamed valid attendees (unambiguous l)
      fuzzy_IsNamed needle l e = elim (unambiguous_cases l) [
        | inl y ↦ inl y
        | inr m ↦ inr (inr (fuzzy-has_key needle (unambiguous l) attendees (rw e m)))
      ]

  -- The answer for a text that is no valid id: FINISH, or the only attendee whose name, title or id
  -- contains it. An ambiguous text never picks a speaker.
  abbrev pub IsUnambiguous : Dict String Role → String → String → Type 0
  IsUnambiguous attendees needle x =
      (x ≡ finish) ⊎ (fuzzy_matches lower upper needle attendees ≡ x ∷ [])
