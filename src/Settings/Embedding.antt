-- ===== src/Settings/Embedding.antt =====
-- backend/app/services/embedding_service.py: the calls of an embedding model that may need to be told
-- the type of its input. What the endpoint answers to a call is a parameter: of the type it is told, if
-- any, the vectors or an exception. So is str.lower.
use meetings.Prelude.{
  ◌≤◌, String, ◌≡◌, refl, Bool, true, false, not, ◌&&◌, Option, none, some, List, [], ◌∷◌, length,
  arith, if◌then◌else◌, if_cases,
}
use meetings.Text.{contains}

-- What a call gives.
pub data Embedded : Type 0 where
  vectors : List String → Embedded
  raised : String → Embedded

-- The result of a request, the input types that its calls were told, and whether the model is known
-- to need one.
pub record Wrapped : Type 0 where
  pub result : Embedded
  pub told : List (Option String)
  pub asymmetric : Bool

module _ (lower : String → String) (endpoint : Option String → Embedded) where
  -- _is_missing_input_type_error
  unfoldable pub is_missing_input_type_error : String → Bool
  unfolding contains
  is_missing_input_type_error e = contains "input_type" (lower e) && contains "required" (lower e)

  -- get_embedding_model: what the model is told
  abbrev pub input_of : Bool → String → Option String
  input_of asymmetric input_type = if asymmetric then some input_type else none

  retried : Bool → String → Embedded → Wrapped
  unfolding is_missing_input_type_error
  retried asymmetric input_type (vectors v) = record {
    result = vectors v;
    told = input_of asymmetric input_type ∷ [];
    asymmetric = asymmetric;
  }
  retried asymmetric input_type (raised e) =
      if is_missing_input_type_error e && not asymmetric
      then record {
        result = endpoint (some input_type);
        told = none ∷ some input_type ∷ [];
        asymmetric = true;
      }
      else record {
        result = raised e;
        told = input_of asymmetric input_type ∷ [];
        asymmetric = asymmetric;
      }

  -- _wrap_embedding_call, for an input type that is not empty
  unfoldable pub wrap_embedding_call : Bool → String → Wrapped
  unfolding retried
  wrap_embedding_call asymmetric input_type =
      retried asymmetric input_type (endpoint (input_of asymmetric input_type))

  -- What a request may be: at most two calls, and once a model is known to need the type of its input,
  -- one call, which is told it.
  abbrev pub IsLearned : Bool → String → Wrapped → Type 0
  IsLearned true input_type w = (w.told ≡ some input_type ∷ []) × (w.asymmetric ≡ true)
  IsLearned false input_type w = length w.told ≤ 2

  retried-IsLearned :
      (asymmetric : Bool) (input_type : String) (r : Embedded)
      → IsLearned asymmetric input_type (retried asymmetric input_type r)
  unfolding retried
  retried-IsLearned true input_type (vectors v) = (refl, refl)
  retried-IsLearned false input_type (vectors v) = omega arith
  retried-IsLearned true input_type (raised e) =
      if_cases (IsLearned true input_type) (is_missing_input_type_error e && false)
        (λ y. absurd (ground (arith, y))) (λ n. (refl, refl))
  retried-IsLearned false input_type (raised e) =
      if_cases (IsLearned false input_type) (is_missing_input_type_error e && true)
        (λ y. omega arith) (λ n. omega arith)

  -- Whatever the endpoint answers, a request of embeddings makes at most two calls; for a model that is
  -- known to need the type of its input it makes one, which is told the type, and the model stays known.
  pub wrap_embedding_call-IsLearned :
      (asymmetric : Bool) (input_type : String)
      → IsLearned asymmetric input_type (wrap_embedding_call asymmetric input_type)
  unfolding wrap_embedding_call
  wrap_embedding_call-IsLearned asymmetric input_type =
      retried-IsLearned asymmetric input_type (endpoint (input_of asymmetric input_type))
