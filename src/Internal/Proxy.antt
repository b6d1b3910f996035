-- ===== src/Internal/Proxy.antt =====
-- backend/app/api/routes/internal.py: the model proxy. The provider is a parameter: what it replies to
-- a request; so is `lower`, Python's case mapping.
use Prim.Native.String.{◌++◌ as text_append}
use meetings.Prelude.{
  ℕ, String, ◌==◌, not, Option, none, some, List, [], ◌∷◌, filter, elem, if◌then◌else◌,
}
use meetings.Dict.{Dict}
use meetings.Text.Replace.{lstrip_slash, rstrip_slash}
use meetings.Internal.{Answer, success, http_error, present}

-- _DROP_RESPONSE_HEADERS
abbrev pub drop_response_headers : List String
drop_response_headers =
    "content-length" ∷ "content-encoding" ∷ "transfer-encoding" ∷ "connection" ∷ "keep-alive"
    ∷ "server" ∷ []

-- The headers of the request that goes to the provider.
unfoldable pub upstream_headers : Option String → Option String → Dict String String
upstream_headers content_type api_key =
    ("content-type", elim content_type [ none ↦ "application/json" | some t ↦ t ])
    ∷ (elim (present api_key) [
      | none ↦ []
      | some key ↦ ("authorization", text_append "Bearer " key) ∷ []
    ])

-- The headers of the provider's response that are handed on.
unfoldable pub response_headers : (String → String) → Dict String String → Dict String String
response_headers lower upstream =
    filter (λ e. not (elem (lower e.0) drop_response_headers)) upstream

-- A request to the provider, and what comes of it.
pub record ProxyRequest : Type 0 where
  pub url : String
  pub headers : Dict String String
  pub body : String

pub data Upstream : Type 0 where
  unreachable : String → Upstream
  replied : ℕ → Dict String String → String → Upstream

pub record Forwarded : Type 0 where
  pub status : ℕ
  pub headers : Dict String String
  pub body : String

-- _provider_url
unfoldable pub provider_url : Option String → String → Option String
unfolding rstrip_slash lstrip_slash
provider_url endpoint path =
    let base = rstrip_slash (elim endpoint [ none ↦ "" | some e ↦ e ]) in
    if base == "" then none else some (text_append base (text_append "/" (lstrip_slash path)))

module _ (lower : String → String) (provider : ProxyRequest → Upstream) where
  forward : Upstream → Answer Forwarded
  unfolding response_headers
  forward (unreachable e) = http_error 502 (text_append "Inference endpoint unreachable: " e)
  forward (replied status headers body) =
      success (record { status = status; headers = response_headers lower headers; body = body })

  -- llm_proxy
  unfoldable pub llm_proxy :
      Option String → Option String → String → Option String → String → Answer Forwarded
  unfolding forward provider_url upstream_headers
  llm_proxy endpoint api_key path content_type body = elim (provider_url endpoint path) [
    | none ↦ http_error 503 "No inference endpoint is configured"
    | some url ↦ forward (
        provider
          (record { url = url; headers = upstream_headers content_type api_key; body = body }))
  ]
