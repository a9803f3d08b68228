-- ===== src/Proxy.antt =====
-- internal/compat/proxy.go: the requests that the proxy lets through to a provider. A number in
-- floating point is a parameter type `F` with its comparisons; JSON decoding is a parameter too.
pub mod Messages
pub mod Stream
pub mod Guards
use auto_gardener.Base.{
  Bool, List, Option, [], drop, false, if◌then◌else◌, is_nil, leb, length, ltb, none, not, some,
  take, true, ℕ, ◌&&◌, ◌++◌, ◌==◌, ◌||◌, ◌∷◌,
}
use auto_gardener.Text.{Text, equal_fold, has_prefix, text_eq, text_of, to_lower, trim_space}
use auto_gardener.Text.Number.{ℤ}
use auto_gardener.Text.Split.{split_on, trim_by}

pub record ProviderSpec : Type 0 where
  pub name : Text
  pub base_url : Text
  pub supports_stream_usage : Bool
  pub supports_parallel_tool : Bool

pub record ResponseTool : Type 0 where
  pub kind : Text
  pub name : Text
  pub description : Text
  pub parameters : Text

-- A tool choice is JSON that is passed on, the input is JSON that Messages takes apart.
pub record ResponseRequest (F : Type 0) : Type 0 where
  pub model : Text
  pub instructions : Text
  pub input : Text
  pub tools : List ResponseTool
  pub tool_choice : Option Text
  pub parallel_tool_calls : Bool
  pub temperature : Option F
  pub top_p : Option F
  pub max_output_tokens : Option ℤ

-- What the decoder makes of a body that is cut off at the limit.
pub data Body (F : Type 0) : Type 0 where
  decoded : ResponseRequest F → Body F
  cut_off malformed : Body F

-- An HTTP request; the length is missing where the client does not give it.
pub record ProxyRequest (F : Type 0) : Type 0 where
  pub method : Text
  pub path : Text
  pub authorization : Text
  pub content_length : Option ℕ
  pub body : Body F

-- A status with a message, or the request that goes to the provider with its token.
pub data Reply (F : Type 0) : Type 0 where
  method_not_allowed not_found : Reply F
  unauthorized too_large bad_request : Text → Reply F
  forwarded : ProviderSpec → Text → ResponseRequest F → Reply F

unfoldable pub minimax_spec : ProviderSpec
unfolding text_of
minimax_spec = record {
  name = text_of "MiniMax";
  base_url = text_of "https://api.minimaxi.com/v1";
  supports_stream_usage = false;
  supports_parallel_tool = false;
}

unfoldable pub kimi_spec : ProviderSpec
unfolding text_of
kimi_spec = record {
  name = text_of "Kimi Coding";
  base_url = text_of "https://api.kimi.com/coding/v1";
  supports_stream_usage = true;
  supports_parallel_tool = true;
}

unfoldable pub providers : Text → Option ProviderSpec
unfolding text_of text_eq minimax_spec kimi_spec
providers name =
    if text_eq name (text_of "minimax")
    then some minimax_spec
    else if text_eq name (text_of "kimi")
    then some kimi_spec
    else none

unfoldable pub bearer_token : Text → Text
unfolding text_of trim_space to_lower has_prefix
bearer_token raw =
    let header = trim_space raw in
    if has_prefix (to_lower header) (text_of "bearer ") then trim_space (drop 7 header) else header

abbrev pub max_compat_proxy_body_bytes : ℕ
max_compat_proxy_body_bytes = 8388608

-- The provider that the path names: `/<provider>/v1/responses`.
provider_part : List Text → Option Text
unfolding text_of text_eq
provider_part (name ∷ version ∷ endpoint ∷ more) =
    if text_eq version (text_of "v1") && text_eq endpoint (text_of "responses")
    then some name
    else none
provider_part _ = none

unfoldable pub provider_of : Text → Option ProviderSpec
unfolding provider_part providers split_on trim_by
provider_of path = elim (provider_part (split_on b'/' (trim_by (λ c. c == b'/') path))) [
  | none ↦ none
  | some name ↦ providers name
]

unfoldable pub is_over : Option ℕ → Bool
is_over none = false
is_over (some n) = ltb max_compat_proxy_body_bytes n

module _ {F : Type 0} (below above : F → ℕ → Bool) where
  out_of_range : ℕ → Option F → Bool
  out_of_range limit none = false
  out_of_range limit (some x) = below x 0 || above x limit

  unfoldable pub validate_sampling_params : ResponseRequest F → Option Text
  unfolding out_of_range text_of
  validate_sampling_params q =
      if out_of_range 2 q.temperature
      then some (text_of "temperature must be between 0 and 2")
      else if out_of_range 1 q.top_p
      then some (text_of "top_p must be between 0 and 1")
      else none

  unfoldable pub check_params : ProviderSpec → Text → ResponseRequest F → Reply F
  unfolding validate_sampling_params
  check_params spec token q = elim (validate_sampling_params q) [
    | some text ↦ bad_request text
    | none ↦ forwarded spec token q
  ]

  unfoldable pub check_body : ProviderSpec → Text → Body F → Reply F
  unfolding text_of
  check_body spec token cut_off = too_large (text_of "responses request body too large")
  check_body spec token malformed = bad_request (text_of "invalid responses request")
  check_body spec token (decoded q) = check_params spec token q

  unfoldable pub check_request : ProviderSpec → ProxyRequest F → Reply F
  unfolding text_of
  check_request spec r =
      if is_nil (bearer_token r.authorization)
      then unauthorized (text_of "missing provider token")
      else if is_over r.content_length
      then too_large (text_of "responses request body too large")
      else check_body spec (bearer_token r.authorization) r.body

  unfoldable pub handle : ProxyRequest F → Reply F
  unfolding text_of text_eq
  handle r =
      if not (text_eq r.method (text_of "POST"))
      then method_not_allowed
      else (elim (provider_of r.path) [ none ↦ not_found | some spec ↦ check_request spec r ])

-- The redirects of the client: the first request's host is kept.
unfoldable pub same_redirect_host : Text → Text → Bool
unfolding equal_fold
same_redirect_host a b = equal_fold a b

unfoldable pub check_redirect : Text → List Text → Bool
unfolding same_redirect_host
check_redirect host [] = true
check_redirect host (first ∷ more) = same_redirect_host host first

abbrev pub max_proxy_error_message_runes : ℕ
max_proxy_error_message_runes = 1000

unfoldable pub limit_proxy_error_message : Text → Text
unfolding trim_space text_of
limit_proxy_error_message raw =
    let chars = trim_space raw in
    if leb (length chars) max_proxy_error_message_runes
    then chars
    else take max_proxy_error_message_runes chars ++ text_of "…"
