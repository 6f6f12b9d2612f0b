-- ===== src/Http/Execute.antt =====
-- ExecuteWithMetrics (internal/engine/http_executor.go): an HTTP action, from its specification to
-- the metrics and the error.
pub mod Outcome
pub mod Frame
pub mod Headers
pub mod Valid
use resource_action_operator.Prelude.{
  ℕ, zero, suc, ◌*◌, String, Option, none, some, List, [], ◌∷◌, Bool, true, false, ◌==◌, is_empty,
  Result, ok, err, Check, ◌>>=◌, ◌>>◌, wrap, if◌then◌else◌, expected_status_regex,
  attempts_exhausted,
}
use resource_action_operator.Prelude.Int.{ℤ, pos, negsuc, sub_ℕ}
use resource_action_operator.Api.{ActionSpec, RetrySpec, TemplateSpec}
use resource_action_operator.Std.{Std, Unstructured}
use resource_action_operator.Runtime.{Runtime, Transport, Request}
use resource_action_operator.Http.Backoff.{millisecond, second, parse_duration_default}
use resource_action_operator.Http.Policy.{validate_target_url}
use resource_action_operator.Http.Transport.{build_transport}
use resource_action_operator.Http.Attempts.{
  HttpExecutionMetrics, no_metrics, Call, Ended, returned, exhausted, attempts_from,
}

-- The retry settings: the defaults, and what action.Retry overrides.
abbrev pub attempts_of : ℤ → ℕ
attempts_of (pos (suc n)) = suc n
attempts_of _ = 1

unfoldable pub max_attempts : Option RetrySpec → ℕ
max_attempts none = 1
max_attempts (some retry) = attempts_of retry.max_attempts

unfoldable pub backoff_base : Std → Option RetrySpec → ℤ
unfolding parse_duration_default
backoff_base std none = pos (500 * millisecond)
backoff_base std (some retry) = parse_duration_default std retry.backoff (pos (500 * millisecond))

unfoldable pub max_backoff : Std → Option RetrySpec → ℤ
unfolding parse_duration_default
max_backoff std none = pos (10 * second)
max_backoff std (some retry) = parse_duration_default std retry.max_backoff (pos (10 * second))

abbrev pub bool_or : Bool → Option Bool → Bool
bool_or d none = d
bool_or d (some b) = b

unfoldable pub retry_on_network : Option RetrySpec → Bool
retry_on_network none = true
retry_on_network (some retry) = bool_or true retry.retry_on_network_error

abbrev pub default_retry_status : List ℤ
default_retry_status = pos 429 ∷ pos 500 ∷ pos 502 ∷ pos 503 ∷ pos 504 ∷ []

unfoldable pub retry_on_status : Option RetrySpec → List ℤ
retry_on_status none = default_retry_status
retry_on_status (some retry) =
    if is_empty retry.retry_on_status then default_retry_status else retry.retry_on_status

-- An empty field takes its default.
abbrev pub text_or : String → String → String
text_or d s = if s == "" then d else s

unfoldable pub expected_pattern : ActionSpec → String
expected_pattern action = text_or "^2..$" action.expected_status

-- req.Header.Set: the key in its canonical form has this value alone.
abbrev pub replace_header : String → String → List (String × String) → List (String × String)
replace_header k v [] = (k, v) ∷ []
replace_header k v ((j, u) ∷ headers) =
    if j == k then (k, v) ∷ headers else (j, u) ∷ replace_header k v headers

unfoldable pub set_header : Std → String → String → List (String × String) → List (String × String)
set_header std key value headers = replace_header (std.canonical_header key) value headers

unfoldable pub set_headers :
    Std → List (String × String) → List (String × String) → List (String × String)
unfolding set_header
set_headers std [] headers = headers
set_headers std ((k, v) ∷ rest) headers = set_headers std rest (set_header std k v headers)

unfoldable pub request_headers : Std → List (String × String) → String → List (String × String)
unfolding set_headers
request_headers std headers body =
    let own = set_headers std headers [] in
    if body == "" then own else set_header std "Content-Type" "application/json" own

unfoldable pub render_body : Std → Option TemplateSpec → Unstructured → Result String
render_body std none obj = ok ""
render_body std (some body) obj =
    if body.template == ""
    then ok ""
    else do execute ← std.parse_template body.template; execute obj.object

module _ {W : Type 0} (std : Std) (rt : Runtime W) where
  -- What is checked between the transport and the loop.
  unfoldable pub prepare :
      ActionSpec → Unstructured → List (String × String) → ℕ → Transport → Result Call
  unfolding max_attempts backoff_base max_backoff retry_on_network retry_on_status expected_pattern
      request_headers render_body parse_duration_default
  prepare action obj headers started_at transport = do
    body ← render_body std action.body obj
    expected ← wrap expected_status_regex (std.compile (expected_pattern action))
    validate_target_url std action.url action.url_policy
    ok (record {
      transport = transport;
      timeout = parse_duration_default std action.timeout (pos (10 * second));
      request = record {
        method = text_or "POST" action.method;
        url = action.url;
        headers = request_headers std headers body;
        body = body;
      };
      expected = expected;
      max_attempts = max_attempts action.retry;
      backoff_base = backoff_base std action.retry;
      max_backoff = max_backoff std action.retry;
      retry_on_network = retry_on_network action.retry;
      retry_on_status = retry_on_status action.retry;
      started_at = started_at;
    })

  -- The end of the function, behind the loop.
  abbrev pub behind_loop : Call → Ended × W → (HttpExecutionMetrics × Check) × W
  behind_loop call (returned m r, w) = ((m, r), w)
  behind_loop call (exhausted m, w) =
      let (now, w') = rt.clock w in
      (
        (
          record m { duration_millis = sub_ℕ now call.started_at },
          err (attempts_exhausted call.max_attempts),
        ),
        w',
      )

  abbrev pub run_call : Result Call → W → (HttpExecutionMetrics × Check) × W
  run_call (err e) w = ((no_metrics, err e), w)
  run_call (ok call) w =
      behind_loop call (attempts_from std rt call call.max_attempts 1 no_metrics w)

  unfoldable pub execute_with_metrics :
      ActionSpec
      → String
      → Unstructured
      → List (String × String)
      → W
      → (HttpExecutionMetrics × Check) × W
  unfolding prepare attempts_from
  execute_with_metrics action namespace obj headers w =
      let (started_at, w') = rt.clock w in
      let (transport, w'') = build_transport std rt namespace action.tls w' in
      run_call (transport >>= prepare action obj headers started_at) w''

  -- Execute: the error alone.
  unfoldable pub execute_http :
      ActionSpec → String → Unstructured → List (String × String) → W → Check × W
  unfolding execute_with_metrics
  execute_http action namespace obj headers w =
      let ((m, r), w') = execute_with_metrics action namespace obj headers w in (r, w')
