-- ===== src/Executor/Event.antt =====
-- The text of the events that are emitted for a run: emitEvent of internal/engine/executor.go.
use Prim.Native.String.{String, ◌++◌}
use resource_action_operator.Prelude.{suc, ◌≡◌, refl, Option, none, some, Error}
use resource_action_operator.Prelude.Int.{ℤ, pos, negsuc}
use resource_action_operator.Prelude.Text.{itoa}
use resource_action_operator.Api.{ExecutionRecord}
use resource_action_operator.Std.{Std}

-- The verb %d.
unfoldable pub int_text : ℤ → String
unfolding itoa
int_text (pos n) = itoa n
int_text (negsuc n) = "-" ++ itoa (suc n)

abbrev with_error : Std → Option Error → String → String
with_error std none message = message
with_error std (some e) message = message ++ " error=" ++ std.error_text e

unfoldable pub event_message : Std → ExecutionRecord → Option Error → String
unfolding int_text
event_message std exec e = with_error std e (
    "event="
    ++ exec.event
    ++ " actions="
    ++ int_text exec.action_count
    ++ " attempts="
    ++ int_text exec.attempts
    ++ " retries="
    ++ int_text exec.retry_count
    ++ " networkRetries="
    ++ int_text exec.network_retry_count
    ++ " statusRetries="
    ++ int_text exec.status_retry_count
    ++ " backoffMs="
    ++ int_text exec.backoff_millis
    ++ " durationMs="
    ++ int_text exec.duration_millis
    ++ " status="
    ++ int_text exec.last_http_status)

int_text_example : int_text (negsuc 499) ≡ "-500"
unfolding int_text itoa
int_text_example = refl
