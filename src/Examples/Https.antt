-- ===== src/Examples/Https.antt =====
-- The URL policy, the waits and the calls (internal/engine/http_executor.go) on concrete values.
use resource_action_operator.Prelude.{
  true, false, subst, String, List, not, ◌&&◌, ◌==◌, ◌∷◌, if◌then◌else◌, some, ◌<◌, ◌⊎◌, ℕ, ◌+◌,
  ◌-◌, ◌*◌, ◌/◌, ◌^◌, ◌≤◌, ◌≡◌, refl, ◌↔◌, arith, none, [], ok, err, Error, host_blocked_by_default,
}
use Prim.Native.Nat.{min}
use resource_action_operator.Prelude.Int.{pos}
use resource_action_operator.Prelude.Text.{to_lower}
use resource_action_operator.Std.{Url, Ip, v4}
use resource_action_operator.Examples.Sample.{
  sample_std, sample_runtime, plain_action, start_world, old_object,
}
use mathlib.Core.Option.{some-injective}
use resource_action_operator.Http.Policy.{
  validate_target_url, is_default_blocked_host, blocked_names,
}
use resource_action_operator.Http.Policy.Ranges.{
  Named, IsLocal, IsBytes, is_default_blocked_host_iff,
}
use resource_action_operator.Http.Policy.Allowed.{IsAllowed, validate_target_url_iff}
use resource_action_operator.Http.Backoff.{backoff_sleep}
use resource_action_operator.Http.Backoff.Bounds.{backoff_sleep_bounds}
use resource_action_operator.Http.Transport.{base_transport, build_transport}
use resource_action_operator.Http.Transport.Secured.{IsTransport, build_transport_iff}
use resource_action_operator.Api.{TlsSpec}
use resource_action_operator.Runtime.{Transport}
use resource_action_operator.Http.Attempts.{Call, no_metrics, attempts_from}
use resource_action_operator.Http.Attempts.Repeated.{Attempts, attempts_from-Attempts}
use resource_action_operator.Http.Execute.{execute_with_metrics, request_headers}
use resource_action_operator.Http.Execute.Headers.{
  value_after, DistinctHeaders, lookup-request_headers,
}
use resource_action_operator.Matching.{lookup}
use resource_action_operator.Http.Execute.Outcome.{Outcome, execute_with_metrics_blocked}

one_byte : 1 < 256
one_byte = omega arith

blocks_loopback :
    validate_target_url sample_std "http://127.0.0.1:8080/hook" none
    ≡ err (host_blocked_by_default "127.0.0.1")
unfolding validate_target_url to_lower
blocks_loopback = refl

validate_target_url_iff_example :
    (validate_target_url sample_std "https://api.example.com/hook" none ≡ ok tt) ↔ (
      (u : Url) × (sample_std.parse_url "https://api.example.com/hook" ≡ ok u)
      × IsAllowed sample_std none (to_lower sample_std.lower_rune u.hostname))
validate_target_url_iff_example =
    validate_target_url_iff sample_std "https://api.example.com/hook" none

-- The default retry settings, at the third attempt.
backoff_sleep_bounds_example :
    let wait = min (500000000 * 2 ^ 2) 10000000000 in
    (r : ℕ) × (backoff_sleep (λ n. n - 1) (pos 500000000) (pos 10000000000) 3 ≡ pos r)
    × (wait ≤ r)
    × (r ≤ wait + wait / 4)
backoff_sleep_bounds_example =
    backoff_sleep_bounds (λ n. n - 1) 500000000 10000000000 2 (λ n positive. omega arith)
      (omega arith) (omega arith) (omega arith)

execute_with_metrics_blocked_example :
    let action = record plain_action { url = "http://127.0.0.1:8080/hook" } in
    (e : Error) × (execute_with_metrics sample_std sample_runtime action "default" old_object []
        start_world
      ≡ (
        (no_metrics, err e),
        (build_transport sample_std sample_runtime "default" action.tls
            (sample_runtime.clock start_world).1).1,
      ))
execute_with_metrics_blocked_example =
    execute_with_metrics_blocked sample_std sample_runtime
      (record plain_action { url = "http://127.0.0.1:8080/hook" }) "default" old_object []
      start_world blocks_loopback

is_default_blocked_host_iff_example : (is_default_blocked_host sample_std "10.1.2.3" ≡ true) ↔ (
    Named "10.1.2.3" blocked_names
    ⊎ ((ip : Ip) × (sample_std.parse_ip "10.1.2.3" ≡ some ip) × IsLocal ip))
is_default_blocked_host_iff_example =
    is_default_blocked_host_iff sample_std "10.1.2.3"
      (λ ip e. subst IsBytes (some-injective (v4 10 1 2 3) ip e) one_byte)

blocks_private : is_default_blocked_host sample_std "10.1.2.3" ≡ true
unfolding is_default_blocked_host
blocks_private = refl

abbrev two_headers : List (String × String)
two_headers = ("Content-Type", "text/plain") ∷ ("X-Token", "secret") ∷ []

lookup-request_headers_example :
    (lookup "Content-Type" (request_headers sample_std two_headers "{}") ≡ (
      if not ("{}" == "") && sample_std.canonical_header "Content-Type" == "Content-Type"
      then some "application/json"
      else value_after sample_std "Content-Type" two_headers none))
    × DistinctHeaders (request_headers sample_std two_headers "{}")
lookup-request_headers_example = lookup-request_headers sample_std two_headers "{}" "Content-Type"

abbrev own_ca : TlsSpec
own_ca = record {
  insecure_skip_verify = false;
  server_name = "api.example.com";
  ca_secret_ref = some (record { name = "ca"; key = "token" });
  client_cert_secret_ref = none;
}

abbrev own_ca_transport : Transport
own_ca_transport = record base_transport {
  tls_client_config = some (record {
    min_version = 0x0303;
    insecure_skip_verify = false;
    server_name = "api.example.com";
    root_cas = some "secret";
    certificate = none;
  });
}

build_transport_iff_example :
    ((build_transport sample_std sample_runtime "default" (some own_ca) start_world).0
      ≡ ok own_ca_transport)
    ↔ IsTransport sample_std sample_runtime "default"
        (λ name. ok (("token", "secret") ∷ []))
        (λ name w. refl)
        (some own_ca)
        own_ca_transport
build_transport_iff_example =
    build_transport_iff sample_std sample_runtime "default" (λ name. ok (("token", "secret") ∷ []))
      (λ name w. refl) (some own_ca) start_world own_ca_transport

builds_own_ca :
    (build_transport sample_std sample_runtime "default" (some own_ca) start_world).0
    ≡ ok own_ca_transport
unfolding build_transport
builds_own_ca = refl

-- The first reply is a 503, the second one a 200.
abbrev two_attempts : Call
two_attempts = record {
  transport = base_transport;
  timeout = pos 10000000000;
  request = record {
    method = "POST";
    url = "https://api.example.com/hook";
    headers = [];
    body = "";
  };
  expected = λ status. status == "200";
  max_attempts = 2;
  backoff_base = pos 500000000;
  max_backoff = pos 10000000000;
  retry_on_network = true;
  retry_on_status = pos 503 ∷ [];
  started_at = 0;
}

attempts_from-Attempts_example :
    Attempts sample_std sample_runtime two_attempts 1 no_metrics start_world (
      attempts_from sample_std sample_runtime two_attempts two_attempts.max_attempts 1 no_metrics
        start_world)
attempts_from-Attempts_example =
    attempts_from-Attempts sample_std sample_runtime two_attempts 1 no_metrics start_world refl
