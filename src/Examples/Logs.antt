-- ===== src/Examples/Logs.antt =====
-- The tail of a log (fetchPodLogTail of internal/engine/job_executor.go) with a line that does not fit.
use Prim.Native.String.{char_at}
use resource_action_operator.Prelude.{
  ℕ, zero, suc, ◌≡◌, refl, arith, String, some, [], ◌∷◌, ◌++◌, map, ok,
}
use resource_action_operator.Prelude.Int.{pos}
use resource_action_operator.Runtime.{Runtime, Clientset}
use resource_action_operator.Jobs.Logs.{byte_len, drop_cr, max_scan_token_size, fetch_pod_log_tail}
use resource_action_operator.Jobs.Logs.Lines.{IsLine, Fits, write_lines, fetch_pod_log_tail_lines}
use resource_action_operator.Examples.Sample.{World, sample_runtime, start_world}

repeated : ℕ → String
repeated zero = String.[]
repeated (suc n) = String.◌∷◌ (char_at "a" 0) (repeated n)

byte_len-repeated : (n : ℕ) → byte_len (repeated n) ≡ n
unfolding byte_len repeated
byte_len-repeated zero = refl
byte_len-repeated (suc n) = omega (arith, byte_len-repeated n)

repeated-IsLine : (n : ℕ) → IsLine (repeated n)
unfolding repeated
repeated-IsLine zero = tt
repeated-IsLine (suc n) = (refl, repeated-IsLine n)

first-Fits : Fits "first\r"
unfolding byte_len
first-Fits = omega arith

abbrev long_line : String
long_line = repeated max_scan_token_size

abbrev sample_clientset : Clientset World
sample_clientset = record {
  stream_logs = λ namespace pod_name container tail_lines w.
      (ok (λ w. (ok (write_lines (("first\r" ∷ []) ++ long_line ∷ "last" ∷ [])), w)), w);
}

abbrev with_logs : Runtime World
with_logs = record sample_runtime { clientset = some sample_clientset }

fetch_pod_log_tail_lines_example :
    fetch_pod_log_tail with_logs "default" "pod-1" (pos 10) start_world
    ≡ (map drop_cr ("first\r" ∷ []), start_world)
fetch_pod_log_tail_lines_example =
    fetch_pod_log_tail_lines with_logs sample_clientset "default" "pod-1" (pos 10) ("first\r" ∷ [])
      (long_line ∷ "last" ∷ [])
      (λ w. (ok (write_lines (("first\r" ∷ []) ++ long_line ∷ "last" ∷ [])), w)) start_world
      start_world start_world refl refl refl
      (
        (refl, (refl, (refl, (refl, (refl, (refl, tt)))))),
        (repeated-IsLine max_scan_token_size, ((refl, (refl, (refl, (refl, tt)))), tt)),
      )
      (first-Fits, tt) (omega (arith, byte_len-repeated max_scan_token_size))

drops_return : map drop_cr ("first\r" ∷ []) ≡ "first" ∷ []
unfolding drop_cr
drops_return = refl
