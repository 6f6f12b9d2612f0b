-- ===== src/Jobs/Logs/Lines.antt =====
-- What the scan of a log (fetchPodLogTail of internal/engine/job_executor.go) makes of the lines that
-- were written to it.
use Prim.Native.String.{char_at}
use resource_action_operator.Prelude.{
  ◌<◌, ◌≤◌, ◌≡◌, refl, ap, ◌∙◌, arith, String, some, List, [], ◌∷◌, ◌++◌, map, All, eqb, not,
  Result, ok,
}
use resource_action_operator.Prelude.Int.{ℤ}
use resource_action_operator.Prelude.Text.{AllChars}
use resource_action_operator.Runtime.{Runtime, Clientset}
use resource_action_operator.Jobs.Logs.{
  byte_len, split_lines, drop_cr, max_scan_token_size, scan, fetch_pod_log_tail,
}

-- A line, its newline, and the text behind it.
terminated : String → String → String
terminated String.[] text = String.◌∷◌ (char_at "\n" 0) text
terminated (String.◌∷◌ c line) text = String.◌∷◌ c (terminated line text)

-- The lines, each with its newline.
pub write_lines : List String → String
write_lines [] = String.[]
write_lines (line ∷ lines) = terminated line (write_lines lines)

-- A text without a newline.
abbrev pub IsLine : String → Type 0
IsLine line = AllChars (λ c. not (eqb c b'\n')) line

-- A line that is short enough for the buffer of the scanner, with its newline.
abbrev pub Fits : String → Type 0
Fits line = byte_len line < max_scan_token_size

-- Where the scan stops: at the end, or at a line that does not fit.
abbrev pub StopsAt : List String → Type 0
StopsAt [] = Unit
StopsAt (line ∷ lines) = max_scan_token_size ≤ byte_len line

split_line :
    (line text : String)
    → IsLine line
    → split_lines (terminated line text) ≡ line ∷ split_lines text
unfolding split_lines terminated
split_line String.[] text h = refl
split_line (String.◌∷◌ c line) text h = ground (arith, split_line line text h.1)

split_lines-write_lines :
    (lines : List String) → All IsLine lines → split_lines (write_lines lines) ≡ lines
unfolding split_lines write_lines
split_lines-write_lines [] h = refl
split_lines-write_lines (line ∷ lines) h =
    split_line line (write_lines lines) h.0
    ∙ ap (λ rest. line ∷ rest) (split_lines-write_lines lines h.1)

scan-append :
    (lines rest : List String)
    → All Fits lines
    → StopsAt rest
    → scan (lines ++ rest) ≡ map drop_cr lines
unfolding scan
scan-append [] [] h stops = refl
scan-append [] (line ∷ rest) h stops = ground arith
scan-append (line ∷ lines) rest h stops = ground (arith, scan-append lines rest h.1 stops)

module _ {W : Type 0} (rt : Runtime W) where
  -- If a clientset gives the stream of a log, and the stream gives lines that each end with a newline,
  -- those before the first line of 65536 bytes or more are read, all of them and in their order, each
  -- without the carriage return before its newline.
  pub fetch_pod_log_tail_lines :
      (clientset : Clientset W) (namespace pod_name : String) (tail_lines : ℤ)
      (lines rest : List String) (read_all : W → Result String × W) (w opened read : W)
      → rt.clientset ≡ some clientset
      → clientset.stream_logs namespace pod_name "runner" tail_lines w ≡ (ok read_all, opened)
      → read_all opened ≡ (ok (write_lines (lines ++ rest)), read)
      → All IsLine (lines ++ rest)
      → All Fits lines
      → StopsAt rest
      → fetch_pod_log_tail rt namespace pod_name tail_lines w ≡ (map drop_cr lines, read)
  unfolding fetch_pod_log_tail
  fetch_pod_log_tail_lines clientset namespace pod_name tail_lines lines rest read_all w opened read
        given stream content written fits stops =
      rw (given, stream, content, split_lines-write_lines (lines ++ rest) written)
        (ap (λ l. (l, read)) (scan-append lines rest fits stops))
