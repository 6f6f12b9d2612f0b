-- ===== src/Jobs/Logs.antt =====
-- The tail of a log: fetchPodLogTail of internal/engine/job_executor.go, and what it uses of
-- bufio.Scanner.
pub mod Lines
use Prim.Native.Char.{Char, code}
use resource_action_operator.Prelude.{
  ℕ, ◌+◌, String, Option, none, some, List, [], ◌∷◌, ◌&&◌, ◌==◌, ltb, eqb, Result, ok, err,
  if◌then◌else◌,
}
use resource_action_operator.Prelude.Int.{ℤ}
use resource_action_operator.Runtime.{Runtime, Clientset}

-- The bytes of a code point in UTF-8, and of a text.
abbrev rune_len : ℕ → ℕ
rune_len c = if ltb c 0x80 then 1 else if ltb c 0x800 then 2 else if ltb c 0x10000 then 3 else 4

unfoldable pub byte_len : String → ℕ
byte_len String.[] = 0
byte_len (String.◌∷◌ c s) = rune_len (code c) + byte_len s

-- A character before the first of the lines that follow it; behind the last newline it begins a line.
abbrev pub push : Char → List String → List String
push c [] = String.◌∷◌ c String.[] ∷ []
push c (line ∷ lines) = String.◌∷◌ c line ∷ lines

-- The text between newlines. Behind the last newline there is a line only if it is not empty.
unfoldable pub split_lines : String → List String
split_lines String.[] = []
split_lines (String.◌∷◌ c s) =
    let rest = split_lines s in if eqb (code c) b'\n' then String.[] ∷ rest else push c rest

-- A line without the carriage return before its newline.
unfoldable pub drop_cr : String → String
drop_cr String.[] = String.[]
drop_cr (String.◌∷◌ c s) =
    let rest = drop_cr s in if eqb (code c) b'\r' && s == "" then String.[] else String.◌∷◌ c rest

-- bufio.MaxScanTokenSize: a line that fills the buffer ends the scan.
abbrev pub max_scan_token_size : ℕ
max_scan_token_size = 65536

-- `for scanner.Scan() { lines = append(lines, scanner.Text()) }`
unfoldable pub scan : List String → List String
unfolding drop_cr byte_len
scan [] = []
scan (line ∷ lines) =
    let rest = scan lines in
    if ltb (byte_len line) max_scan_token_size then drop_cr line ∷ rest else []

abbrev pub lines_of : Result String → List String
lines_of (err e) = []
lines_of (ok text) = scan (split_lines text)

module _ {W : Type 0} where
  -- An error leaves no lines. That the stream is closed at the end is left out.
  abbrev pub read_stream : Result (W → Result String × W) → W → List String × W
  read_stream (err e) w = ([], w)
  read_stream (ok read_all) w = let (text, w') = read_all w in (lines_of text, w')

  abbrev pub with_clientset : Option (Clientset W) → String → String → ℤ → W → List String × W
  with_clientset none namespace pod_name tail_lines w = ([], w)
  with_clientset (some clientset) namespace pod_name tail_lines w =
      let (stream, w') = clientset.stream_logs namespace pod_name "runner" tail_lines w in
      read_stream stream w'

  -- fetchPodLogTail
  unfoldable pub fetch_pod_log_tail : Runtime W → String → String → ℤ → W → List String × W
  unfolding scan split_lines
  fetch_pod_log_tail rt namespace pod_name tail_lines w =
      with_clientset rt.clientset namespace pod_name tail_lines w
