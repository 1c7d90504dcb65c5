-- ===== src/Streaming/Sse/Reader.antt =====
-- internal/streaming/window.go: `ReadSSEChunks`, and the lines of a bufio.Scanner.
use llm_guardrail_gateway.Base.{
  ℕ, ◌+◌, Bytes, codes, equal, has_prefix, Bool, true, false, ◌==◌, leb, Option, none, some, List,
  [], ◌∷◌, ◌++◌, length, drop, if◌then◌else◌,
}

-- an error of the scanner: a line that does not fit into its buffer, or one of the reader
pub data ScanError : Type 0 where
  too_long : ScanError
  read_failed : ScanError

-- what a reader gives before it ends, and whether it ends with an error
pub record Source : Type 0 where
  pub content : Bytes
  pub fails : Bool

unfoldable pub drop_cr : Bytes → Bytes
drop_cr [] = []
drop_cr (c ∷ []) = if c == 13 then [] else c ∷ []
drop_cr (c ∷ d ∷ rest) = c ∷ drop_cr (d ∷ rest)

-- `bufio.MaxScanTokenSize`
abbrev pub max_token : ℕ
max_token = 65536

-- The lines after the part `line` of one, and whether the scanner stops at a line that is too long.
unfoldable pub lines_from : Bytes → Bytes → List Bytes × Bool
unfolding drop_cr
lines_from line [] = if leb (length line) 0 then ([], false) else (drop_cr line ∷ [], false)
lines_from line (c ∷ cs) =
    let (next, stops) = lines_from [] cs in
    let longer = lines_from (line ++ (c ∷ [])) cs in
    if c == 10
    then (drop_cr line ∷ next, stops)
    else if leb max_token (length line + 1)
    then ([], true)
    else longer

-- `scanner.Err()` once `Scan` has returned false
unfoldable pub scan_error : Bool → Source → Option ScanError
scan_error true source = some too_long
scan_error false source = if source.fails then some read_failed else none

module _ {A : Type 0} (on_chunk : A → Bytes → A × Bool) where
  -- the loop of `ReadSSEChunks`, and whether it went to the end of the lines
  unfoldable pub read_lines : A → List Bytes → A × Bool
  read_lines a [] = (a, true)
  read_lines a (line ∷ rest) =
      let skip = read_lines a rest in
      let payload = drop (length (codes "data: ")) line in
      let (a', more) = on_chunk a payload in
      let go_on = read_lines a' rest in
      if has_prefix line (codes "data: ")
      then if equal payload (codes "[DONE]")
        then (a, false)
        else if more
        then go_on
        else (a', false)
      else skip

  unfoldable pub read_sse_chunks : A → Source → A × Option ScanError
  unfolding read_lines scan_error
  read_sse_chunks a source =
      let (lines, stops) = lines_from [] source.content in
      let (a', to_end) = read_lines a lines in
      (a', if to_end then scan_error stops source else none)
