-- ===== src/Streaming/Window.antt =====
-- internal/streaming/window.go: the sliding window. The compiled patterns are a parameter: a
-- pattern is its `Match` function.
pub mod Laws
use llm_guardrail_gateway.Base.{
  ℕ, zero, suc, ◌-◌, ℤ, pos, negsuc, Bytes, Bool, true, false, ◌||◌, List, [], ◌∷◌, ◌++◌, length,
  take, drop, leb, if◌then◌else◌,
}
use llm_guardrail_gateway.Streaming.Client.{CountWriter, count_write}
use llm_guardrail_gateway.Streaming.Sse.{strip_sse}

pub data ScanResult : Type 0 where
  scan_ok scan_abort : ScanResult

pub record Window : Type 0 where
  pub size : ℕ
  pub buf : Bytes

-- `if size <= 0 { size = 512 }`
unfoldable pub window_size : ℤ → ℕ
window_size (pos zero) = 512
window_size (pos (suc n)) = suc n
window_size (negsuc n) = 512

unfoldable pub new_window : ℤ → Window
new_window size = record { size = window_size size; buf = [] }

unfoldable pub window_write : Window → Bytes → Window
window_write w p = record w { buf = w.buf ++ p }

abbrev pub Patterns : Type 0
Patterns = List (Bytes → Bool)

unfoldable pub matches_any : Patterns → Bytes → Bool
matches_any [] d = false
matches_any (re ∷ rest) d = re d || matches_any rest d

unfoldable pub contains_unsafe : Patterns → Bytes → Bool
contains_unsafe patterns d = matches_any patterns (strip_sse d)

-- What `Flush` and `DrainSafe` leave behind and return.
pub record Flushed : Type 0 where
  pub window : Window
  pub dst : CountWriter
  pub result : ScanResult
  pub failed : Bool

-- the part of `Flush` behind the scan
unfoldable pub forward_prefix : Window → CountWriter → Flushed
forward_prefix w dst =
    if leb (length w.buf) w.size
    then record { window = w; dst = dst; result = scan_ok; failed = false }
    else let safe = length w.buf - w.size in
      let (dst', _, failed) = count_write dst (take safe w.buf) in
      record {
        window = if failed then w else record w { buf = drop safe w.buf };
        dst = dst';
        result = scan_ok;
        failed = failed;
      }

unfoldable pub flush : Patterns → Window → CountWriter → Flushed
flush patterns w dst =
    if leb (length w.buf) 0
    then record { window = w; dst = dst; result = scan_ok; failed = false }
    else if contains_unsafe patterns w.buf
    then record { window = w; dst = dst; result = scan_abort; failed = false }
    else forward_prefix w dst

unfoldable pub drain_safe : Patterns → Window → CountWriter → Flushed
drain_safe patterns w dst =
    if leb (length w.buf) 0
    then record { window = w; dst = dst; result = scan_ok; failed = false }
    else if contains_unsafe patterns w.buf
    then record { window = w; dst = dst; result = scan_abort; failed = false }
    else let (dst', _, failed) = count_write dst w.buf in
      record { window = record w { buf = [] }; dst = dst'; result = scan_ok; failed = failed }
