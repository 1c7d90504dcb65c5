-- ===== src/Lib.antt =====
-- A model of the LLM guardrail gateway, a Go HTTP server between tenants and a language model.
--
-- A request passes `withMiddleware` (internal/gateway/gateway.go): its key is looked up
-- (internal/auth), the tenant's rate and daily tokens are checked (internal/ratelimit), and the mux
-- calls `handleComplete` or `handleStream`. These read the prompt, scan it (internal/guardrails),
-- evaluate the tenant's policy (internal/policy) and call the provider (internal/provider). A stream
-- goes through a window (internal/streaming) that is scanned before its front is sent on.
--
-- Base: helpers on numbers, lists, texts and results. Texts and byte slices are lists of bytes.
-- Regexp: Go's regexp, as far as the patterns use it. Runes decodes UTF-8; a match is a list of the
--   places where it can end, the preferred one first (`ends`), which `match` and `count_matches` use.
--   Language says which texts a pattern has, and that they are found; Sound the converse.
-- Dsl: internal/policy/dsl. Lexer is lexer.go (`lex` is Lex, `run` lexer.run), Parser is parser.go,
--   Compiler is compiler.go; a compiled condition is a function, as in Go. Runtime collects what the
--   three use of Go and the model takes as a parameter: float64 and its tests, strconv.ParseFloat,
--   and the case mappings of strings. Lexer/Spelling, Parser/Printable and Compiler/Meaning are
--   independent descriptions: how tokens are spelled, which policies there are and how they are
--   written, and what a condition means; Compiler/Typing says which policies compile.
-- Streaming: internal/streaming/window.go (Sse, Window), `windowWriter` and `countWriter` of the
--   gateway (Writer, Client), and `handleStream` from the provider's call on (Ending). The client's
--   connection is the bytes that it took and the faults of its next writes. `Window` takes the
--   scanner's patterns as a list of functions; Patterns is the list of the source. The theorems on
--   safety ask of a text that the scanner finds it in every context (`IsCaught`); Framing and Overlap
--   say which texts the removal of the SSE framing leaves whole. A provider's stream is a list of
--   writes with the clock's readings: `copy` stops at the first error, as io.Copy in `MockAdapter`
--   does, and `emit` drops errors, as `OpenAICompatAdapter` does. The error that an adapter itself
--   ends with, such as a timeout or one of reading its answer, is an argument of the two streams.
-- Guardrails: internal/guardrails/input/scanner.go: the patterns, the five signals, and `Scan`
--   (Scanner). float64 is a parameter with the laws of IEEE 754 that are used (Arithmetic, `IsIeee`),
--   and the order in which Go ranges over a map is another; a sum of hundredths shows that the laws
--   can hold. Combine and Reach follow the signals to the score.
-- Gateway: internal/auth/auth.go (Auth), the state and the interfaces of the server (Server), its
--   handlers (Handlers), the middleware (Middleware), and internal/policy/watcher.go (Watcher), whose
--   events and file contents are a list. Redis is a state of any type behind the operations of the
--   limiter and the quota, which may fail. encoding/json is a function from the body to the prompt.
--   The state `World` is Redis, the counters that were moved, and the prompts that the provider got.
--   Limits, Screening, Admission, Scanned, Charges and Outage follow a request through them. Auth/Marks
--   and Auth/Spaces say what strings.TrimSpace takes away, and Auth/Header which keys are accepted.
--   Provider is internal/provider/factory.go. Wiring is `New`: the server at a time, with the limiter
--   and the quota on their parts of Redis; Untouched and Throttle follow the limiter's part through
--   a sequence of requests.
-- Ratelimit: internal/ratelimit/limiter.go (Limiter), with the Lua script on sorted sets of Redis
--   that expire, and quota.go (Quota), with counters that expire. The float64 and the text that Lua
--   makes of a time, and the UTC day of a time, are parameters; the pipeline uses both by their
--   interfaces in Gateway/Server, which Gateway/Wiring fills.
-- Adapters: internal/provider/openai_compat.go and mock.go. net/http is a client that answers a
--   request or fails, encoding/json is functions; the lines of bufio.Scanner are written out in
--   Streaming/Sse/Reader, with `ReadSSEChunks`.
-- Config: internal/config/config.go. The environment is a function, strconv.ParseInt is written out
--   (Numbers), and Denotation says what number a text denotes.
-- Mockllm: cmd/mockllm/main.go, the handlers (Handlers) and strings.Fields; Leak follows its unsafe
--   stream through the gateway.
-- Cache: internal/cache/policy.go on keys of Redis that expire; SHA-256 and encoding/json are
--   parameters. The watcher's cache is the list of what was given to it.
-- Tests: each theorem on small inputs.
--
-- Numbers are natural numbers. The two token counts of a provider are 64-bit words whose sum wraps;
-- the body limit is an integer. Loops of the lexer and the parser run on fuel: the source's length
-- for the rounds of the lexer, the number of tokens for the loops of the parser; a round takes at
-- least one byte or token, so the model's own error `out_of_fuel` is not met.
--
-- Not modelled: logging, histograms and response headers, which decide nothing; the map of the input
-- scanner's signals, which is only logged; LatestVersion of the policy cache, which lists the keys of
-- Redis; locks and goroutines (the watcher's bundle is replaced in one step, which its lock ensures,
-- and the goroutines of the scanner write to places of their own); the start and the end of the
-- commands, and the load test.
pub mod Base
pub mod Regexp
pub mod Config
pub mod Cache
pub mod Streaming
pub mod Dsl
pub mod Guardrails
pub mod Gateway
pub mod Ratelimit
pub mod Adapters
pub mod Mockllm
pub mod Tests
