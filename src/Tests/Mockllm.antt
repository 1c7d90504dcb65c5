-- ===== src/Tests/Mockllm.antt =====
-- Runs of the mock server of cmd/mockllm/main.go, and its unsafe stream through the gateway.
use llm_guardrail_gateway.Base.{
  ◌≤◌, pos, Bytes, codes, equal, true, none, Option, some, List, [], ◌∷◌, ◌++◌, append-nil, ◌≡◌,
  refl, arith,
}
use llm_guardrail_gateway.Guardrails.Signals.{is_space}
use llm_guardrail_gateway.Mockllm.Fields.{fields, fields_from, end_field}
use llm_guardrail_gateway.Mockllm.Handlers.{
  StreamRequest, leaked_address, stream_response, handle_stream, handle_generate,
}
use llm_guardrail_gateway.Mockllm.Leak.{joined_writes, handle_stream-IsSilent}
use llm_guardrail_gateway.Regexp.Runes.{decode_rune}
use llm_guardrail_gateway.Streaming.Ending.{DrainTicks}
use llm_guardrail_gateway.Streaming.Ending.Delivery.{IsSilent, copied}
use llm_guardrail_gateway.Streaming.Patterns.{out_patterns}
use llm_guardrail_gateway.Streaming.Window.{window_size}
use llm_guardrail_gateway.Streaming.Writer.Stream.{Chunk}

abbrev prompt_of : Bytes → Option Bytes
prompt_of body = some body

abbrev quote : Bytes → Bytes
quote s = b'"' ∷ (s ++ b'"' ∷ [])

abbrev request : Bytes → StreamRequest
request unsafe = record { method = codes "POST"; body = codes "hi"; unsafe = unsafe }

-- a space of two bytes, and bytes that are no UTF-8
parts :
    fields (codes " a" ++ (194 ∷ 160 ∷ 255 ∷ codes "b  c "))
    ≡ codes "a" ∷ (255 ∷ codes "b") ∷ codes "c" ∷ []
unfolding fields fields_from end_field is_space decode_rune
parts = refl

streamed :
    (handle_stream prompt_of quote true (request [])).writes
    ≡ codes "data: Mock \n\n"
      ∷ codes "data: streaming \n\n"
      ∷ codes "data: response \n\n"
      ∷ codes "data: to: \n\n"
      ∷ codes "data: \"hi\". \n\n"
      ∷ codes "data: This \n\n"
      ∷ codes "data: is \n\n"
      ∷ codes "data: a \n\n"
      ∷ codes "data: simulated \n\n"
      ∷ codes "data: token-by-token \n\n"
      ∷ codes "data: reply. \n\n"
      ∷ codes "data: [DONE]\n\n"
      ∷ []
unfolding handle_stream stream_response equal fields fields_from end_field is_space decode_rune
streamed = refl

refused :
    (handle_generate prompt_of quote
      (λ r. r.response)
      (record { method = codes "GET"; body = []; unsafe = [] })).status
    ≡ 405
unfolding handle_generate equal
refused = refl

abbrev body : Bytes
body = joined_writes (handle_stream prompt_of quote true (request (codes "true"))).writes

abbrev chunks : List Chunk
chunks = (body, record { check_start = 1; check_end = 2; now = 3 }) ∷ []

abbrev ticks : DrainTicks
ticks = record { start = 8; end = 9; now = 9 }

wide : 30 ≤ window_size (pos 512)
unfolding window_size
wide = omega arith

handle_stream-IsSilent_example :
    IsSilent leaked_address chunks
      (copied quote (codes "r1") out_patterns (pos 512) true 0 chunks none ticks (codes "closed"))
handle_stream-IsSilent_example =
    handle_stream-IsSilent prompt_of quote (request (codes "true")) (codes "hi") refl refl refl true
      quote (codes "r1") (codes "closed") (pos 512) 0 chunks none ticks wide (append-nil body)
