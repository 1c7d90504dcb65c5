-- ===== src/Gateway/Watcher.antt =====
-- internal/policy/watcher.go: the policy file, compiled at the start and after each change. The
-- content of the file at each reading is an argument, none where `os.ReadFile` fails. Logging is
-- left out; the cache is the list of what was published to it.
pub mod Current
use llm_guardrail_gateway.Base.{
  Bytes, Bool, true, false, Option, none, some, List, [], ◌∷◌, ◌++◌, if◌then◌else◌,
}
use llm_guardrail_gateway.Base.Result.{Result, ok, err}
use llm_guardrail_gateway.Dsl.Compiler.{CompileError, compile}
use llm_guardrail_gateway.Dsl.Parser.{parse}
use llm_guardrail_gateway.Dsl.Runtime.{Runtime, is_float}
use llm_guardrail_gateway.Dsl.Token.{SyntaxError}
use llm_guardrail_gateway.Gateway.Server.{Bundle}

pub data LoadError : Type 0 where
  read_failed : LoadError
  parse_failed : SyntaxError → LoadError
  compile_failed : CompileError → LoadError

-- what the loop of `watch` selects: a change that is a write or a creation, another one, an error
-- of fsnotify, or the end (`done`, or a closed channel)
pub data Event : Type 0 where
  changed unchanged watch_error end : Event

module _ (rt : Runtime) where
  unfoldable pub load : Option Bytes → Result LoadError (Bundle rt × Bytes)
  load none = err read_failed
  load (some src) = elim (parse (is_float rt) src) [
    | err e ↦ err (parse_failed e)
    | ok ast ↦ elim (compile rt ast) [
      | err e ↦ err (compile_failed e)
      | ok rules ↦ ok (record { tenant_id = ast.tenant_id; rules = rules }, src)
    ]
  ]

  pub record Watcher : Type 0 where
    pub bundle : Bundle rt
    -- whether there is a cache, and what it was given: a tenant and a source
    pub has_cache : Bool
    pub published : List (Bytes × Bytes)

  unfoldable pub publish_to_cache : Bytes → Watcher → Watcher
  publish_to_cache src w =
      if w.has_cache
      then record w { published = w.published ++ ((w.bundle.tenant_id, src) ∷ []) }
      else w

  unfoldable pub new_watcher : Bool → Option Bytes → Result LoadError Watcher
  unfolding publish_to_cache
  new_watcher has_cache file = elim (load file) [
    | err e ↦ err e
    | ok (b, src) ↦
        ok (publish_to_cache src (record { bundle = b; has_cache = has_cache; published = [] }))
  ]

  unfoldable pub reload : Watcher → Option Bytes → Watcher
  unfolding publish_to_cache
  reload w file = elim (load file) [
    | err e ↦ w
    | ok (b, src) ↦ publish_to_cache src (record w { bundle = b })
  ]

  -- the loop of `watch`
  unfoldable pub watch : Watcher → List (Event × Option Bytes) → Watcher
  watch w [] = w
  watch w ((changed, file) ∷ rest) = watch (reload w file) rest
  watch w ((unchanged, file) ∷ rest) = watch w rest
  watch w ((watch_error, file) ∷ rest) = watch w rest
  watch w ((end, file) ∷ rest) = w
