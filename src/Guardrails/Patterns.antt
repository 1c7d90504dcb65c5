-- ===== src/Guardrails/Patterns.antt =====
-- internal/guardrails/input/scanner.go: the patterns of the signals.
use llm_guardrail_gateway.Base.{Bytes, codes, not, ◌==◌, List, [], ◌∷◌, map}
use llm_guardrail_gateway.Regexp.{
  Regex, one, seq, star, boundary, opt, plus, space, word, one_of, all_of,
}

abbrev some_space : Regex
some_space = plus space

abbrev words : List Bytes → Regex
words ws = one_of (map word ws)

-- literal words with spaces between
abbrev spaced : List Regex → Regex
spaced [] = all_of []
spaced (r ∷ []) = r
spaced (r ∷ s ∷ rs) = seq r (seq some_space (spaced (s ∷ rs)))

-- `.`
abbrev any : Regex
any = one (λ c. not (c == 10))

-- `(all\s+)?`
abbrev and_spaces : Bytes → Regex
and_spaces w = opt (seq (word w) some_space)

-- a word and an optional `s`
abbrev plural : Bytes → Regex
plural w = seq (word w) (opt (word (codes "s")))

-- `(an?\s+)?`
abbrev article : Regex
article = opt (all_of (word (codes "a") ∷ opt (word (codes "n")) ∷ some_space ∷ []))

unfoldable pub keyword_patterns : Regex
keyword_patterns = one_of (
    spaced (
      word (codes "ignore")
      ∷ seq (and_spaces (codes "all"))
          (words (codes "previous" ∷ codes "prior" ∷ codes "above" ∷ codes "earlier" ∷ []))
      ∷ plural (codes "instruction")
      ∷ [])
    ∷ spaced (
        word (codes "disregard")
        ∷ seq (and_spaces (codes "all"))
            (words (codes "previous" ∷ codes "prior" ∷ codes "above" ∷ []))
        ∷ plural (codes "instruction")
        ∷ [])
    ∷ all_of (
        word (codes "forget")
        ∷ some_space
        ∷ words (codes "everything" ∷ codes "all" ∷ codes "your" ∷ codes "what" ∷ [])
        ∷ space
        ∷ [])
    ∷ spaced (
        word (codes "you")
        ∷ one_of (
            spaced (word (codes "are") ∷ word (codes "now") ∷ [])
            ∷ spaced (word (codes "must") ∷ word (codes "now") ∷ [])
            ∷ spaced (word (codes "will") ∷ word (codes "now") ∷ [])
            ∷ spaced (word (codes "have") ∷ word (codes "to") ∷ [])
            ∷ [])
        ∷ [])
    ∷ spaced (
        word (codes "override")
        ∷ seq (and_spaces (codes "your")) (
            one_of (
              plural (codes "instruction")
              ∷ word (codes "programming")
              ∷ plural (codes "rule")
              ∷ plural (codes "constraint")
              ∷ []))
        ∷ [])
    ∷ spaced (word (codes "do") ∷ word (codes "anything") ∷ word (codes "now") ∷ [])
    ∷ spaced (word (codes "dan") ∷ word (codes "mode") ∷ [])
    ∷ word (codes "jailbreak")
    ∷ spaced (
        word (codes "pretend")
        ∷ one_of (
            spaced (word (codes "you") ∷ word (codes "are") ∷ [])
            ∷ spaced (word (codes "to") ∷ word (codes "be") ∷ [])
            ∷ [])
        ∷ seq article (words (codes "unfiltered" ∷ codes "unrestricted" ∷ codes "evil" ∷ []))
        ∷ [])
    ∷ seq (spaced (word (codes "hypothetically") ∷ word (codes "speaking") ∷ []))
        (seq (star any) (word (codes "instruct")))
    ∷ spaced (
        word (codes "in")
        ∷ word (codes "this")
        ∷ word (codes "fictional")
        ∷ word (codes "scenario")
        ∷ [])
    ∷ [])

unfoldable pub structural_patterns : Regex
structural_patterns = one_of (
    all_of (word (codes "act") ∷ some_space ∷ word (codes "as") ∷ some_space ∷ article ∷ [])
    ∷ all_of (
        word (codes "you")
        ∷ some_space
        ∷ word (codes "are")
        ∷ some_space
        ∷ word (codes "now")
        ∷ some_space
        ∷ article
        ∷ [])
    ∷ spaced (
        word (codes "your")
        ∷ word (codes "new")
        ∷ words (codes "role" ∷ codes "persona" ∷ codes "name" ∷ codes "identity" ∷ [])
        ∷ word (codes "is")
        ∷ [])
    ∷ spaced (
        word (codes "switch")
        ∷ word (codes "to")
        ∷ words (
            codes "developer"
            ∷ codes "admin"
            ∷ codes "root"
            ∷ codes "god"
            ∷ codes "unrestricted"
            ∷ [])
        ∷ word (codes "mode")
        ∷ [])
    ∷ spaced (
        word (codes "enable")
        ∷ words (codes "developer" ∷ codes "debug" ∷ codes "admin" ∷ codes "jailbreak" ∷ [])
        ∷ word (codes "mode")
        ∷ [])
    ∷ spaced (
        word (codes "from")
        ∷ word (codes "now")
        ∷ word (codes "on")
        ∷ word (codes "you")
        ∷ words (codes "will" ∷ codes "must" ∷ codes "should" ∷ codes "are" ∷ [])
        ∷ [])
    ∷ spaced (
        word (codes "respond")
        ∷ word (codes "as")
        ∷ word (codes "if")
        ∷ word (codes "you")
        ∷ one_of (
            spaced (word (codes "have") ∷ word (codes "no") ∷ [])
            ∷ spaced (
                all_of (word (codes "don") ∷ any ∷ word (codes "t") ∷ [])
                ∷ word (codes "have")
                ∷ [])
            ∷ [])
        ∷ one_of
            (plural (codes "restriction") ∷ plural (codes "guideline") ∷ plural (codes "rule") ∷ [])
        ∷ [])
    ∷ [])

unfoldable pub override_verbs : Regex
override_verbs = all_of (
    boundary
    ∷ words (
        codes "ignore"
        ∷ codes "forget"
        ∷ codes "disregard"
        ∷ codes "override"
        ∷ codes "bypass"
        ∷ codes "circumvent"
        ∷ codes "violate"
        ∷ codes "disobey"
        ∷ [])
    ∷ boundary
    ∷ [])

unfoldable pub boundary_patterns : Regex
boundary_patterns = one_of (
    word (codes "[system]")
    ∷ word (codes "<|im_start|>")
    ∷ word (codes "<|im_end|>")
    ∷ all_of (
        word (codes "###")
        ∷ star space
        ∷ one_of (
            plural (codes "instruction")
            ∷ word (codes "system")
            ∷ word (codes "prompt")
            ∷ word (codes "context")
            ∷ [])
        ∷ [])
    ∷ word (codes "<system>")
    ∷ word (codes "</system>")
    ∷ word (codes "[inst]")
    ∷ word (codes "<<sys>>")
    ∷ word (codes "[/inst]")
    ∷ [])
