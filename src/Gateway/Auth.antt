-- ===== src/Gateway/Auth.antt =====
-- internal/auth/auth.go: API keys and tenants. The store is the list of its keys with their tenants,
-- a Go map there; the error of a failed authentication carries nothing and is `none`.
pub mod Marks
pub mod Spaces
pub mod Header
use llm_guardrail_gateway.Base.{
  ℕ, zero, suc, ◌-◌, Bytes, codes, equal, equal_iff, has_prefix, has_prefix-split,
  has_prefix-append, Bool-cases, inl, inr, subst, sym, lookup, not, Option, none, some, List, [],
  ◌∷◌, ◌++◌, ◌≡◌, ◌≢◌, ◌↔◌, length, drop, if◌then◌else◌,
}
use mathlib.Core.List.{map, reverse}

pub record Tenant : Type 0 where
  pub id : Bytes
  pub name : Bytes

abbrev pub Store : Type 0
Store = List (Bytes × Tenant)

-- The UTF-8 encodings of the code points that `unicode.IsSpace` knows.
abbrev pub spaces : List Bytes
spaces =
    (9 ∷ [])
    ∷ (10 ∷ [])
    ∷ (11 ∷ [])
    ∷ (12 ∷ [])
    ∷ (13 ∷ [])
    ∷ (32 ∷ [])
    ∷ (194 ∷ 133 ∷ [])
    ∷ (194 ∷ 160 ∷ [])
    ∷ (225 ∷ 154 ∷ 128 ∷ [])
    ∷ (226 ∷ 128 ∷ 128 ∷ [])
    ∷ (226 ∷ 128 ∷ 129 ∷ [])
    ∷ (226 ∷ 128 ∷ 130 ∷ [])
    ∷ (226 ∷ 128 ∷ 131 ∷ [])
    ∷ (226 ∷ 128 ∷ 132 ∷ [])
    ∷ (226 ∷ 128 ∷ 133 ∷ [])
    ∷ (226 ∷ 128 ∷ 134 ∷ [])
    ∷ (226 ∷ 128 ∷ 135 ∷ [])
    ∷ (226 ∷ 128 ∷ 136 ∷ [])
    ∷ (226 ∷ 128 ∷ 137 ∷ [])
    ∷ (226 ∷ 128 ∷ 138 ∷ [])
    ∷ (226 ∷ 128 ∷ 168 ∷ [])
    ∷ (226 ∷ 128 ∷ 169 ∷ [])
    ∷ (226 ∷ 128 ∷ 175 ∷ [])
    ∷ (226 ∷ 129 ∷ 159 ∷ [])
    ∷ (227 ∷ 128 ∷ 128 ∷ [])
    ∷ []

-- the length of the one of `marks` that `s` starts with, or 0
unfoldable pub mark_length : List Bytes → Bytes → ℕ
mark_length [] s = 0
mark_length (m ∷ marks) s = if has_prefix s m then length m else mark_length marks s

-- Drops `skip` bytes, and then any of `marks`.
unfoldable pub trim_left : List Bytes → ℕ → Bytes → Bytes
trim_left marks skip [] = []
trim_left marks (suc skip) (c ∷ cs) = trim_left marks skip cs
trim_left marks zero (c ∷ cs) =
    let n = mark_length marks (c ∷ cs) in
    let rest = trim_left marks (n - 1) cs in elim n [ zero ↦ c ∷ cs | suc _ ↦ rest ]

-- `strings.TrimSpace`
unfoldable pub trim_space : Bytes → Bytes
unfolding trim_left mark_length
trim_space s = reverse (trim_left (map reverse spaces) 0 (reverse (trim_left spaces 0 s)))

-- `DefaultStore`
abbrev pub default_store : Store
default_store =
    (codes "key-acme-1234", record { id = codes "acme-corp"; name = codes "Acme Corp" })
    ∷ (codes "key-beta-5678", record { id = codes "beta-inc"; name = codes "Beta Inc" })
    ∷ (codes "key-dev-local", record { id = codes "dev"; name = codes "Local Dev" })
    ∷ []

abbrev pub bearer : Bytes
bearer = codes "Bearer "

unfoldable pub authenticate : Store → Bytes → Option Tenant
authenticate keys auth_header =
    if equal auth_header []
    then none
    else if not (has_prefix auth_header bearer)
    then none
    else let key = trim_space (drop (length bearer) auth_header) in
      if equal key [] then none else lookup key keys

-- by the key as it is found
pub authenticate_raw :
    (keys : Store) (auth_header : Bytes) (tenant : Tenant)
    → (authenticate keys auth_header ≡ some tenant) ↔ (
        (raw : Bytes) × (auth_header ≡ bearer ++ raw)
        × (trim_space raw ≢ [])
        × (lookup (trim_space raw) keys ≡ some tenant))
unfolding authenticate equal lookup
authenticate_raw keys auth_header tenant = (to, from)
  where
    Key : Type 0
    Key =
        (raw : Bytes) × (auth_header ≡ bearer ++ raw)
        × (trim_space raw ≢ [])
        × (lookup (trim_space raw) keys ≡ some tenant)

    to : authenticate keys auth_header ≡ some tenant → Key
    to h = elim (Bool-cases (equal auth_header [])) [
      | inl empty ↦ cc (rw empty at h)
      | inr given ↦ elim (Bool-cases (has_prefix auth_header bearer)) [
        | inr other ↦ cc (rw (given, other) at h)
        | inl starts ↦
            let raw = drop (length bearer) auth_header in
            elim (Bool-cases (equal (trim_space raw) [])) [
              | inl blank ↦ cc (rw (given, starts, blank) at h)
              | inr key ↦ (
                raw,
                has_prefix-split auth_header bearer starts,
                (λ e. cc ((equal_iff _ _).1 e, key)),
                rw (given, starts, key) at h,
              )
            ]
      ]
    ]

    from : Key → authenticate keys auth_header ≡ some tenant
    from (raw, e, key, found) = elim (Bool-cases (equal (trim_space raw) [])) [
      | inl blank ↦ absurd (key ((equal_iff _ _).0 blank))
      | inr some_key ↦
          subst (λ t. authenticate keys t ≡ some tenant) (sym e)
            (rw (has_prefix-append bearer raw, some_key) found)
    ]
