-- ===== src/InternalApi/Access.antt =====
-- packages/core/src/internal-api/auth.middleware.ts: the tokens of the services that may call.
use Prim.Native.String
use text.Mathlib.Text.{find?}
use pvpentech_core.Common.{
  ℕ, zero, ◌≡◌, ◌≤◌, inl, inr, refl, String, Bool, true, false, List, [], ◌∷◌, Option, none, some,
  arith, str_eq, str_eq_iff, subst, sym, ◌∙◌, leb, any, keep, map, All, if◌then◌else◌, Bool-cases,
}

-- `split(',')` and `trim` of the language.
pub record Lines : Type 0 where
  pub split : String → List String
  pub trim : String → String

abbrev or_none : List String → Option (List String)
or_none [] = none
or_none (t ∷ ts) = some (t ∷ ts)

abbrev is_long : String → Bool
is_long t = leb 32 (String.len t)

abbrev starts : Option ℕ → Bool
starts (some zero) = true
starts _ = false

-- `none` when the process ends because no token is set.
unfoldable pub load_tokens : Lines → Option String → Option (List String)
load_tokens x none = none
load_tokens x (some raw) =
    if str_eq (x.trim raw) "" then none else or_none (keep is_long (map x.trim (x.split raw)))

-- `internalAuthMiddleware`: whether the request passes, by its header and the tokens.
unfoldable pub is_authorized : List String → Option String → Bool
is_authorized tokens none = false
is_authorized tokens (some header) =
    if starts (find? header "Bearer ")
    then any (str_eq (String.slice header 7 (String.len header))) tokens
    else false

All-long : (tokens : List String) → All (λ t. 32 ≤ String.len t) (keep is_long tokens)
All-long [] = tt
All-long (t ∷ tokens) = elim (Bool-cases (is_long t)) [
  | inl e ↦ rw e (ground arith, All-long tokens)
  | inr e ↦ rw e (All-long tokens)
]

long_token :
    (token : String) (tokens : List String)
    → All (λ t. 32 ≤ String.len t) tokens
    → any (str_eq token) tokens ≡ true
    → 32 ≤ String.len token
long_token token [] h e = absurd (cc)
long_token token (t ∷ tokens) (here, h) e = elim (Bool-cases (str_eq token t)) [
  | inl k ↦
      let same : token ≡ t = ground (arith, str_eq_iff token t) in
      subst (λ u. 32 ≤ String.len u) (sym same) here
  | inr k ↦ long_token token tokens h (ground arith)
]

or_none-some : (ts tokens : List String) → or_none ts ≡ some tokens → ts ≡ tokens
or_none-some [] tokens h = absurd (cc)
or_none-some (t ∷ ts) tokens h = ground (arith)

-- With the tokens that were loaded, a request that passes has a header, and what follows the first
-- seven characters of it is a token of at least 32 characters, whatever was set.
pub load_tokens-long :
    (x : Lines) (raw : Option String) (tokens : List String) (header : String)
    → load_tokens x raw ≡ some tokens
    → is_authorized tokens (some header) ≡ true
    → 32 ≤ String.len (String.slice header 7 (String.len header))
unfolding load_tokens is_authorized
load_tokens-long x none tokens header loaded passed = absurd (cc)
load_tokens-long x (some raw) tokens header loaded passed =
    elim (Bool-cases (str_eq (x.trim raw) "")) [
      | inl e ↦ absurd (ground (arith))
      | inr e ↦
          let kept = keep is_long (map x.trim (x.split raw)) in
          let at : load_tokens x (some raw) ≡ or_none kept = rw e refl in
          let same : kept ≡ tokens = or_none-some kept tokens (sym at ∙ loaded) in
          let long : All (λ t. 32 ≤ String.len t) tokens =
            subst (All (λ t. 32 ≤ String.len t)) same (All-long (map x.trim (x.split raw))) in
          long_token (String.slice header 7 (String.len header)) tokens long (ground arith)
    ]
