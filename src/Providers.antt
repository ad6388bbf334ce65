-- ===== src/Providers.antt =====
-- apps/app-ui/app/providers.tsx: when the query library retries a failed query.
use kdelta.Prelude.{
  ℕ, Bool, true, false, List, [], ◌∷◌, ◌||◌, ◌==◌, ltb, if◌then◌else◌, ◌≡◌, ◌↔◌, arith, ◌⊎◌,
}
use kdelta.Query.{RpcError, connect_error, other_error, Codes}

module _ (code : Codes) where
  unfoldable pub terminal_codes : List ℕ
  terminal_codes =
      code.failed_precondition ∷ code.invalid_argument ∷ code.not_found ∷ code.unimplemented
      ∷ code.permission_denied ∷ code.unauthenticated ∷ []

-- `set.has(code)`
unfoldable pub has : List ℕ → ℕ → Bool
has [] c = false
has (d ∷ ds) c = (d == c) || has ds c

module _ (code : Codes) where
  unfoldable pub is_terminal : RpcError → Bool
  unfolding terminal_codes has
  is_terminal (connect_error c shown) = has (terminal_codes code) c
  is_terminal (other_error shown) = false

  unfoldable pub retry : ℕ → RpcError → Bool
  unfolding is_terminal
  retry failure_count error = if is_terminal error then false else ltb failure_count 1

  -- The errors that describe a state which the caller must change.
  abbrev pub IsTerminal : RpcError → Type 0
  IsTerminal (connect_error c shown) =
      (c ≡ code.failed_precondition)
      ⊎ (c ≡ code.invalid_argument)
      ⊎ (c ≡ code.not_found)
      ⊎ (c ≡ code.unimplemented)
      ⊎ (c ≡ code.permission_denied)
      ⊎ (c ≡ code.unauthenticated)
  IsTerminal (other_error shown) = ⊥

  -- A query is retried exactly after its first failure, and only where that is no Connect error
  -- with one of the six terminal codes.
  retry_iff :
      (failure_count : ℕ) (error : RpcError)
      → (retry failure_count error ≡ true) ↔ ((failure_count ≡ 0) × ¬ (IsTerminal error))
  unfolding retry
  retry_iff n (connect_error c shown) = (λ e. ground arith, λ h. ground arith)
  retry_iff n (other_error shown) = (λ e. ground arith, λ h. ground arith)
