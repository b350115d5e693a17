-- ===== src/Types/Error/Codes.antt =====
-- Error codes and their numbers.
use jsonrpseex.Prelude.{◌≡◌, ◌↔◌, refl, Bool, true, false, ite, arith, ℕ_discrete}
use jsonrpseex.Prelude.Int.{ℤ, ℤ-discrete, neg}
use jsonrpseex.Types.Error.{
  ErrorCode, code, from_code, parse_error, oversized_request, invalid_request, method_not_found,
  server_is_busy, invalid_params, internal_error, server_error,
}

-- The codes that stand for themselves: the number of a server error is none of the reserved ones.
unfoldable pub is_canonical : ErrorCode → Bool
unfolding ℤ-discrete
is_canonical server_is_busy = false
is_canonical (server_error c) = ite (ℤ-discrete c (neg 32700)) false (
    ite (ℤ-discrete c (neg 32007)) false (
      ite (ℤ-discrete c (neg 32600)) false (
        ite (ℤ-discrete c (neg 32601)) false
          (ite (ℤ-discrete c (neg 32602)) false (ite (ℤ-discrete c (neg 32603)) false true)))))
is_canonical _ = true

-- A number that is read as an error code is written back as itself.
pub code-from_code : (c : ℤ) → code (from_code c) ≡ c
unfolding code from_code
code-from_code c = ground arith

-- Reading the number of an error code gives the code back exactly if it is canonical.
pub from_code-code : (c : ErrorCode) → (from_code (code c) ≡ c) ↔ (is_canonical c ≡ true)
unfolding code from_code is_canonical ℕ_discrete
from_code-code parse_error = (λ h. refl, λ h. refl)
from_code-code oversized_request = (λ h. refl, λ h. refl)
from_code-code invalid_request = (λ h. refl, λ h. refl)
from_code-code method_not_found = (λ h. refl, λ h. refl)
from_code-code server_is_busy = (λ h. absurd (cc h), λ h. absurd (cc h))
from_code-code invalid_params = (λ h. refl, λ h. refl)
from_code-code internal_error = (λ h. refl, λ h. refl)
from_code-code (server_error c) = (λ h. ground arith, λ h. ground arith)
