-- ===== src/Prelude/Loop.antt =====
-- Counted loops: `for_to n body s` is `for (i = 0; i < n; i++) s = body(i, s);`.
use Prim.Native.Nat.{ℕ, zero, suc, ◌<◌}
use native.Mathlib.Omega.{arith}

unfoldable pub for_to {ℓ} : {S : Type ℓ} → ℕ → (ℕ → S → S) → S → S
for_to zero body s = s
for_to (suc n) body s = body n (for_to n body s)

-- The invariant rule: `P i` holds before round `i`.
pub for_to_inv {ℓ κ} :
    {S : Type ℓ} (P : ℕ → S → Type κ) (body : ℕ → S → S) (n : ℕ) (s : S)
    → ((i : ℕ) (t : S) → i < n → P i t → P (suc i) (body i t))
    → P zero s
    → P n (for_to n body s)
unfolding for_to
for_to_inv P body zero s keep h = h
for_to_inv P body (suc n) s keep h =
    keep n (for_to n body s) (omega arith)
      (for_to_inv P body n s (λ i t lt. keep i t (omega arith)) h)
