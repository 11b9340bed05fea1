-- ===== src/Prelude/Update.antt =====
-- Arrays and named members as functions, written at one place.
use Prim.Native.Nat.{ℕ}
use Prim.Native.String.{String}
use text.Mathlib.Text.{◌==◌ as str_eq}
use cerebri_cubs.Prelude.Tests.{◌==◌, if◌then◌else◌}

-- `a[i] = v`
abbrev pub update {ℓ} : {A : Type ℓ} → (ℕ → A) → ℕ → A → ℕ → A
update f i v j = if i == j then v else f j

-- `a[i][j] = v`
abbrev pub update₂ {ℓ} : {A : Type ℓ} → (ℕ → ℕ → A) → ℕ → ℕ → A → ℕ → ℕ → A
update₂ f i j v = update f i (update (f i) j v)

-- `s.name = v`
abbrev pub assign {ℓ} : {A : Type ℓ} → (String → A) → String → A → String → A
assign f x v y = if str_eq x y then v else f y
