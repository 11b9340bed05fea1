-- ===== src/Params.antt =====
-- src/runtime_control.c:28-34, 68-123 and 173-256: the table of tunable values, the public names of
-- the parameters, and the write of one value into the controller.
pub mod Table
pub mod Names
pub mod Leaves
use text.Mathlib.Text.{◌==◌ as str_eq}
use cerebri_cubs.Prelude.{
  ℕ, zero, suc, String, Bool, ◌||◌, Option, none, some, List, [], ◌∷◌, if◌then◌else◌,
}
use cerebri_cubs.Prelude.Update.{assign}
use cerebri_cubs.AtomicDouble.{Double}
use cerebri_cubs.OuterLoop.{OuterLoopState}

-- An index past the table would read other memory: no caller does (`Params.Names`).
abbrev pub get_or {ℓ} : {A : Type ℓ} → List A → ℕ → A → A
get_or [] i d = d
get_or (x ∷ xs) zero d = x
get_or (x ∷ xs) (suc i) d = get_or xs i d

unfoldable pub value_at : ℕ → Table.RuntimeValue
value_at i = get_or Table.values i (Table.value "" "" 0 0)

-- The loop over `aliases`; the name itself if none fits.
unfoldable pub first_alias : String → List Table.Alias → String
first_alias name [] = name
first_alias name (a ∷ rest) = if str_eq name a.public_name then a.field else first_alias name rest

unfoldable pub canonical_name : String → String
unfolding first_alias
canonical_name name =
    if str_eq name "guidance.cruiseSpeed" || str_eq name "velocity.setpoint"
    then "route_cruiseSpeed"
    else first_alias name Table.aliases

-- The loop over `values` from index `i` on; `none` is -1.
unfoldable pub first_named : String → List Table.RuntimeValue → ℕ → Option ℕ
first_named canonical [] i = none
first_named canonical (v ∷ rest) i =
    if str_eq canonical v.name then some i else first_named canonical rest (suc i)

unfoldable pub find_value : String → Option ℕ
unfolding canonical_name first_named
find_value name = first_named (canonical_name name) Table.values 0

-- Both leaves of the value get the number: the live one first, then its mirror.
unfoldable pub apply_value : OuterLoopState → ℕ → Double → OuterLoopState
unfolding value_at
apply_value model index number = record model {
  scalar =
      assign (assign model.scalar (value_at index).live_offset number)
        (value_at index).mirror_offset number;
}
