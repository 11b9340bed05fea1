-- ===== src/Params/Names.antt =====
-- Names of parameters and the indices that they resolve to (src/runtime_control.c:206-256).
use text.Mathlib.Text.{◌==◌ as str_eq}
use text.Mathlib.TextEquality.{eq_iff}
use cerebri_cubs.Prelude.{
  ℕ, suc, ◌+◌, ◌<◌, ◌≡◌, refl, String, Bool, true, false, ◌&&◌, Option, none, some, List, [], ◌∷◌,
  arith, ◌==◌, Bool-cases, inl, inr, &&-true, all_below, all_below_sound,
}
use cerebri_cubs.Params.Table.{RuntimeValue, Alias, alias, value, values, values_size, aliases}
use cerebri_cubs.Params.{get_or, value_at, first_named, canonical_name, find_value}

abbrev length {ℓ} : {A : Type ℓ} → List A → ℕ
length [] = 0
length (x ∷ xs) = suc (length xs)

abbrev is_index : ℕ → Option ℕ → Bool
is_index i none = false
is_index i (some j) = i == j

is_index_sound : (i : ℕ) (o : Option ℕ) → is_index i o ≡ true → o ≡ some i
is_index_sound i none h = cc
is_index_sound i (some j) h = ground arith

names_checked : all_below values_size (λ i. is_index i (find_value (value_at i).name)) ≡ true
unfolding all_below find_value value_at
names_checked = refl

-- Each entry of the table is found under its own name, so no two entries share a name and no public
-- name hides one.
pub find_value-name : (i : ℕ) → i < values_size → find_value (value_at i).name ≡ some i
find_value-name i h =
    is_index_sound i _ (
      all_below_sound values_size (λ k. is_index k (find_value (value_at k).name)) i names_checked
        h)

abbrev pub alias_at : ℕ → Alias
alias_at k = get_or aliases k (alias "" "")

abbrev is_some_index : Option ℕ → Bool
is_some_index none = false
is_some_index (some i) = true

abbrev same_index : Option ℕ → Option ℕ → Bool
same_index none q = false
same_index (some i) q = is_index i q

same_index_sound :
    (p q : Option ℕ)
    → is_some_index p ≡ true
    → same_index p q ≡ true
    → (i : ℕ) × (p ≡ some i) × (q ≡ some i)
same_index_sound none q h e = cc
same_index_sound (some i) q h e = (i, refl, is_index_sound i q e)

first_named_sound :
    (canonical : String) (table : List RuntimeValue) (k i : ℕ)
    → first_named canonical table k ≡ some i
    → (j : ℕ) × (i ≡ k + j)
      × (j < length table)
      × (canonical ≡ (get_or table j (value "" "" 0 0)).name)
unfolding first_named
first_named_sound canonical [] k i h = cc
first_named_sound canonical (v ∷ rest) k i h = elim (Bool-cases (str_eq canonical v.name)) [
  | inl e ↦ (0, ground arith, omega arith, (eq_iff canonical v.name).0 e)
  | inr e ↦
      let (j, p, q, r) = first_named_sound canonical rest (suc k) i (ground arith) in
      (suc j, omega arith, omega arith, r)
]

-- A name that is found is answered with an index below `ARRAY_SIZE(values)`, at the entry that the
-- name or its alias spells.
pub find_value_sound :
    (name : String) (i : ℕ)
    → find_value name ≡ some i
    → (i < values_size) × (canonical_name name ≡ (value_at i).name)
unfolding value_at
find_value_sound name i h =
    let (j, p, q, r) =
      first_named_sound (canonical_name name) values 0 i (unfold find_value in h) in
    let same : i ≡ j = omega arith in (omega arith, rw same r)

aliases_checked :
    all_below 22 (λ k.
      is_some_index (find_value (alias_at k).public_name)
      && same_index (find_value (alias_at k).public_name) (find_value (alias_at k).field))
    ≡ true
unfolding all_below find_value
aliases_checked = refl

-- Every public name of the alias table stands for the parameter beside it, which is in the table.
pub find_value-alias :
    (k : ℕ)
    → k < length aliases
    → (i : ℕ) × (find_value (alias_at k).public_name ≡ some i)
      × (find_value (alias_at k).field ≡ some i)
find_value-alias k h =
    let both = &&-true _ _ (
      all_below_sound 22
        (λ k.
          is_some_index (find_value (alias_at k).public_name)
          && same_index (find_value (alias_at k).public_name) (find_value (alias_at k).field))
        k aliases_checked h) in
    same_index_sound _ _ both.0 both.1

-- The two older names of the cruise speed.
pub find_value-cruise :
    (find_value "guidance.cruiseSpeed" ≡ find_value "route_cruiseSpeed")
    × (find_value "velocity.setpoint" ≡ find_value "route_cruiseSpeed")
unfolding find_value
find_value-cruise = (refl, refl)
