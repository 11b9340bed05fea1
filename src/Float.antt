-- ===== src/Float.antt =====
-- `isfinite` of a float and the conversion of a float to a double, on the bit patterns of the two
-- formats (IEEE 754 binary32 and binary64), as src/runtime_control.c:497-514 uses them on waypoints.
use cerebri_cubs.Prelude.{
  ℕ, zero, suc, ◌+◌, ◌-◌, ◌*◌, ◌/◌, ◌%◌, ◌^◌, ◌≤◌, ◌<◌, ◌≡◌, refl, Bool, true, not, Bool-cases, inl,
  inr, ltb, ◌==◌, if◌then◌else◌, arith,
}
use cerebri_cubs.AtomicDouble.{Double}
use cerebri_cubs.Runtime.Inv.{IsNumber}

abbrev pub sign : ℕ → ℕ
sign bits = bits / 2 ^ 31 % 2

abbrev pub exponent : ℕ → ℕ
exponent bits = bits / 2 ^ 23 % 256

abbrev pub fraction : ℕ → ℕ
fraction bits = bits % 2 ^ 23

abbrev pub is_finite_float : ℕ → Bool
is_finite_float bits = not (exponent bits == 255)

abbrev pub pack : ℕ → ℕ → ℕ → Double
pack s e m = s * 2 ^ 63 + e * 2 ^ 52 + m

pub record Scaled : Type 0 where
  pub exp : ℕ
  pub mantissa : ℕ

-- A subnormal fraction is doubled until its leading bit stands at 2 ^ 23.
unfoldable pub normalise : ℕ → ℕ → ℕ → Scaled
normalise zero e m = record { exp = e; mantissa = m }
normalise (suc rounds) e m =
    let next = normalise rounds (e - 1) (2 * m) in
    if ltb m (2 ^ 23) then next else record { exp = e; mantissa = m }

abbrev pack_scaled : ℕ → Scaled → Double
pack_scaled s r = pack s r.exp ((r.mantissa % 2 ^ 23) * 2 ^ 29)

unfoldable pub widen : ℕ → Double
widen bits =
    if exponent bits == 255
    then pack (sign bits) 2047 (fraction bits * 2 ^ 29)
    else if exponent bits == 0
    then (if fraction bits == 0
        then pack (sign bits) 0 0
        else pack_scaled (sign bits) (normalise 23 897 (fraction bits)))
    else pack (sign bits) (exponent bits + 896) (fraction bits * 2 ^ 29)

normalise-exp-le : (rounds e m : ℕ) → (normalise rounds e m).exp ≤ e
unfolding normalise
normalise-exp-le zero e m = omega arith
normalise-exp-le (suc rounds) e m = ground (arith, normalise-exp-le rounds (e - 1) (2 * m))

pack-IsNumber : (s e m : ℕ) → s < 2 → e < 2047 → m < 2 ^ 52 → IsNumber (pack s e m)
pack-IsNumber s e m hs he hm = ground arith

-- A finite float becomes a finite double.
pub widen-IsNumber : (bits : ℕ) → is_finite_float bits ≡ true → IsNumber (widen bits)
unfolding widen
widen-IsNumber bits h = elim (Bool-cases (exponent bits == 0)) [
  | inl small ↦ elim (Bool-cases (fraction bits == 0)) [
    | inl none ↦ ground (arith, pack-IsNumber (sign bits) 0 0)
    | inr some ↦
        let r = normalise 23 897 (fraction bits) in
        ground (
          arith,
          normalise-exp-le 23 897 (fraction bits),
          pack-IsNumber (sign bits) r.exp ((r.mantissa % 2 ^ 23) * 2 ^ 29),
        )
  ]
  | inr normal ↦
      ground (arith, pack-IsNumber (sign bits) (exponent bits + 896) (fraction bits * 2 ^ 29))
]

one_half_widened : widen 0x3f00_0000 ≡ 0x3fe0_0000_0000_0000
unfolding widen
one_half_widened = refl

smallest_widened : widen 1 ≡ 0x36a0_0000_0000_0000
unfolding widen normalise
smallest_widened = refl
