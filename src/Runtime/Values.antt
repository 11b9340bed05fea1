-- ===== src/Runtime/Values.antt =====
-- What the loop over the values in `cubs2_runtime_control_apply` (src/runtime_control.c:623-638) does
-- to each value.
use cerebri_cubs.Prelude.{
  ℕ, ◌^◌, ◌<◌, ◌≡◌, ◌≢◌, refl, true, false, some, arith, inl, inr, Bool-cases, ◌∙◌,
}
use cerebri_cubs.AtomicDouble.{Double}
use cerebri_cubs.AtomicDouble.RoundTrip.{value_of, value_of-store}
use cerebri_cubs.Params.Table.{values_size}
use cerebri_cubs.Params.Leaves.{apply_value_self, apply_value_ne}
use cerebri_cubs.Runtime.{Both, take_value, apply_pending_value, apply_values}
use cerebri_cubs.Runtime.Inv.{Inv}
use cerebri_cubs.Runtime.Rounds.{
  Same, InEffect, Same-refl, Same-trans, InEffect-Same, rounds-Done, rounds-Inv,
}
use cerebri_cubs.Runtime.Apply.{
  apply_pending_value_staged, apply_pending_value_unstaged, apply_pending_value-Inv,
}

take_value-InEffect :
    (i : ℕ) (x : Double) (b : Both)
    → i < values_size
    → x < 2 ^ 64
    → InEffect i x (take_value i (some x) b)
unfolding take_value
take_value-InEffect i x b h fits = record {
  leaves = apply_value_self b.model i x h;
  query = ground (arith, value_of-store (b.runtime.live_values i) x fits);
  applied = ground arith;
  has = ground arith;
}

take_value_cleared :
    (i : ℕ) (x : Double) (b : Both) → (take_value i (some x) b).runtime.pending_value_set i ≡ false
unfolding take_value
take_value_cleared i x b = ground arith

take_value-Same :
    (i j : ℕ) (x : Double) (b : Both)
    → i < values_size
    → j < values_size
    → i ≢ j
    → Same j b (take_value i (some x) b)
unfolding take_value
take_value-Same i j x b hi hj ne =
    let leaves = apply_value_ne b.model i j x hi hj ne in
    record {
      live_leaf = leaves.0;
      mirror_leaf = leaves.1;
      staged = ground arith;
      pending = refl;
      slot = ground arith;
      applied = ground arith;
      has = ground arith;
    }

-- The round of another value leaves this one alone.
apply_pending_value-Same :
    (i j : ℕ) (b : Both)
    → Inv b.runtime
    → i < values_size
    → j < values_size
    → i ≢ j
    → Same j b (apply_pending_value i b)
apply_pending_value-Same i j b inv hi hj ne = elim (Bool-cases (b.runtime.pending_value_set i)) [
  | inl h ↦ rw (apply_pending_value_staged i b inv h) (take_value-Same i j _ b hi hj ne)
  | inr h ↦ rw (apply_pending_value_unstaged i b h) (Same-refl j b)
]

-- What the loop makes of value `i`: in effect if it was staged, else as before, and staged no more.
pub record Taken (i : ℕ) (b c : Both) : Type 0 where
  pub cleared : c.runtime.pending_value_set i ≡ false
  pub staged :
      b.runtime.pending_value_set i ≡ true → InEffect i (value_of (b.runtime.pending_values i)) c
  pub unstaged : b.runtime.pending_value_set i ≡ false → Same i b c

pub Taken-Same : (i : ℕ) (a b c : Both) → Taken i a b → Same i b c → Taken i a c
Taken-Same i a b c t s = record {
  cleared = s.staged ∙ t.cleared;
  staged = λ h. InEffect-Same i _ b c (t.staged h) s;
  unstaged = λ h. Same-trans i a b c (t.unstaged h) s;
}

apply_pending_value-Taken :
    (i : ℕ) (b : Both) → Inv b.runtime → i < values_size → Taken i b (apply_pending_value i b)
apply_pending_value-Taken i b inv lt = elim (Bool-cases (b.runtime.pending_value_set i)) [
  | inl h ↦ rw (apply_pending_value_staged i b inv h) (record {
    cleared = take_value_cleared i _ b;
    staged = λ _. take_value-InEffect i _ b lt (inv.pending.number i h).0;
    unstaged = λ e. cc;
  })
  | inr h ↦
      rw (apply_pending_value_unstaged i b h)
        (record { cleared = h; staged = λ e. cc; unstaged = λ _. Same-refl i b })
]

Same-Taken : (i : ℕ) (a b c : Both) → Same i a b → Taken i b c → Taken i a c
Same-Taken i a b c s t = record {
  cleared = t.cleared;
  staged = λ h. ap_InEffect (t.staged (s.staged ∙ h));
  unstaged = λ h. Same-trans i a b c s (t.unstaged (s.staged ∙ h));
}
  where
    ap_InEffect :
        InEffect i (value_of (b.runtime.pending_values i)) c
        → InEffect i (value_of (a.runtime.pending_values i)) c
    ap_InEffect e = rw s.pending at e

-- The whole loop takes every value.
pub apply_values-Taken :
    (b : Both) (i : ℕ) → Inv b.runtime → i < values_size → Taken i b (apply_values b)
unfolding apply_values
apply_values-Taken =
    rounds-Done apply_pending_value Taken apply_pending_value-Inv apply_pending_value-Taken
      apply_pending_value-Same Taken-Same Same-Taken

pub apply_values-Inv : (b : Both) → Inv b.runtime → Inv (apply_values b).runtime
unfolding apply_values
apply_values-Inv =
    rounds-Inv apply_pending_value Taken apply_pending_value-Inv apply_pending_value-Taken
      apply_pending_value-Same Taken-Same Same-Taken
