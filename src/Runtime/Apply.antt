-- ===== src/Runtime/Apply.antt =====
-- `cubs2_runtime_control_apply` (src/runtime_control.c:611-672) in one round of its loop over the values
-- keeps the invariant.
use cerebri_cubs.Prelude.{ℕ, ◌≡◌, true, false, some, arith, inl, inr, Bool-cases}
use cerebri_cubs.AtomicDouble.{Double}
use cerebri_cubs.AtomicDouble.RoundTrip.{value_of, store-IsIdle, try_load_idle, value_of-store}
use cerebri_cubs.Runtime.{Both, take_value, apply_pending_value}
use cerebri_cubs.Runtime.Inv.{IsNumber, Inv}

-- The value that is staged for `i` is stored away.
take_value-Inv :
    (i : ℕ) (value : Double) (b : Both)
    → IsNumber value
    → Inv b.runtime
    → Inv (take_value i (some value) b).runtime
unfolding take_value
take_value-Inv i value b n inv =
    let stored = store-IsIdle (b.runtime.live_values i) value (inv.live.idle i) in
    let read = value_of-store (b.runtime.live_values i) value n.0 in
    record {
      plan = inv.plan;
      unlocked = inv.unlocked;
      pending = record {
        idle = inv.pending.idle;
        below = λ j. ground (arith, inv.pending.below j);
        number = λ j. ground (arith, inv.pending.number j);
      };
      live = record {
        idle = λ j. ground (arith, inv.live.idle j, stored);
        number = λ j. ground (arith, inv.live.number j);
        live = λ j. ground (arith, inv.live.live j, read);
      };
      mission = inv.mission;
      applied = inv.applied;
    }

-- With every slot idle the load of a staged value succeeds.
pub apply_pending_value_staged :
    (i : ℕ) (b : Both)
    → Inv b.runtime
    → b.runtime.pending_value_set i ≡ true
    → apply_pending_value i b ≡ take_value i (some (value_of (b.runtime.pending_values i))) b
unfolding apply_pending_value
apply_pending_value_staged i b inv h = rw (h, try_load_idle _ (inv.pending.idle i))

pub apply_pending_value_unstaged :
    (i : ℕ) (b : Both) → b.runtime.pending_value_set i ≡ false → apply_pending_value i b ≡ b
unfolding apply_pending_value
apply_pending_value_unstaged i b h = rw h

pub apply_pending_value-Inv :
    (i : ℕ) (b : Both) → Inv b.runtime → Inv (apply_pending_value i b).runtime
apply_pending_value-Inv i b inv = elim (Bool-cases (b.runtime.pending_value_set i)) [
  | inl h ↦
      rw (apply_pending_value_staged i b inv h) (take_value-Inv i _ b (inv.pending.number i h) inv)
  | inr h ↦ rw (apply_pending_value_unstaged i b h) inv
]
