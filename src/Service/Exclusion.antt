-- ===== src/Service/Exclusion.antt =====
-- src/runtime_control.c:403-414 and 517-552: the handlers of `param_set` and `trajectory_set` store
-- between `atomic_flag_test_and_set` and `atomic_flag_clear` of `command_writer`. Each of the two is one
-- step here, of any number of handlers in any order.
use cerebri_cubs.Prelude.{ℕ, ◌≡◌, refl, Bool, true, false, arith}
use cerebri_cubs.Prelude.Update.{update}

-- `stores i`: handler `i` has the flag.
pub record System : Type 0 where
  pub command_writer : Bool
  pub stores : ℕ → Bool

abbrev pub at_start : System
at_start = record { command_writer = false; stores = λ i. false }

-- A handler that finds the flag set answers that it is rejected for now, and stores nothing.
pub data Step (s : System) : System → Type 0 where
  takes :
      (i : ℕ)
      → s.command_writer ≡ false
      → Step s (record { command_writer = true; stores = update s.stores i true })
  is_refused : s.command_writer ≡ true → Step s s
  clears :
      (i : ℕ)
      → s.stores i ≡ true
      → Step s (record { command_writer = false; stores = update s.stores i false })

pub data Reach : System → Type 0 where
  start : Reach at_start
  after : {s t : System} → Reach s → Step s t → Reach t

record Inv (s : System) : Type 0 where
  alone : (i j : ℕ) → s.stores i ≡ true → s.stores j ≡ true → i ≡ j
  free : s.command_writer ≡ false → (i : ℕ) → s.stores i ≡ false

Step-Inv : {s t : System} → Step s t → Inv s → Inv t
Step-Inv (takes i e) inv = record {
  alone = λ j k hj hk. ground (arith, inv.free e j, inv.free e k);
  free = λ h. cc;
}
Step-Inv (is_refused e) inv = inv
Step-Inv (clears i e) inv = record {
  alone = λ j k hj hk. ground (arith, inv.alone j k);
  free = λ h j. ground (arith, inv.alone i j);
}

Reach-Inv : {s : System} → Reach s → Inv s
Reach-Inv start = record { alone = λ i j h. cc; free = λ h i. refl }
Reach-Inv (after r st) = Step-Inv st (Reach-Inv r)

-- However any number of handlers interleave, at most one is between taking and clearing the
-- writer's flag.
pub one_writer : {s : System} → Reach s → (i j : ℕ) → s.stores i ≡ true → s.stores j ≡ true → i ≡ j
one_writer r = (Reach-Inv r).alone
