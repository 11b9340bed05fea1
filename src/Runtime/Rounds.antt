-- ===== src/Runtime/Rounds.antt =====
-- Loops over the values of the table (src/runtime_control.c:623-638, 679-685): a round that leaves all
-- other values alone does to each value what its own round does.
use native.Mathlib.Decide.{ℕ_discrete}
use cerebri_cubs.Prelude.{ℕ, suc, ◌≤◌, ◌<◌, ◌≡◌, ◌≢◌, refl, true, arith, ◌∙◌, ap}
use cerebri_cubs.Prelude.Loop.{for_to, for_to_inv}
use cerebri_cubs.AtomicDouble.{Double}
use cerebri_cubs.AtomicDouble.RoundTrip.{value_of}
use cerebri_cubs.Params.Table.{values_size}
use cerebri_cubs.Params.Leaves.{live, mirror, LeavesHold}
use cerebri_cubs.Runtime.{Both}
use cerebri_cubs.Runtime.Inv.{Inv}

-- All that there is of value `i` is the same in `b` and `c`.
pub record Same (i : ℕ) (b c : Both) : Type 0 where
  pub live_leaf : c.model.scalar (live i) ≡ b.model.scalar (live i)
  pub mirror_leaf : c.model.scalar (mirror i) ≡ b.model.scalar (mirror i)
  pub staged : c.runtime.pending_value_set i ≡ b.runtime.pending_value_set i
  pub pending : c.runtime.pending_values i ≡ b.runtime.pending_values i
  pub slot : c.runtime.live_values i ≡ b.runtime.live_values i
  pub applied : c.runtime.applied_values i ≡ b.runtime.applied_values i
  pub has : c.runtime.applied_value_set i ≡ b.runtime.applied_value_set i

-- Value `i` is in effect as `x`: in both leaves of the controller, for a query, and for a restart.
pub record InEffect (i : ℕ) (x : Double) (c : Both) : Type 0 where
  pub leaves : LeavesHold c.model i x
  pub query : value_of (c.runtime.live_values i) ≡ x
  pub applied : c.runtime.applied_values i ≡ x
  pub has : c.runtime.applied_value_set i ≡ true

pub Same-refl : (i : ℕ) (b : Both) → Same i b b
Same-refl i b = record {
  live_leaf = refl;
  mirror_leaf = refl;
  staged = refl;
  pending = refl;
  slot = refl;
  applied = refl;
  has = refl;
}

pub Same-trans : (i : ℕ) (a b c : Both) → Same i a b → Same i b c → Same i a c
Same-trans i a b c p q = record {
  live_leaf = q.live_leaf ∙ p.live_leaf;
  mirror_leaf = q.mirror_leaf ∙ p.mirror_leaf;
  staged = q.staged ∙ p.staged;
  pending = q.pending ∙ p.pending;
  slot = q.slot ∙ p.slot;
  applied = q.applied ∙ p.applied;
  has = q.has ∙ p.has;
}

pub InEffect-Same : (i : ℕ) (x : Double) (b c : Both) → InEffect i x b → Same i b c → InEffect i x c
InEffect-Same i x b c e s = record {
  leaves = (s.live_leaf ∙ e.leaves.0, s.mirror_leaf ∙ e.leaves.1);
  query = ap value_of s.slot ∙ e.query;
  applied = s.applied ∙ e.applied;
  has = s.has ∙ e.has;
}

-- `Done i b c` says what the loop made of value `i` on its way from `b` to `c`.
module _ (body : ℕ → Both → Both) (Done : ℕ → Both → Both → Type 0)
    (keeps : (i : ℕ) (b : Both) → Inv b.runtime → Inv (body i b).runtime)
    (own : (i : ℕ) (b : Both) → Inv b.runtime → i < values_size → Done i b (body i b))
    (other : (i j : ℕ) (b : Both)
      → Inv b.runtime
      → i < values_size
      → j < values_size
      → i ≢ j
      → Same j b (body i b))
    (after : (i : ℕ) (a b c : Both) → Done i a b → Same i b c → Done i a c)
    (before : (i : ℕ) (a b c : Both) → Same i a b → Done i b c → Done i a c) where
  -- After `n` rounds the values below `n` are done, and the others are untouched.
  record Rounds (b : Both) (n : ℕ) (c : Both) : Type 0 where
    inv : Inv c.runtime
    done : (i : ℕ) → i < values_size → i < n → Done i b c
    rest : (i : ℕ) → i < values_size → n ≤ i → Same i b c

  Rounds-step :
      (b : Both) (n : ℕ) (c : Both) → n < values_size → Rounds b n c → Rounds b (suc n) (body n c)
  Rounds-step b n c lt r = record {
    inv = keeps n c r.inv;
    done = λ i small below. elim (ℕ_discrete n i) [
      | yes e ↦ rw (← e) (before n b c _ (r.rest n lt (omega arith)) (own n c r.inv lt))
      | no ne ↦ after i b c _ (r.done i small (omega arith)) (other n i c r.inv lt small ne)
    ];
    rest = λ i small above.
        Same-trans i b c _ (r.rest i small (omega arith))
          (other n i c r.inv lt small (omega arith));
  }

  rounds : (b : Both) → Inv b.runtime → Rounds b values_size (for_to values_size body b)
  rounds b inv =
      for_to_inv (Rounds b) body values_size b (λ n c lt. Rounds-step b n c lt)
        (record {
          inv = inv;
          done = λ j small below. absurd (omega arith);
          rest = λ j small above. Same-refl j b;
        })

  pub rounds-Done :
      (b : Both) (i : ℕ) → Inv b.runtime → i < values_size → Done i b (for_to values_size body b)
  rounds-Done b i inv h = (rounds b inv).done i h h

  pub rounds-Inv : (b : Both) → Inv b.runtime → Inv (for_to values_size body b).runtime
  rounds-Inv b inv = (rounds b inv).inv
