-- ===== src/Runtime/Restore.antt =====
-- `cubs2_runtime_control_restore` (src/runtime_control.c:674-689): after the controller was
-- initialised anew, everything that was applied is in effect again.
use cerebri_cubs.Prelude.{
  ◌⊎◌, ℕ, ◌<◌, ◌^◌, ◌≡◌, ◌≢◌, refl, true, false, inl, inr, Bool-cases, ◌∙◌, arith, ap, ◌==◌,
}
use cerebri_cubs.Prelude.Update.{update}
use cerebri_cubs.AtomicDouble.{atomic_double_store_value}
use cerebri_cubs.AtomicDouble.RoundTrip.{store-IsIdle, value_of-store}
use cerebri_cubs.Params.{apply_value}
use cerebri_cubs.Params.Leaves.{live, mirror, apply_value_self, apply_value_ne}
use cerebri_cubs.Params.Table.{values_size}
use cerebri_cubs.Route.Replace.{apply_route_scalar}
use cerebri_cubs.Runtime.{Both, restore_value, restore_values, restore_mission, restore}
use cerebri_cubs.Runtime.Inv.{Inv}
use cerebri_cubs.Runtime.Rounds.{
  Same, InEffect, Same-refl, Same-trans, InEffect-Same, rounds-Done, rounds-Inv,
}

-- The round of a value that was applied.
unfoldable pub put_back : ℕ → Both → Both
put_back i b = record {
  model = apply_value b.model i (b.runtime.applied_values i);
  runtime = record b.runtime {
    live_values =
        update b.runtime.live_values i
          (atomic_double_store_value (b.runtime.live_values i) (b.runtime.applied_values i));
  };
}

pub restore_value_applied :
    (i : ℕ) (b : Both) → b.runtime.applied_value_set i ≡ true → restore_value i b ≡ put_back i b
unfolding restore_value put_back
restore_value_applied i b h = rw h

pub restore_value_none :
    (i : ℕ) (b : Both) → b.runtime.applied_value_set i ≡ false → restore_value i b ≡ b
unfolding restore_value
restore_value_none i b h = rw h

put_back-Inv :
    (i : ℕ) (b : Both)
    → b.runtime.applied_value_set i ≡ true
    → Inv b.runtime
    → Inv (put_back i b).runtime
unfolding put_back
put_back-Inv i b h inv =
    let number = inv.live.number i h in
    let stored =
      store-IsIdle (b.runtime.live_values i) (b.runtime.applied_values i) (inv.live.idle i) in
    let read = value_of-store (b.runtime.live_values i) (b.runtime.applied_values i) number.0 in
    record {
      plan = inv.plan;
      unlocked = inv.unlocked;
      pending = inv.pending;
      live = record {
        idle = λ j. ground (arith, inv.live.idle j, stored);
        number = inv.live.number;
        live = λ j h. elim (Bool-cases (i == j)) [
          | inl e ↦ ground (arith, read)
          | inr e ↦ rw e (inv.live.live j h)
        ];
      };
      mission = inv.mission;
      applied = inv.applied;
    }

restore_value-Inv : (i : ℕ) (b : Both) → Inv b.runtime → Inv (restore_value i b).runtime
restore_value-Inv i b inv = elim (Bool-cases (b.runtime.applied_value_set i)) [
  | inl h ↦ rw (restore_value_applied i b h) (put_back-Inv i b h inv)
  | inr h ↦ rw (restore_value_none i b h) inv
]

put_back-InEffect :
    (i : ℕ) (b : Both)
    → i < values_size
    → b.runtime.applied_value_set i ≡ true
    → b.runtime.applied_values i < 2 ^ 64
    → InEffect i (b.runtime.applied_values i) (put_back i b)
unfolding put_back
put_back-InEffect i b lt h fits = record {
  leaves = apply_value_self b.model i (b.runtime.applied_values i) lt;
  query =
      ground (arith, value_of-store (b.runtime.live_values i) (b.runtime.applied_values i) fits);
  applied = refl;
  has = h;
}

put_back-Same :
    (i j : ℕ) (b : Both) → i < values_size → j < values_size → i ≢ j → Same j b (put_back i b)
unfolding put_back
put_back-Same i j b hi hj ne =
    let leaves = apply_value_ne b.model i j (b.runtime.applied_values i) hi hj ne in
    record {
      live_leaf = leaves.0;
      mirror_leaf = leaves.1;
      staged = refl;
      pending = refl;
      slot = ground arith;
      applied = refl;
      has = refl;
    }

restore_value-Same :
    (i j : ℕ) (b : Both)
    → Inv b.runtime
    → i < values_size
    → j < values_size
    → i ≢ j
    → Same j b (restore_value i b)
restore_value-Same i j b inv hi hj ne = elim (Bool-cases (b.runtime.applied_value_set i)) [
  | inl h ↦ rw (restore_value_applied i b h) (put_back-Same i j b hi hj ne)
  | inr h ↦ rw (restore_value_none i b h) (Same-refl j b)
]

-- What a restart makes of value `i`: in effect if it was ever applied, else as the controller's own
-- initialisation left it.
pub record Restored (i : ℕ) (b c : Both) : Type 0 where
  pub applied : b.runtime.applied_value_set i ≡ true → InEffect i (b.runtime.applied_values i) c
  pub never : b.runtime.applied_value_set i ≡ false → Same i b c

restore_value-Restored :
    (i : ℕ) (b : Both) → Inv b.runtime → i < values_size → Restored i b (restore_value i b)
restore_value-Restored i b inv lt = elim (Bool-cases (b.runtime.applied_value_set i)) [
  | inl h ↦ rw (restore_value_applied i b h) (record {
    applied = λ _. put_back-InEffect i b lt h (inv.live.number i h).0;
    never = λ e. cc;
  })
  | inr h ↦ rw (restore_value_none i b h) (record { applied = λ e. cc; never = λ _. Same-refl i b })
]

Restored-Same : (i : ℕ) (a b c : Both) → Restored i a b → Same i b c → Restored i a c
Restored-Same i a b c t s = record {
  applied = λ h. InEffect-Same i _ b c (t.applied h) s;
  never = λ h. Same-trans i a b c (t.never h) s;
}

Same-Restored : (i : ℕ) (a b c : Both) → Same i a b → Restored i b c → Restored i a c
Same-Restored i a b c s t = record {
  applied = λ h. to_a (t.applied (s.has ∙ h));
  never = λ h. Same-trans i a b c s (t.never (s.has ∙ h));
}
  where
    to_a : InEffect i (b.runtime.applied_values i) c → InEffect i (a.runtime.applied_values i) c
    to_a e = rw s.applied at e

restore_values-Restored :
    (b : Both) (i : ℕ) → Inv b.runtime → i < values_size → Restored i b (restore_values b)
unfolding restore_values
restore_values-Restored =
    rounds-Done restore_value Restored restore_value-Inv restore_value-Restored restore_value-Same
      Restored-Same Same-Restored

pub restore_values-Inv : (b : Both) → Inv b.runtime → Inv (restore_values b).runtime
unfolding restore_values
restore_values-Inv =
    rounds-Inv restore_value Restored restore_value-Inv restore_value-Restored restore_value-Same
      Restored-Same Same-Restored

restore_mission-Same : (i : ℕ) (b : Both) → Same i b (restore_mission b)
unfolding restore_mission
restore_mission-Same i b =
    let scalars =
      apply_route_scalar b.model b.runtime.applied_waypoints b.runtime.applied_segments in
    elim (Bool-cases b.runtime.applied_mission) [
      | inl h ↦ simp h (record {
        live_leaf = ap (λ f. f (live i)) scalars;
        mirror_leaf = ap (λ f. f (mirror i)) scalars;
        staged = refl;
        pending = refl;
        slot = refl;
        applied = refl;
        has = refl;
      })
      | inr h ↦ simp h (Same-refl i b)
    ]

-- The same rounds for the whole restart.
pub restore-Restored :
    (b : Both) (i : ℕ) → Inv b.runtime → i < values_size → Restored i b (restore b)
unfolding restore
restore-Restored b i inv h =
    Restored-Same i b (restore_values b) _ (restore_values-Restored b i inv h)
      (restore_mission-Same i (restore_values b))

-- A value was applied before and is in effect again, or never was and is as before.
abbrev pub PutBack : ℕ → Both → Both → Type 0
PutBack i b c =
    ((b.runtime.applied_value_set i ≡ true) × InEffect i (b.runtime.applied_values i) c)
    ⊎ ((b.runtime.applied_value_set i ≡ false) × Same i b c)

-- In a state of the invariant, a restart puts every value that was ever applied in effect again,
-- whatever the controller's own initialisation had put there; the leaves of the others stay as that
-- left them.
pub restore-PutBack : (b : Both) (i : ℕ) → Inv b.runtime → i < values_size → PutBack i b (restore b)
restore-PutBack b i inv lt =
    let restored = restore-Restored b i inv lt in
    elim (Bool-cases (b.runtime.applied_value_set i)) [
      | inl h ↦ inl (h, restored.applied h)
      | inr h ↦ inr (h, restored.never h)
    ]
