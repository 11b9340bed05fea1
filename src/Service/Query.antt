-- ===== src/Service/Query.antt =====
-- `runtime_query` (src/runtime_control.c:558-574): all services together.
use text.Mathlib.Text.{◌==◌ as str_eq}
use cerebri_cubs.Prelude.{ℕ, ◌≡◌, refl, String, true, false, Option, inl, inr, Bool-cases}
use cerebri_cubs.Flatcc.{Bytes, Flatcc}
use cerebri_cubs.Reply.{Reply}
use cerebri_cubs.Runtime.{RuntimeControl}
use cerebri_cubs.Runtime.Inv.{Inv}
use cerebri_cubs.Service.{handle_param_set, handle_param_get, handle_trajectory_set, runtime_query}
use cerebri_cubs.Service.ParamSet.{DoublesFit, param_set-Inv, param_set_effect}
use cerebri_cubs.Service.Trajectory.{trajectory_set-Inv, trajectory_set_effect}

module _ (f : Flatcc) where
  -- A property of states that each handler keeps, and that not answering keeps, is kept by a query.
  query_rule :
      (P : RuntimeControl × Reply → Type 0) (service : String) (r : RuntimeControl)
      (request : Option Bytes) (capacity : ℕ)
      → P (handle_param_set f r request capacity)
      → P (handle_param_get f r request capacity)
      → P (handle_trajectory_set f r request capacity)
      → P (r, record { sent = Option.none; leaked = false })
      → P (runtime_query f service r request capacity)
  unfolding runtime_query
  query_rule P service r request capacity set get trajectory nothing =
      elim (Bool-cases (str_eq service "param_set")) [
        | inl e ↦ rw e set
        | inr e ↦ rw e (elim (Bool-cases (str_eq service "param_get")) [
          | inl e' ↦ rw e' get
          | inr e' ↦ rw e' (elim (Bool-cases (str_eq service "trajectory_set")) [
            | inl e'' ↦ rw e'' trajectory
            | inr e'' ↦ rw e'' nothing
          ])
        ])
      ]

  param_get_unchanged :
      (r : RuntimeControl) (request : Option Bytes) (capacity : ℕ)
      → (handle_param_get f r request capacity).0 ≡ r
  unfolding handle_param_get
  param_get_unchanged r request capacity = refl

  -- Whatever bytes reach whatever service, the invariant is kept.
  pub runtime_query-Inv :
      DoublesFit f
      → (service : String) (r : RuntimeControl) (request : Option Bytes) (capacity : ℕ) → Inv r
      → Inv (runtime_query f service r request capacity).0
  runtime_query-Inv fits service r request capacity inv =
      query_rule (λ t. Inv t.0) service r request capacity
        (param_set-Inv f fits r request capacity inv)
        (rw (param_get_unchanged r request capacity) inv)
        (trajectory_set-Inv f r request capacity inv) inv

  -- While another request holds the writer's flag, no request to any service changes anything.
  pub runtime_query_busy :
      (service : String) (r : RuntimeControl) (request : Option Bytes) (capacity : ℕ)
      → r.command_writer ≡ true
      → (runtime_query f service r request capacity).0 ≡ r
  runtime_query_busy service r request capacity busy =
      query_rule (λ t. t.0 ≡ r) service r request capacity
        (elim (param_set_effect f r request capacity) [
          | inl (same, _) ↦ same
          | inr a ↦ cc (a.free)
        ])
        (param_get_unchanged r request capacity)
        (elim (trajectory_set_effect f r request capacity) [
          | inl (same, _) ↦ same
          | inr a ↦ cc (a.free)
        ])
        refl
