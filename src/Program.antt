-- ===== src/Program.antt =====
-- A control loop together with the configuration services: the order in which queries and passes of the
-- loop come is any one. `main` of src/main_sil.c and of src/main_realtime.c call the runtime control, whose
-- handlers run between two passes.
pub mod Takes
use mathlib.Core.Path.{subst}
use cerebri_cubs.Prelude.{
  ℕ, ◌<◌, ◌≡◌, refl, sym, ap, ◌∙◌, String, Bool, true, false, Option, none, some, List, [], ◌∷◌,
  Option-cases, Bool-cases, inl, inr,
}
use cerebri_cubs.Prelude.Int.{pos}
use cerebri_cubs.AtomicDouble.{Double}
use cerebri_cubs.OuterLoop.{OuterLoopState}
use cerebri_cubs.Params.{find_value}
use cerebri_cubs.Params.Table.{values_size}
use cerebri_cubs.Params.Names.{find_value_sound}
use cerebri_cubs.Flatcc.{Bytes, accepted, Flatcc}
use cerebri_cubs.Reply.{build_param_get_reply}
use cerebri_cubs.Runtime.{RuntimeControl, Both, apply_staged, restore}
use cerebri_cubs.Runtime.Inv.{is_finite, Inv}
use cerebri_cubs.Runtime.Boundary.{apply_staged-Inv}
use cerebri_cubs.Runtime.Restart.{restore-Inv}
use cerebri_cubs.Service.{runtime_query}
use cerebri_cubs.Service.ParamSet.{DoublesFit}
use cerebri_cubs.Service.Query.{runtime_query-Inv}

-- What a pass makes of the runtime control: a cycle boundary, after a restart of the controller or not,
-- with whatever the controller holds then.
pub data Bounds (r : RuntimeControl) : RuntimeControl → Type 0 where
  directly :
      (model : OuterLoopState)
      → Bounds r (apply_staged (record { runtime = r; model = model })).runtime
  restarted :
      (model : OuterLoopState)
      → Bounds r (apply_staged (restore (record { runtime = r; model = model }))).runtime

pub Bounds-Inv : (r r' : RuntimeControl) → Bounds r r' → Inv r → Inv r'
Bounds-Inv r r' (directly model) inv = apply_staged-Inv _ inv
Bounds-Inv r r' (restarted model) inv = apply_staged-Inv _ (restore-Inv _ inv)

-- What the runtime control asks of a loop. `pass` is `none` where the program ends; `samples` tells the
-- passes that get to the control code from those that go round before it.
pub record ControlLoop : Type 1 where
  pub Context : Type 0
  pub Inputs : Type 0
  pub runtime : Context → RuntimeControl
  pub with_runtime : Context → RuntimeControl → Context
  pub samples : Inputs → Bool
  pub pass : Context → Inputs → Option Context
  pub runtime_set : (c : Context) (r : RuntimeControl) → runtime (with_runtime c r) ≡ r
  pub bounds :
      (c d : Context) (i : Inputs)
      → samples i ≡ true
      → pass c i ≡ some d
      → Bounds (runtime c) (runtime d)
  pub waits :
      (c d : Context) (i : Inputs) → samples i ≡ false → pass c i ≡ some d → runtime d ≡ runtime c

module _ (f : Flatcc) (l : ControlLoop) where
  open l use {Context, Inputs, runtime, with_runtime, pass}

  -- A query reaches the handler that was registered for the service.
  pub data Event : Type 0 where
    query : (service : String) (request : Option Bytes) (capacity : ℕ) → Event
    cycle : Inputs → Event

  unfoldable pub step : Context → Event → Option Context
  step c (query service request capacity) =
      some (with_runtime c (runtime_query f service (runtime c) request capacity).0)
  step c (cycle i) = pass c i

  abbrev pub on_next : {A B : Type 0} → (A → Option B) → Option A → Option B
  on_next f none = none
  on_next f (some a) = f a

  -- The events of a run; `none` where the program has ended.
  unfoldable pub run : Context → List Event → Option Context
  run c [] = some c
  run c (e ∷ rest) = on_next (λ d. run d rest) (step c e)

  loop_pass-Inv :
      (c d : Context) (i : Inputs) → Inv (runtime c) → pass c i ≡ some d → Inv (runtime d)
  loop_pass-Inv c d i inv h = elim (Bool-cases (l.samples i)) [
    | inl samples ↦ Bounds-Inv _ _ (l.bounds c d i samples h) inv
    | inr waits ↦ rw (l.waits c d i waits h) inv
  ]

  loop_step-Inv :
      DoublesFit f
      → (c d : Context) (e : Event) → Inv (runtime c)
      → step c e ≡ some d
      → Inv (runtime d)
  unfolding step
  loop_step-Inv fits c d (query service request capacity) inv h =
      let r = (runtime_query f service (runtime c) request capacity).0 in
      let same : with_runtime c r ≡ d = cc in
      subst (λ (x : Context). Inv (runtime x)) same
        (rw (l.runtime_set c r) (runtime_query-Inv f fits service (runtime c) request capacity inv))
  loop_step-Inv fits c d (cycle i) inv h = loop_pass-Inv c d i inv h

  pub loop_run-Inv :
      DoublesFit f
      → (c d : Context) (events : List Event) → Inv (runtime c)
      → run c events ≡ some d
      → Inv (runtime d)
  unfolding run
  loop_run-Inv fits c d [] inv h = let same : c ≡ d = cc in rw same at inv
  loop_run-Inv fits c d (e ∷ rest) inv h = elim (Option-cases (step c e)) [
    | inl ended ↦ cc (rw ended at h)
    | inr (next, steps) ↦
        loop_run-Inv fits next d rest (loop_step-Inv fits c next e inv steps) (rw steps at h)
  ]
