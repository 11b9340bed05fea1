-- ===== src/Program/Takes.antt =====
-- A request to set a value and the next pass of a control loop.
use mathlib.Core.Path.{subst}
use cerebri_cubs.Prelude.{ℕ, ◌<◌, ◌≡◌, refl, ap, ◌∙◌, String, Bool, true, Option, some, arith}
use cerebri_cubs.Prelude.Int.{pos}
use cerebri_cubs.Prelude.Loop.{for_to_inv}
use cerebri_cubs.AtomicDouble.{Double, AtomicDouble}
use cerebri_cubs.AtomicDouble.RoundTrip.{value_of}
use cerebri_cubs.Params.{find_value}
use cerebri_cubs.Params.Table.{values_size}
use cerebri_cubs.Params.Names.{find_value_sound}
use cerebri_cubs.Flatcc.{Bytes, accepted, Flatcc}
use cerebri_cubs.Reply.{Reply, build_param_get_reply}
use cerebri_cubs.Runtime.{
  RuntimeControl, Both, apply_staged, restore, restore_value, restore_values,
}
use cerebri_cubs.Runtime.Inv.{is_finite, IsNumber, Inv}
use cerebri_cubs.Runtime.Boundary.{apply_staged-Taken}
use cerebri_cubs.Runtime.Restart.{restore-Inv, restore_mission_runtime}
use cerebri_cubs.Service.{
  stage_value, read_param_set, read_param_get, handle_param_set, handle_param_get,
}
use cerebri_cubs.Service.Staged.{stage_value-Inv}
use cerebri_cubs.Service.ParamSet.{DoublesFit, read_fits, param_set_accepts}
use cerebri_cubs.Service.ParamGet.{param_get_lem}
use cerebri_cubs.Session.{staged_here}
use cerebri_cubs.Program.{Bounds, directly, restarted, Bounds-Inv, ControlLoop}

-- A restart keeps what is staged.
record SamePending (b c : Both) : Type 0 where
  values : c.runtime.pending_values ≡ b.runtime.pending_values
  set : c.runtime.pending_value_set ≡ b.runtime.pending_value_set

restore_value-SamePending :
    (b c : Both) (i : ℕ) → SamePending b c → SamePending b (restore_value i c)
unfolding restore_value
restore_value-SamePending b c i s = record { values = ground arith; set = ground arith }

restore-SamePending : (b : Both) → SamePending b (restore b)
unfolding restore restore_values
restore-SamePending b =
    let s =
      for_to_inv (λ i. SamePending b) restore_value values_size b
        (λ i c lt. restore_value-SamePending b c i) (record { values = refl; set = refl }) in
    let mission = restore_mission_runtime (restore_values b) in
    record {
      values = ap (λ (r : RuntimeControl). r.pending_values) mission ∙ s.values;
      set = ap (λ (r : RuntimeControl). r.pending_value_set) mission ∙ s.set;
    }

-- Value `index` is staged as `number`.
abbrev pub IsStaged : RuntimeControl → ℕ → Double → Type 0
IsStaged r index number =
    (r.pending_value_set index ≡ true) × (value_of (r.pending_values index) ≡ number)

taken_query :
    (b : Both) (index : ℕ) (number : Double)
    → Inv b.runtime
    → index < values_size
    → IsStaged b.runtime index number
    → value_of ((apply_staged b).runtime.live_values index) ≡ number
taken_query b index number inv lt (set, value) =
    ((apply_staged-Taken b index inv lt).staged set).query ∙ value

-- What is staged, queries see after a cycle boundary.
pub Bounds-query :
    (r r' : RuntimeControl) (index : ℕ) (number : Double)
    → Bounds r r'
    → Inv r
    → index < values_size
    → IsStaged r index number
    → value_of (r'.live_values index) ≡ number
Bounds-query r r' index number (directly model) inv lt staged =
    taken_query _ index number inv lt staged
Bounds-query r r' index number (restarted model) inv lt staged =
    let kept = restore-SamePending (record { runtime = r; model = model }) in
    taken_query _ index number (restore-Inv _ inv) lt (
      ap (λ (p : ℕ → Bool). p index) kept.set ∙ staged.0,
      ap (λ (p : ℕ → AtomicDouble). value_of (p index)) kept.values ∙ staged.1,
    )

module _ (f : Flatcc) (l : ControlLoop) where
  open l use {Context, Inputs, runtime, with_runtime, pass}

  -- For any control loop of which each pass that gets to its control code has one cycle boundary,
  -- with or without a restart before it: in a state of the invariant, after a request that sets a
  -- finite number under one name and the next such pass, a query answers the number under every
  -- name that stands for the same value, if every double of a request is a 64-bit pattern.
  pub set_pass_get :
      DoublesFit f
      → (c d : Context) (i : Inputs) (set get : Option Bytes) (capacity : ℕ) (name name' : String)
        (number : Double) (index : ℕ)
      → Inv (runtime c)
      → read_param_set f set ≡ some (name, number)
      → find_value name ≡ some index
      → is_finite number ≡ true
      → read_param_get f get ≡ some name'
      → find_value name' ≡ some index
      → l.samples i ≡ true
      → pass (with_runtime c (handle_param_set f (runtime c) set capacity).0) i ≡ some d
      → handle_param_get f (runtime d) get capacity
        ≡ (runtime d, build_param_get_reply f capacity accepted name' number (pos 0))
  set_pass_get fits c d i set get capacity name name' number index inv reads finds finite reads'
        finds' samples passes =
      let lt = (find_value_sound name index finds).0 in
      let n : IsNumber number = (read_fits f fits set name number reads, finite) in
      let staged = stage_value (runtime c) index number in
      let accepted_set =
        param_set_accepts f (runtime c) set capacity name number index reads finds finite
          inv.unlocked in
      let same : runtime (with_runtime c (handle_param_set f (runtime c) set capacity).0) ≡ staged =
        l.runtime_set c _ ∙ ap (λ (t : RuntimeControl × Reply). t.0) accepted_set in
      let bounds : Bounds staged (runtime d) =
        subst (λ r. Bounds r (runtime d)) same (l.bounds _ d i samples passes) in
      let inv' = stage_value-Inv (runtime c) index number inv lt n in
      let query =
        Bounds-query staged (runtime d) index number bounds inv' lt
          (staged_here f (runtime c) index number n.0) in
      param_get_lem f (runtime d) get capacity name' index reads' finds'
        ((Bounds-Inv _ _ bounds inv').live.idle index)
      ∙ ap (λ (x : Double). (runtime d, build_param_get_reply f capacity accepted name' x (pos 0)))
          query
