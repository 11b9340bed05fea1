-- ===== src/Reply/Release.antt =====
-- The replies of src/runtime_control.c:258-357: their size, and the release of the builder.
use cerebri_cubs.Prelude.{ℕ, ◌≤◌, ◌≡◌, refl, true, false, Option, none, some, List, arith, ◌↔◌}
use cerebri_cubs.Flatcc.{Bytes, BuilderCall, Flatcc}
use cerebri_cubs.Reply.{
  length, finish_data, finish_reply, finish_calls, emit_all, after_start, build_reply,
}

module _ (f : Flatcc) where
  open f use {Builder, emit, direct_buffer}

  finish_data_fits :
      (capacity : ℕ) (bytes : Option Bytes) (out : Bytes)
      → (finish_data f capacity bytes).sent ≡ some out
      → (length out ≤ capacity) × ((finish_data f capacity bytes).leaked ≡ false)
  finish_data_fits capacity none out h = cc
  finish_data_fits capacity (some bytes) out h = ground arith

  finish_data_released :
      (capacity : ℕ) (bytes : Option Bytes) → (finish_data f capacity bytes).leaked ≡ false
  finish_data_released capacity none = refl
  finish_data_released capacity (some bytes) = ground arith

  finish_calls_fits :
      (capacity : ℕ) (b : Option Builder) (out : Bytes)
      → (finish_calls f b capacity).sent ≡ some out
      → length out ≤ capacity
  unfolding finish_calls finish_reply
  finish_calls_fits capacity none out h = cc
  finish_calls_fits capacity (some b) out h = (finish_data_fits capacity (direct_buffer b) out h).0

  finish_calls_released :
      (capacity : ℕ) (b : Option Builder) → (finish_calls f b capacity).leaked ≡ false
  unfolding finish_calls finish_reply
  finish_calls_released capacity none = refl
  finish_calls_released capacity (some b) = finish_data_released capacity (direct_buffer b)

  after_start_fits :
      (b : Option Builder) (calls : List BuilderCall) (capacity : ℕ) (out : Bytes)
      → (after_start f b calls capacity).sent ≡ some out
      → length out ≤ capacity
  unfolding after_start
  after_start_fits none calls capacity out h = cc
  after_start_fits (some b) calls capacity out h = finish_calls_fits capacity _ out h

  -- A reply that is sent is no longer than the caller's buffer.
  pub build_reply_fits :
      (b : Option Builder) (start : BuilderCall) (calls : List BuilderCall) (capacity : ℕ)
      (out : Bytes)
      → (build_reply f b start calls capacity).sent ≡ some out
      → length out ≤ capacity
  unfolding build_reply
  build_reply_fits none start calls capacity out h = cc
  build_reply_fits (some b) start calls capacity out h =
      after_start_fits (emit b start) calls capacity out h

  after_start_leaks :
      (b : Option Builder) (calls : List BuilderCall) (capacity : ℕ)
      → ((after_start f b calls capacity).leaked ≡ true) ↔ (b ≡ none)
  unfolding after_start
  after_start_leaks none calls capacity = ((λ _. refl), (λ _. refl))
  after_start_leaks (some b) calls capacity =
      ((λ h. cc (finish_calls_released capacity (emit_all f (some b) calls))), (λ h. cc))

  -- With a builder that could be initialised, it is left uncleared exactly if the first call of the
  -- reply fails; a failure of any later call, a missing buffer and one that is too long all clear
  -- it.
  pub build_reply_leaks :
      (b : Builder) (start : BuilderCall) (calls : List BuilderCall) (capacity : ℕ)
      → ((build_reply f (some b) start calls capacity).leaked ≡ true) ↔ (emit b start ≡ none)
  unfolding build_reply
  build_reply_leaks b start calls capacity = after_start_leaks (emit b start) calls capacity
