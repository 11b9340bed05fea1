-- ===== src/Reply.antt =====
-- src/runtime_control.c:258-357: the replies of the services, built call by call.
pub mod Release
use cerebri_cubs.Prelude.{
  ℕ, zero, suc, String, Bool, true, false, Option, none, some, List, [], ◌∷◌, ◌++◌, ltb,
  if◌then◌else◌,
}
use cerebri_cubs.Prelude.Int.{ℤ}
use cerebri_cubs.AtomicDouble.{Double}
use cerebri_cubs.Flatcc.{
  Bytes, CommandResultCode, BuilderCall, accepted, denied, failed, unsupported,
  temporarily_rejected, Flatcc,
}

abbrev pub length {ℓ} : {A : Type ℓ} → List A → ℕ
length [] = 0
length (x ∷ xs) = suc (length xs)

-- The bytes that were copied to the caller's buffer if the function returns true, and whether it
-- returns with a builder that was initialised and not cleared.
pub record Reply : Type 0 where
  pub sent : Option Bytes
  pub leaked : Bool

abbrev pub trajectory_id : ℕ
trajectory_id = 1

abbrev pub is_accepted : CommandResultCode → Bool
is_accepted accepted = true
is_accepted _ = false

module _ (f : Flatcc) where
  open f use {Builder, init, emit, direct_buffer}

  abbrev finish_data : ℕ → Option Bytes → Reply
  finish_data capacity none = record { sent = none; leaked = false }
  finish_data capacity (some bytes) =
      if ltb capacity (length bytes)
      then record { sent = none; leaked = false }
      else record { sent = some bytes; leaked = false }

  -- The builder is cleared on both ways out.
  unfoldable pub finish_reply : Builder → ℕ → Reply
  finish_reply builder capacity = finish_data capacity (direct_buffer builder)

  -- A chain `call(…) != 0 || call(…) != 0 || …`, which ends at the first failure.
  unfoldable pub emit_all : Option Builder → List BuilderCall → Option Builder
  emit_all none calls = none
  emit_all (some builder) [] = some builder
  emit_all (some builder) (call ∷ rest) = emit_all (emit builder call) rest

  -- The rest of a reply, after its first call; a failure clears the builder.
  unfoldable pub finish_calls : Option Builder → ℕ → Reply
  finish_calls none capacity = record { sent = none; leaked = false }
  finish_calls (some builder) capacity = finish_reply builder capacity

  -- After a failure of the first call the builder is not cleared.
  unfoldable pub after_start : Option Builder → List BuilderCall → ℕ → Reply
  after_start none calls capacity = record { sent = none; leaked = true }
  after_start (some builder) calls capacity = finish_calls (emit_all (some builder) calls) capacity

  unfoldable pub build_reply : Option Builder → BuilderCall → List BuilderCall → ℕ → Reply
  build_reply none start calls capacity = record { sent = none; leaked = false }
  build_reply (some builder) start calls capacity = after_start (emit builder start) calls capacity

  abbrev pub param_set_calls : CommandResultCode → String → Double → ℤ → List BuilderCall
  param_set_calls result name value detail =
      BuilderCall.param_set_reply_value_start
      ∷ BuilderCall.param_value_name name
      ∷ BuilderCall.param_value_kind_float
      ∷ BuilderCall.param_value_float value
      ∷ BuilderCall.param_set_reply_value_end
      ∷ BuilderCall.param_set_reply_result result
      ∷ BuilderCall.param_set_reply_result_detail detail
      ∷ BuilderCall.param_set_reply_end
      ∷ []

  unfoldable pub build_param_set_reply : ℕ → CommandResultCode → String → Double → ℤ → Reply
  build_param_set_reply capacity result name value detail =
      build_reply init BuilderCall.param_set_reply_start (param_set_calls result name value detail)
        capacity

  -- Only an accepted query carries a value.
  abbrev pub param_get_calls : CommandResultCode → String → Double → ℤ → List BuilderCall
  param_get_calls result name value detail =
      (if is_accepted result
        then BuilderCall.param_get_reply_values_start
          ∷ BuilderCall.param_get_reply_values_push_start
          ∷ BuilderCall.param_value_name name
          ∷ BuilderCall.param_value_kind_float
          ∷ BuilderCall.param_value_float value
          ∷ BuilderCall.param_get_reply_values_push_end
          ∷ BuilderCall.param_get_reply_values_end
          ∷ []
        else [])
      ++ (BuilderCall.param_get_reply_result result
          ∷ BuilderCall.param_get_reply_total (if is_accepted result then 1 else 0)
          ∷ BuilderCall.param_get_reply_result_detail detail
          ∷ BuilderCall.param_get_reply_end
          ∷ [])

  unfoldable pub build_param_get_reply : ℕ → CommandResultCode → String → Double → ℤ → Reply
  build_param_get_reply capacity result name value detail =
      build_reply init BuilderCall.param_get_reply_start (param_get_calls result name value detail)
        capacity

  abbrev pub trajectory_calls : CommandResultCode → ℕ → ℤ → ℕ → List BuilderCall
  trajectory_calls result plan_version detail failed_seq =
      BuilderCall.trajectory_reply_create result trajectory_id plan_version detail failed_seq 0
      ∷ BuilderCall.trajectory_buffer_end
      ∷ []

  unfoldable pub build_trajectory_reply : ℕ → CommandResultCode → ℕ → ℤ → ℕ → Reply
  build_trajectory_reply capacity result plan_version detail failed_seq =
      build_reply init BuilderCall.trajectory_buffer_start
        (trajectory_calls result plan_version detail failed_seq) capacity
