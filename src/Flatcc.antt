-- ===== src/Flatcc.antt =====
-- The generated FlatBuffers code and the flatcc runtime, which src/runtime_control.c calls to read
-- requests and to build replies. They are no code of the repository: their types and functions are
-- the fields of a record, and every function that calls them takes it.
use cerebri_cubs.Prelude.{ℕ, String, Bool, Option, List}
use cerebri_cubs.Prelude.Int.{ℤ}
use cerebri_cubs.AtomicDouble.{Double}

abbrev pub Bytes : Type 0
Bytes = List ℕ

-- `synapse_types_CommandResultCode_enum_t`, as far as the code uses it.
pub data CommandResultCode : Type 0 where
  accepted denied failed unsupported temporarily_rejected : CommandResultCode

-- The calls of the builder that can fail, with their arguments.
pub data BuilderCall : Type 0 where
  param_set_reply_start : BuilderCall
  param_set_reply_value_start : BuilderCall
  param_set_reply_value_end : BuilderCall
  param_set_reply_result : CommandResultCode → BuilderCall
  param_set_reply_result_detail : ℤ → BuilderCall
  param_set_reply_end : BuilderCall
  param_value_name : String → BuilderCall
  param_value_kind_float : BuilderCall
  param_value_float : Double → BuilderCall
  param_get_reply_start : BuilderCall
  param_get_reply_values_start : BuilderCall
  param_get_reply_values_push_start : BuilderCall
  param_get_reply_values_push_end : BuilderCall
  param_get_reply_values_end : BuilderCall
  param_get_reply_result : CommandResultCode → BuilderCall
  param_get_reply_total : ℕ → BuilderCall
  param_get_reply_result_detail : ℤ → BuilderCall
  param_get_reply_end : BuilderCall
  trajectory_buffer_start : BuilderCall
  trajectory_reply_create :
      CommandResultCode
      → (trajectory_id plan_version : ℕ) → (detail : ℤ) → (failed_seq reserved : ℕ) → BuilderCall
  trajectory_buffer_end : BuilderCall

-- `synapse_types_LocalFrame`: east-north-up, or any other.
pub data LocalFrame : Type 0 where
  local_enu other_frame : LocalFrame

-- `synapse_types_Vec3f_t`, each number the 32-bit pattern of a float.
pub record Vec3f : Type 0 where
  pub x : ℕ
  pub y : ℕ
  pub z : ℕ

-- `synapse_topic_TrajectorySegmentData_t`, the members that a request is read for.
pub record Segment : Type 0 where
  pub segment_seq : ℕ
  pub frame : LocalFrame
  pub p0_enu_m : Vec3f
  pub p1_enu_m : Vec3f

-- `none` is a NULL result, or a call that failed. The verifiers answer whether a buffer is a request
-- of the type.
pub record Flatcc : Type 1 where
  pub Builder : Type 0
  pub init : Option Builder
  pub emit : Builder → BuilderCall → Option Builder
  pub direct_buffer : Builder → Option Bytes
  pub ParamSetRequest : Type 0
  pub ParamValue : Type 0
  pub ParamGetRequest : Type 0
  pub TrajectorySetRequest : Type 0
  pub verify_param_set : Bytes → Bool
  pub param_set_root : Bytes → Option ParamSetRequest
  pub param_set_value : ParamSetRequest → Option ParamValue
  pub value_name : ParamValue → Option String
  pub value_kind_is_float : ParamValue → Bool
  pub value_float : ParamValue → Double
  pub verify_param_get : Bytes → Bool
  pub param_get_root : Bytes → Option ParamGetRequest
  pub param_get_name : ParamGetRequest → Option String
  pub verify_trajectory_set : Bytes → Bool
  pub trajectory_set_root : Bytes → Option TrajectorySetRequest
  pub segments : TrajectorySetRequest → Option (List Segment)
  pub total : TrajectorySetRequest → ℕ
  pub expected_plan_version : TrajectorySetRequest → ℕ
