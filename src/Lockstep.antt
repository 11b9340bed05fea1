-- ===== src/Lockstep.antt =====
-- subsys/lockstep/lockstep.c, lockstep.h and lockstep_host.c: the shared memory of the simulation. The
-- sequence protocol itself is an external module, and the host is an operating system: both are
-- parameters.
pub mod Descriptors
pub mod Start
pub mod Exchange
use cerebri_cubs.Prelude.{
  ℕ, String, Bool, true, false, Option, none, some, List, [], ◌∷◌, ◌++◌, ◌==◌, if◌then◌else◌,
}
use cerebri_cubs.Prelude.Int.{ℤ, pos, negsuc, ltb_ℤ}
use cerebri_cubs.Csyn.{Csyn}
use cerebri_cubs.Odometry.{Odometry}
use cerebri_cubs.Telemetry.{AttitudeCommand}

-- CUBS2_LOCKSTEP_MAGIC, `sizeof(struct cubs2_lockstep_shared)`, and the error codes.
abbrev pub lockstep_magic : ℕ
lockstep_magic = 0x4355_4253

abbrev pub shared_size : ℤ
shared_size = pos 184

abbrev pub minus_eio : ℤ
minus_eio = negsuc 4

-- The words of the protocol.
pub record Words : Type 0 where
  pub odometry_sequence : ℕ
  pub response_sequence : ℕ
  pub terminate : ℕ

-- The three builds: CUBS2_SIM_TRANSPORT is selected by the lockstep mode, on native_sim or under
-- CUBS2_FASTDYN, and by CUBS2_FASTDYN itself.
pub data Build : Type 0 where
  native_sim fastdyn no_transport : Build

-- What `cerebri_lockstep_sequence_wait` returns: 0, -ECANCELED, or another error.
pub data WaitResult : Type 0 where
  ready canceled : WaitResult
  wait_error : ℤ → WaitResult

abbrev pub is_empty : String → Bool
is_empty String.[] = true
is_empty (String.◌∷◌ c s) = false

abbrev pub is_some {ℓ} : {A : Type ℓ} → Option A → Bool
is_some none = false
is_some (some a) = true

module _ (csyn : Csyn) where
  open csyn use {Pwm}

  -- `struct cubs2_lockstep_shared`
  pub record Shared : Type 0 where
    pub magic : ℕ
    pub words : Words
    pub odometry : Odometry
    pub pwm : Pwm
    pub attitude : AttitudeCommand

  -- The external protocol. A wait returns the memory as the host has left it in the meantime.
  pub record Sequence : Type 1 where
    pub State : Type 0
    pub init : Words → State × Words × ℤ
    pub wait : State → Shared → State × Shared × WaitResult
    pub respond : State → Words → State × Words

  -- The native host: the value of CUBS2_NATIVE_SIL_SHM, and what its system calls return. `map_file`
  -- gives the content of the file.
  pub record Host : Type 0 where
    pub path : Option String
    pub open_file : String → Option ℕ
    pub file_size : ℕ → Option ℤ
    pub map_file : ℕ → Option Shared

  -- The calls that take and give back descriptors and mappings, in their order.
  pub data Call : Type 0 where
    opened closed : (fd : ℕ) → Call
    mapped unmapped : Call

  abbrev map_call : Option Shared → List Call
  map_call none = []
  map_call (some shared) = mapped ∷ []

  abbrev map_sized : Host → ℕ → Option ℤ → Option Shared × List Call
  map_sized host fd none = (none, closed fd ∷ [])
  map_sized host fd (some size) =
      if ltb_ℤ size shared_size
      then (none, closed fd ∷ [])
      else (host.map_file fd, map_call (host.map_file fd) ++ closed fd ∷ [])

  abbrev map_opened : Host → Option ℕ → Option Shared × List Call
  map_opened host none = (none, [])
  map_opened host (some fd) =
      let sized = map_sized host fd (host.file_size fd) in (sized.0, opened fd ∷ sized.1)

  unfoldable pub cubs2_lockstep_host_map : Host → String → Option Shared × List Call
  cubs2_lockstep_host_map host path = map_opened host (host.open_file path)

  -- Unmapping succeeds or its failure is ignored; NULL is not unmapped.
  unfoldable pub cubs2_lockstep_host_unmap : Option Shared → List Call
  cubs2_lockstep_host_unmap none = []
  cubs2_lockstep_host_unmap (some shared) = unmapped ∷ []

  module _ (q : Sequence) where
    open q use {State, init, wait, respond}

    -- `*g_shared` and `g_lockstep`, where `g_shared` is not NULL.
    pub record Link : Type 0 where
      pub shared : Shared
      pub state : State

    -- `link` is `none` while `g_shared` is NULL.
    pub record Started : Type 0 where
      pub rc : ℤ
      pub link : Option Link
      pub calls : List Call

    unfoldable pub attach : Shared → List Call → Started
    attach shared calls =
        let (state, words, rc) = init shared.words in
        record {
          rc = rc;
          link = some (record { shared = record shared { words = words }; state = state });
          calls = calls;
        }

    abbrev pub attach_mapped : Option Shared → List Call → Started
    attach_mapped none calls = record { rc = minus_eio; link = none; calls = calls }
    attach_mapped (some shared) calls =
        if shared.magic == lockstep_magic then attach shared calls else record {
          rc = minus_eio;
          link = none;
          calls = calls ++ cubs2_lockstep_host_unmap (some shared);
        }

    unfoldable pub start_native : Host → Option String → Started
    unfolding attach cubs2_lockstep_host_map cubs2_lockstep_host_unmap
    start_native host none = record { rc = pos 0; link = none; calls = [] }
    start_native host (some path) =
        if is_empty path
        then record { rc = pos 0; link = none; calls = [] }
        else (let result = cubs2_lockstep_host_map host path in attach_mapped result.0 result.1)

    -- Under FastDyn the memory is a global, and `zeroed` is its value with all bytes 0.
    unfoldable pub cubs2_lockstep_start : Build → Host → Shared → Started
    unfolding attach start_native
    cubs2_lockstep_start native_sim host zeroed = start_native host host.path
    cubs2_lockstep_start fastdyn host zeroed = attach (record zeroed { magic = lockstep_magic }) []
    cubs2_lockstep_start no_transport host zeroed = record { rc = pos 0; link = none; calls = [] }

    abbrev pub cubs2_lockstep_enabled : Option Link → Bool
    cubs2_lockstep_enabled link = is_some link

    -- A sample, an error, or the end of the program by `nsi_exit(0)`.
    pub data Received : Type 0 where
      sample : Odometry → Link → Received
      error : Received
      exits_0 : Received

    abbrev received : Received → State × Shared × WaitResult → Received
    received on_cancel (state, shared, ready) =
        sample shared.odometry (record { shared = shared; state = state })
    received on_cancel (state, shared, canceled) = on_cancel
    received on_cancel (state, shared, wait_error rc) = error

    -- Only the native build ends the program.
    unfoldable pub cubs2_lockstep_receive : Build → Link → Received
    cubs2_lockstep_receive native_sim link = received exits_0 (wait link.state link.shared)
    cubs2_lockstep_receive fastdyn link = received error (wait link.state link.shared)
    cubs2_lockstep_receive no_transport link = error

    abbrev pub respond_with : Link → Pwm → AttitudeCommand → Link
    respond_with link pwm attitude =
        let (state, words) = respond link.state link.shared.words in
        record {
          shared = record link.shared { pwm = pwm; attitude = attitude; words = words };
          state = state;
        }

    -- The second part of the result is whether the call fails: without the transport it returns -ENOTSUP.
    unfoldable pub cubs2_lockstep_send : Build → Link → Pwm → AttitudeCommand → Link × Bool
    cubs2_lockstep_send native_sim link pwm attitude = (respond_with link pwm attitude, false)
    cubs2_lockstep_send fastdyn link pwm attitude = (respond_with link pwm attitude, false)
    cubs2_lockstep_send no_transport link pwm attitude = (link, true)
