-- ===== src/Tests/Transport.antt =====
-- The transport on a host and a protocol of the test's own (subsys/lockstep).
use cerebri_cubs.Prelude.{ℕ, suc, ◌≡◌, ◌+◌, refl, some, none}
use cerebri_cubs.Prelude.Int.{pos}
use cerebri_cubs.Lockstep.{
  lockstep_magic, native_sim, ready, Shared, Sequence, Host, Link, cubs2_lockstep_enabled,
  cubs2_lockstep_host_map, cubs2_lockstep_start,
}
use cerebri_cubs.Lockstep.Descriptors.{
  opened_in, closed_in, maps_in, unmaps_in, count_if, MapsFile, host_map-MapsFile,
}
use cerebri_cubs.Lockstep.Start.{start_balanced}
use cerebri_cubs.Lockstep.Exchange.{Exchanged, turn, turn-Exchanged}
use cerebri_cubs.Realtime.Transport as FastDyn
use cerebri_cubs.Realtime.Transport.{fastdyn-Exchanged}
use cerebri_cubs.Tests.Flight.{flight, inputs}
use cerebri_cubs.Tests.{test_csyn, config, pilot, sample, lost_sample, context, one_metre}

-- The host writes `sample` while the program waits; the response advances the second word.
abbrev pub test_sequence : Sequence test_csyn
test_sequence = record {
  State = ℕ;
  init = λ words. (0, words, pos 0);
  wait = λ state shared. (suc state, record shared { odometry = sample }, ready);
  respond =
      λ state words. (state, record words { response_sequence = words.response_sequence + 1 });
}

abbrev pub memory : Shared test_csyn
memory = record {
  magic = lockstep_magic;
  words = record { odometry_sequence = 1; response_sequence = 0; terminate = 0 };
  odometry = lost_sample;
  pwm = ((λ i. pos 0), pos 0);
  attitude = record {
    timestamp_us = 0;
    attitude = record { w = one_metre; x = 0; y = 0; z = 0 };
    thrust = 0;
  };
}

abbrev pub host : Host test_csyn
host = record {
  path = some "/dev/shm/cubs2";
  open_file = λ path. some 5;
  file_size = λ fd. some (pos 4096);
  map_file = λ fd. some memory;
}

-- A file with another magic number.
abbrev wrong_host : Host test_csyn
wrong_host = record host { map_file = λ fd. some (record memory { magic = 0 }) }

host_map-MapsFile_example : MapsFile test_csyn host "/dev/shm/cubs2" memory
unfolding cubs2_lockstep_host_map
host_map-MapsFile_example = host_map-MapsFile test_csyn host "/dev/shm/cubs2" memory refl

start_balanced_example :
    (closed_in test_csyn
        (cubs2_lockstep_start test_csyn test_sequence native_sim wrong_host memory).calls
      ≡ opened_in test_csyn
          (cubs2_lockstep_start test_csyn test_sequence native_sim wrong_host memory).calls)
    × (maps_in test_csyn
          (cubs2_lockstep_start test_csyn test_sequence native_sim wrong_host memory).calls
        ≡ unmaps_in test_csyn
            (cubs2_lockstep_start test_csyn test_sequence native_sim wrong_host memory).calls
          + count_if (
              cubs2_lockstep_enabled test_csyn test_sequence
                (cubs2_lockstep_start test_csyn test_sequence native_sim wrong_host memory).link))
start_balanced_example = start_balanced test_csyn test_sequence wrong_host memory

abbrev link : Link test_csyn test_sequence
link = record { shared = memory; state = 0 }

turn-Exchanged_example :
    Exchanged test_csyn test_sequence 1
      (record memory { odometry = sample })
      (turn test_csyn test_sequence native_sim config (context pilot lost_sample) link none 150)
turn-Exchanged_example =
    turn-Exchanged test_csyn test_sequence native_sim config (context pilot lost_sample) link none
      150 1 (record memory { odometry = sample }) (λ e. cc) refl

fastdyn-Exchanged_example :
    FastDyn.Exchanged test_csyn test_sequence 1
      (record memory { odometry = sample })
      (FastDyn.turn test_csyn test_sequence config flight link inputs)
fastdyn-Exchanged_example =
    fastdyn-Exchanged test_csyn test_sequence config flight link inputs 1
      (record memory { odometry = sample }) refl
