-- ===== src/Lockstep/Start.antt =====
-- What `cubs2_lockstep_start` leaves behind in the native build and under FastDyn
-- (subsys/lockstep/lockstep.c:34-62).
use cerebri_cubs.Prelude.{◌+◌, ◌≡◌, String, false, none, some, arith}
use cerebri_cubs.Csyn.{Csyn}
use cerebri_cubs.Lockstep.{
  lockstep_magic, minus_eio, Build, native_sim, Shared, Sequence, Host, Link, attach, start_native,
  is_empty, cubs2_lockstep_enabled, cubs2_lockstep_host_map, cubs2_lockstep_host_unmap,
  cubs2_lockstep_start,
}
use cerebri_cubs.Lockstep.Descriptors.{opened_in, closed_in, maps_in, unmaps_in, count_if}

module _ (csyn : Csyn) (q : Sequence csyn) where
  pub start_magic :
      (build : Build) (host : Host csyn) (zeroed : Shared csyn) (link : Link csyn q)
      → (cubs2_lockstep_start csyn q build host zeroed).link ≡ some link
      → link.shared.magic ≡ lockstep_magic
  unfolding cubs2_lockstep_start start_native attach cubs2_lockstep_host_map
  start_magic build host zeroed link h = ground arith

  start_closes :
      (host : Host csyn) (zeroed : Shared csyn)
      → closed_in csyn (cubs2_lockstep_start csyn q native_sim host zeroed).calls
        ≡ opened_in csyn (cubs2_lockstep_start csyn q native_sim host zeroed).calls
  unfolding cubs2_lockstep_start start_native attach cubs2_lockstep_host_map
      cubs2_lockstep_host_unmap
  start_closes host zeroed = ground arith

  start_maps :
      (host : Host csyn) (zeroed : Shared csyn)
      → maps_in csyn (cubs2_lockstep_start csyn q native_sim host zeroed).calls
        ≡ unmaps_in csyn (cubs2_lockstep_start csyn q native_sim host zeroed).calls
          + count_if (
              cubs2_lockstep_enabled csyn q
                (cubs2_lockstep_start csyn q native_sim host zeroed).link)
  unfolding cubs2_lockstep_start start_native attach cubs2_lockstep_host_map
      cubs2_lockstep_host_unmap
  start_maps host zeroed = ground arith

  -- In the native build, whatever the host answers, `cubs2_lockstep_start` closes every descriptor
  -- that it opens, and it leaves one mapping behind if the transport is enabled afterwards and none
  -- otherwise.
  pub start_balanced :
      (host : Host csyn) (zeroed : Shared csyn)
      → (closed_in csyn (cubs2_lockstep_start csyn q native_sim host zeroed).calls
          ≡ opened_in csyn (cubs2_lockstep_start csyn q native_sim host zeroed).calls)
        × (maps_in csyn (cubs2_lockstep_start csyn q native_sim host zeroed).calls
            ≡ unmaps_in csyn (cubs2_lockstep_start csyn q native_sim host zeroed).calls
              + count_if (
                  cubs2_lockstep_enabled csyn q
                    (cubs2_lockstep_start csyn q native_sim host zeroed).link))
  start_balanced host zeroed = (start_closes host zeroed, start_maps host zeroed)

  -- The environment names a file.
  abbrev pub Named : Host csyn → Type 0
  Named host = (path : String) × (host.path ≡ some path) × (is_empty path ≡ false)

  pub start_refuses :
      (host : Host csyn) (zeroed : Shared csyn)
      → Named host
      → (cubs2_lockstep_start csyn q native_sim host zeroed).link ≡ none
      → (cubs2_lockstep_start csyn q native_sim host zeroed).rc ≡ minus_eio
  unfolding cubs2_lockstep_start start_native attach cubs2_lockstep_host_map
  start_refuses host zeroed named h = ground arith
