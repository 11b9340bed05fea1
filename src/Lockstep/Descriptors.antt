-- ===== src/Lockstep/Descriptors.antt =====
-- What the native host gives to `cubs2_lockstep_start` and gets back (subsys/lockstep/lockstep_host.c).
use cerebri_cubs.Prelude.{
  ℕ, suc, ◌≡◌, String, Bool, some, List, [], ◌∷◌, if◌then◌else◌, arith, Option-cases, Bool-cases,
  inl, inr,
}
use cerebri_cubs.Prelude.Int.{ℤ, ◌≤ℤ◌, ltb_ℤ}
use cerebri_cubs.Csyn.{Csyn}
use cerebri_cubs.Lockstep.{
  shared_size, Shared, Host, Call, opened, closed, mapped, unmapped, is_some,
  cubs2_lockstep_host_map,
}

abbrev pub count_if : Bool → ℕ
count_if b = if b then 1 else 0

module _ (csyn : Csyn) where
  -- The descriptors that calls open and close.
  abbrev pub opened_in : List (Call csyn) → List ℕ
  opened_in [] = []
  opened_in (opened fd ∷ rest) = fd ∷ opened_in rest
  opened_in (call ∷ rest) = opened_in rest

  abbrev pub closed_in : List (Call csyn) → List ℕ
  closed_in [] = []
  closed_in (closed fd ∷ rest) = fd ∷ closed_in rest
  closed_in (call ∷ rest) = closed_in rest

  -- A mapping that `cubs2_lockstep_host_map` returns, and where it comes from.
  pub record MapsFile (host : Host csyn) (path : String) (shared : Shared csyn) : Type 0 where
    pub fd : ℕ
    pub size : ℤ
    pub opens : host.open_file path ≡ some fd
    pub sized : host.file_size fd ≡ some size
    pub enough : shared_size ≤ℤ size
    pub maps : host.map_file fd ≡ some shared

  pub host_map_closes :
      (host : Host csyn) (path : String)
      → closed_in (cubs2_lockstep_host_map csyn host path).1
        ≡ opened_in (cubs2_lockstep_host_map csyn host path).1
  unfolding cubs2_lockstep_host_map
  host_map_closes host path = ground arith

  -- A memory that `cubs2_lockstep_host_map` returns is the mapping of a file that could be opened,
  -- whose size could be read and is at least that of the shared structure.
  pub host_map-MapsFile :
      (host : Host csyn) (path : String) (shared : Shared csyn)
      → (cubs2_lockstep_host_map csyn host path).0 ≡ some shared
      → MapsFile host path shared
  unfolding cubs2_lockstep_host_map
  host_map-MapsFile host path shared h = elim (Option-cases (host.open_file path)) [
    | inl failed ↦ cc (rw failed at h)
    | inr (fd, opens) ↦ elim (Option-cases (host.file_size fd)) [
      | inl unsized ↦ cc (simp (opens, unsized) at h)
      | inr (size, sized) ↦ elim (Bool-cases (ltb_ℤ size shared_size)) [
        | inl short ↦ cc (simp (opens, sized, short) at h)
        | inr enough ↦ record {
          fd = fd;
          size = size;
          opens = opens;
          sized = sized;
          enough = ground arith;
          maps = simp (opens, sized, enough) at h;
        }
      ]
    ]
  ]

  abbrev pub maps_in : List (Call csyn) → ℕ
  maps_in [] = 0
  maps_in (mapped ∷ rest) = suc (maps_in rest)
  maps_in (call ∷ rest) = maps_in rest

  abbrev pub unmaps_in : List (Call csyn) → ℕ
  unmaps_in [] = 0
  unmaps_in (unmapped ∷ rest) = suc (unmaps_in rest)
  unmaps_in (call ∷ rest) = unmaps_in rest

  pub host_map_maps :
      (host : Host csyn) (path : String)
      → (maps_in (cubs2_lockstep_host_map csyn host path).1
          ≡ count_if (is_some (cubs2_lockstep_host_map csyn host path).0))
        × (unmaps_in (cubs2_lockstep_host_map csyn host path).1 ≡ 0)
  unfolding cubs2_lockstep_host_map
  host_map_maps host path = ground arith
