-- ===== src/Runtime/Handover.antt =====
-- src/runtime_control.c:516-556 and 640-671 as interleaved accesses: the mission on its way from one
-- service handler in `handle_trajectory_set` (`command_writer` excludes the others) to the control loop
-- in `cubs2_runtime_control_apply`. Each access is one step, in any order, on a sequentially consistent
-- memory. A slot of a waypoint is stored and loaded in one step, or its load fails: AtomicDouble.NoTearing
-- is about the accesses that these are made of. The waypoints are numbered row by row.
use cerebri_cubs.Prelude.{ℕ, suc, ◌+◌, ◌*◌, ◌^◌, ◌<◌, ◌≡◌, ◌≢◌, Bool, true, false}
use cerebri_cubs.Prelude.Update.{update}
use cerebri_cubs.Route.{max_points}
use cerebri_cubs.AtomicDouble.{Double, u32, is_odd}

-- The points of a route and the number of its segments.
pub record Mission : Type 0 where
  pub cells : ℕ → Double
  pub segments : ℕ

-- CUBS2_MAX_POINTS * 3
abbrev pub cell_count : ℕ
cell_count = max_points * 3

-- Where the handler stands: the next cell that it stores; before the second increment; before
-- `pending_mission` is set.
pub data Writer : Type 0 where
  idle : Writer
  storing : (m : Mission) (next : ℕ) → Writer
  stored : (m : Mission) → Writer
  published : Writer

-- Where the loop stands: after the exchange of `pending_mission`; at the next cell that it loads; before
-- the last load of the counter; before it sets `pending_mission` again.
pub data Reader : Type 0 where
  waiting : Reader
  claimed : Reader
  loading : (before : ℕ) (loaded : ℕ → Double) (next : ℕ) → Reader
  loaded_all : (before : ℕ) (m : Mission) → Reader
  rejected : Reader

-- `sequence`, `memory` and `pending` are shared, `applied` is the loop's own. `bumps` and `content` are
-- the history: all increments of the counter so far, without wrap, and the last complete mission.
-- `bumps_at` and `content_at` are the two when the loop loaded the counter first.
pub record System : Type 0 where
  pub sequence : ℕ
  pub memory : Mission
  pub pending : Bool
  pub applied : Mission
  pub writer : Writer
  pub reader : Reader
  pub bumps : ℕ
  pub content : Mission
  pub bumps_at : ℕ
  pub content_at : Mission

-- `m` is in the memory, applied, and not pending.
abbrev pub start_with : Mission → System
start_with m = record {
  sequence = 0;
  memory = m;
  pending = false;
  applied = m;
  writer = idle;
  reader = waiting;
  bumps = 0;
  content = m;
  bumps_at = 0;
  content_at = m;
}

-- The accesses of the handler.
abbrev pub begin_mission : System → Mission → System
begin_mission s m = record s {
  sequence = u32 (s.sequence + 1);
  bumps = s.bumps + 1;
  writer = storing m 0;
}

abbrev pub store_cell : System → Mission → ℕ → System
store_cell s m next = record s {
  memory = record s.memory { cells = update s.memory.cells next (m.cells next) };
  writer = storing m (suc next);
}

abbrev pub store_segments : System → Mission → System
store_segments s m = record s {
  memory = record s.memory { segments = m.segments };
  writer = stored m;
}

abbrev pub publish_mission : System → Mission → System
publish_mission s m = record s {
  sequence = u32 (s.sequence + 1);
  bumps = s.bumps + 1;
  content = m;
  writer = published;
}

abbrev pub flag_mission : System → System
flag_mission s = record s { pending = true; writer = idle }

-- The accesses of the loop.
abbrev pub claim : System → System
claim s = record s { pending = false; reader = claimed }

abbrev pub load_before : System → (ℕ → Double) → System
load_before s loaded = record s {
  reader = loading s.sequence loaded 0;
  bumps_at = s.bumps;
  content_at = s.content;
}

abbrev pub load_cell : System → ℕ → (ℕ → Double) → ℕ → System
load_cell s before loaded next = record s {
  reader = loading before (update loaded next (s.memory.cells next)) (suc next);
}

abbrev pub load_segments : System → ℕ → (ℕ → Double) → System
load_segments s before loaded = record s {
  reader = loaded_all before (record { cells = loaded; segments = s.memory.segments });
}

abbrev pub reject : System → System
reject s = record s { reader = rejected }

abbrev pub accept : System → Mission → System
accept s m = record s { applied = m; reader = waiting }

abbrev pub restage : System → System
restage s = record s { pending = true; reader = waiting }

-- An access of either. A pass that finds nothing pending, and the loads after the first failure, change
-- nothing and are left out. The counter does not go round within one attempt (`accepts`).
pub data Step (s : System) : System → Type 0 where
  begins : {m : Mission} → s.writer ≡ idle → Step s (begin_mission s m)
  stores :
      {m : Mission} {next : ℕ}
      → s.writer ≡ storing m next
      → next < cell_count
      → Step s (store_cell s m next)
  counts : {m : Mission} → s.writer ≡ storing m cell_count → Step s (store_segments s m)
  publishes : {m : Mission} → s.writer ≡ stored m → Step s (publish_mission s m)
  flags : s.writer ≡ published → Step s (flag_mission s)
  claims : s.reader ≡ waiting → s.pending ≡ true → Step s (claim s)
  sees_even :
      {loaded : ℕ → Double}
      → s.reader ≡ claimed
      → is_odd s.sequence ≡ false
      → Step s (load_before s loaded)
  sees_odd : s.reader ≡ claimed → is_odd s.sequence ≡ true → Step s (reject s)
  loads :
      {before next : ℕ} {loaded : ℕ → Double}
      → s.reader ≡ loading before loaded next
      → next < cell_count
      → Step s (load_cell s before loaded next)
  load_fails :
      {before next : ℕ} {loaded : ℕ → Double}
      → s.reader ≡ loading before loaded next
      → Step s (reject s)
  loads_segments :
      {before : ℕ} {loaded : ℕ → Double}
      → s.reader ≡ loading before loaded cell_count
      → Step s (load_segments s before loaded)
  accepts :
      {before : ℕ} {m : Mission}
      → s.reader ≡ loaded_all before m
      → before ≡ s.sequence
      → s.bumps < s.bumps_at + 2 ^ 32
      → Step s (accept s m)
  refuses :
      {before : ℕ} {m : Mission}
      → s.reader ≡ loaded_all before m
      → before ≢ s.sequence
      → Step s (reject s)
  restages : s.reader ≡ rejected → Step s (restage s)

pub data Reach (m : Mission) : System → Type 0 where
  at_start : Reach m (start_with m)
  after : {s t : System} → Reach m s → Step s t → Reach m t

-- A run of accesses from one state to another.
pub data Steps (t : System) : System → Type 0 where
  done : Steps t t
  more : {s u : System} → Step s u → Steps t u → Steps t s

pub joined : {t u s : System} → Steps t s → Steps u t → Steps u s
joined done rest = rest
joined (more step steps) rest = more step (joined steps rest)
