-- ===== src/AtomicDouble/Concurrent.antt =====
-- src/runtime_control.c:125-171 as interleaved accesses: one writer in `atomic_double_store_value`
-- (the callers exclude one another) and one reader in an attempt of `atomic_double_try_load`, each
-- atomic access one step, in any order. The memory is sequentially consistent.
use cerebri_cubs.Prelude.{ℕ, ◌+◌, ◌^◌, ◌<◌, ◌≡◌}
use cerebri_cubs.AtomicDouble.{
  Double, AtomicDouble, Loads, atomic_double_init_value, bump_sequence, write_low, write_high,
}

-- Where the writer stands in `atomic_double_store_value`, with its argument.
pub data Writer : Type 0 where
  idle : Writer
  bumped : (bits : Double) → Writer
  wrote_low : (bits : Double) → Writer
  wrote_high : (bits : Double) → Writer

-- Where the reader stands in an attempt, with what it has loaded so far.
pub data Reader : Type 0 where
  waiting : Reader
  saw_before : (before : ℕ) → Reader
  saw_low : (before low : ℕ) → Reader
  saw_high : (before low high : ℕ) → Reader
  finished : Loads → Reader

-- `bumps` and `content` are the history: all increments of the counter so far, without wrap, and the
-- value of the last complete store. `bumps_at` and `content_at` are the two when the reader's attempt
-- loaded `before`.
pub record System : Type 0 where
  pub slot : AtomicDouble
  pub writer : Writer
  pub reader : Reader
  pub bumps : ℕ
  pub content : Double
  pub bumps_at : ℕ
  pub content_at : Double

abbrev pub start_at : Double → System
start_at bits = record {
  slot = atomic_double_init_value bits;
  writer = idle;
  reader = waiting;
  bumps = 0;
  content = bits;
  bumps_at = 0;
  content_at = bits;
}

-- The four accesses of the writer.
abbrev pub begin_store : System → Double → System
begin_store s bits = record s {
  slot = bump_sequence s.slot;
  writer = bumped bits;
  bumps = s.bumps + 1;
}

abbrev pub store_low : System → Double → System
store_low s bits = record s { slot = write_low bits s.slot; writer = wrote_low bits }

abbrev pub store_high : System → Double → System
store_high s bits = record s { slot = write_high bits s.slot; writer = wrote_high bits }

abbrev pub end_store : System → Double → System
end_store s bits = record s {
  slot = bump_sequence s.slot;
  writer = idle;
  bumps = s.bumps + 1;
  content = bits;
}

-- The four accesses of the reader.
abbrev pub load_before : System → System
load_before s = record s {
  reader = saw_before s.slot.sequence;
  bumps_at = s.bumps;
  content_at = s.content;
}

abbrev pub load_low : System → ℕ → System
load_low s before = record s { reader = saw_low before s.slot.low }

abbrev pub load_high : System → ℕ → ℕ → System
load_high s before low = record s { reader = saw_high before low s.slot.high }

abbrev pub load_after : System → ℕ → ℕ → ℕ → System
load_after s before low high = record s {
  reader = finished (record { before = before; low = low; high = high; after = s.slot.sequence });
}

-- An access of either thread. An attempt may be given up at an odd `before` and begun again.
pub data Step (s : System) : System → Type 0 where
  begin : {bits : Double} → s.writer ≡ idle → bits < 2 ^ 64 → Step s (begin_store s bits)
  low : {bits : Double} → s.writer ≡ bumped bits → Step s (store_low s bits)
  high : {bits : Double} → s.writer ≡ wrote_low bits → Step s (store_high s bits)
  end : {bits : Double} → s.writer ≡ wrote_high bits → Step s (end_store s bits)
  before : Step s (load_before s)
  read_low : {b : ℕ} → s.reader ≡ saw_before b → Step s (load_low s b)
  read_high : {b l : ℕ} → s.reader ≡ saw_low b l → Step s (load_high s b l)
  after : {b l h : ℕ} → s.reader ≡ saw_high b l h → Step s (load_after s b l h)

pub data Reach (bits : Double) : System → Type 0 where
  start : Reach bits (start_at bits)
  next : {s t : System} → Reach bits s → Step s t → Reach bits t
