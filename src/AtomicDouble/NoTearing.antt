-- ===== src/AtomicDouble/NoTearing.antt =====
-- No torn read: what an attempt of `atomic_double_try_load` accepts (src/runtime_control.c:149-168)
-- is the value of a complete store.
use cerebri_cubs.Prelude.{◌+◌, ◌%◌, ◌^◌, ◌≤◌, ◌<◌, ◌≡◌, some, arith}
use cerebri_cubs.AtomicDouble.{
  Double, Loads, low_word, high_word, u32, attempt, atomic_double_init_value,
}
use cerebri_cubs.AtomicDouble.RoundTrip.{join-split}
use cerebri_cubs.AtomicDouble.Concurrent.{
  Writer, idle, bumped, wrote_low, wrote_high, Reader, waiting, saw_before, saw_low, saw_high,
  finished, System, start_at, Step, begin, low, high, end, before, read_low, read_high, after,
  Reach, start, next,
}

-- What the writer's place says of the words of the slot.
abbrev WriterHolds : System → Writer → Type 0
WriterHolds s idle =
    (s.bumps % 2 ≡ 0) × (s.slot.low ≡ low_word s.content) × (s.slot.high ≡ high_word s.content)
WriterHolds s (bumped bits) = (s.bumps % 2 ≡ 1) × (bits < 2 ^ 64)
WriterHolds s (wrote_low bits) = (s.bumps % 2 ≡ 1) × (bits < 2 ^ 64) × (s.slot.low ≡ low_word bits)
WriterHolds s (wrote_high bits) =
    (s.bumps % 2 ≡ 1)
    × (bits < 2 ^ 64)
    × (s.slot.low ≡ low_word bits)
    × (s.slot.high ≡ high_word bits)

-- No store has begun since the attempt did.
abbrev Undisturbed : System → Type 0
Undisturbed s = (s.bumps ≡ s.bumps_at) × (s.bumps_at % 2 ≡ 0)

-- What the reader's place says of what it has loaded.
abbrev ReaderHolds : System → Reader → Type 0
ReaderHolds s waiting = Unit
ReaderHolds s (saw_before b) = b ≡ u32 s.bumps_at
ReaderHolds s (saw_low b l) =
    (b ≡ u32 s.bumps_at) × (s.bumps ≡ s.bumps_at → s.bumps_at % 2 ≡ 0 → l ≡ low_word s.content_at)
ReaderHolds s (saw_high b l h) =
    (b ≡ u32 s.bumps_at)
    × (s.bumps ≡ s.bumps_at
        → s.bumps_at % 2 ≡ 0
        → (l ≡ low_word s.content_at) × (h ≡ high_word s.content_at))
ReaderHolds s (finished l) =
    (l.before ≡ u32 s.bumps_at)
    × (s.bumps < s.bumps_at + 2 ^ 32
        → s.bumps_at % 2 ≡ 0
        → l.after ≡ l.before
        → (l.low ≡ low_word s.content_at) × (l.high ≡ high_word s.content_at))

pub record Inv (s : System) : Type 0 where
  pub counted : s.slot.sequence ≡ u32 s.bumps
  pub since : s.bumps_at ≤ s.bumps
  pub fits : s.content < 2 ^ 64
  pub fits_at : s.content_at < 2 ^ 64
  pub same : s.bumps ≡ s.bumps_at → s.content ≡ s.content_at
  pub writer_holds : WriterHolds s s.writer
  pub reader_holds : ReaderHolds s s.reader

Inv-start : (bits : Double) → bits < 2 ^ 64 → Inv (start_at bits)
unfolding atomic_double_init_value
Inv-start bits h = ground arith

Step-Inv : {s t : System} → Step s t → Inv s → Inv t
Step-Inv (begin e h) i = ground arith
Step-Inv (low e) i = ground arith
Step-Inv (high e) i = ground arith
Step-Inv (end e) i = ground arith
Step-Inv before i = ground arith
Step-Inv (read_low e) i = ground arith
Step-Inv (read_high e) i = ground arith
Step-Inv (after e) i = ground arith

Reach-Inv : {bits : Double} {s : System} → bits < 2 ^ 64 → Reach bits s → Inv s
Reach-Inv {bits} h start = Inv-start bits h
Reach-Inv h (next r st) = Step-Inv st (Reach-Inv h r)

accepted_unchanged :
    {s : System} {l : Loads} {v : Double}
    → Inv s
    → s.reader ≡ finished l
    → s.bumps < s.bumps_at + 2 ^ 32
    → attempt l ≡ some v
    → v ≡ s.content_at
unfolding attempt
accepted_unchanged {s} {l} i e few h = ground (arith, join-split s.content_at i.fits_at)

-- However the accesses of a writer and a reader interleave, from a slot that holds a 64-bit pattern
-- on: if an attempt is accepted, and the counter moved less than 2 ^ 32 times since the attempt
-- loaded it first, then the value is that of the last store that was complete at that first load.
pub no_torn_read :
    {bits : Double} {s : System} {l : Loads} {v : Double}
    → bits < 2 ^ 64
    → Reach bits s
    → s.reader ≡ finished l
    → s.bumps < s.bumps_at + 2 ^ 32
    → attempt l ≡ some v
    → v ≡ s.content_at
no_torn_read h r = accepted_unchanged (Reach-Inv h r)
