-- ===== src/Runtime/Complete.antt =====
-- What the loop accepts is a complete mission, and no complete mission is lost
-- (src/runtime_control.c:516-556 and 640-671).
use cerebri_cubs.Prelude.{
  ℕ, suc, ◌+◌, ◌%◌, ◌^◌, ◌<◌, ◌≤◌, ◌≡◌, ◌≢◌, ◌⊎◌, ◌∙◌, inl, inr, refl, true, arith,
}
use cerebri_cubs.Prelude.Update.{update}
use cerebri_cubs.AtomicDouble.{Double, u32}
use cerebri_cubs.Runtime.Handover.{
  Mission, cell_count, Writer, idle, storing, stored, published, Reader, waiting, claimed, loading,
  loaded_all, rejected, System, start_with, Step, begins, stores, counts, publishes, flags, claims,
  sees_even, sees_odd, loads, load_fails, loads_segments, accepts, refuses, restages, Reach,
  at_start, after,
}

-- The first `n` cells are those of the mission.
abbrev pub CellsOf : (ℕ → Double) → Mission → ℕ → Type 0
CellsOf cells m n = (i : ℕ) → i < n → cells i ≡ m.cells i

abbrev pub Same : Mission → Mission → Type 0
Same m n = CellsOf m.cells n cell_count × (m.segments ≡ n.segments)

abbrev pub WriterHolds : System → Writer → Type 0
WriterHolds s idle = (s.bumps % 2 ≡ 0) × Same s.memory s.content
WriterHolds s (storing m next) = (s.bumps % 2 ≡ 1) × CellsOf s.memory.cells m next
WriterHolds s (stored m) = (s.bumps % 2 ≡ 1) × Same s.memory m
WriterHolds s published = (s.bumps % 2 ≡ 0) × Same s.memory s.content

-- Of what the loop has loaded, if no mission was begun since.
abbrev ReaderHolds : System → Reader → Type 0
ReaderHolds s waiting = Unit
ReaderHolds s claimed = Unit
ReaderHolds s (loading before loaded next) =
    (before ≡ u32 s.bumps_at)
    × (s.bumps_at % 2 ≡ 0)
    × (s.bumps ≡ s.bumps_at → CellsOf loaded s.content next)
ReaderHolds s (loaded_all before m) =
    (before ≡ u32 s.bumps_at) × (s.bumps_at % 2 ≡ 0) × (s.bumps ≡ s.bumps_at → Same m s.content)
ReaderHolds s rejected = Unit

-- The last complete mission is applied, or will be: it is pending, or about to be.
pub data Kept (s : System) : Type 0 where
  applied : Same s.applied s.content → Kept s
  pending : s.pending ≡ true → Kept s
  flagging : s.writer ≡ published → Kept s
  reading : s.reader ≢ waiting → Kept s

pub record Inv (s : System) : Type 0 where
  pub counted : s.sequence ≡ u32 s.bumps
  pub since : s.bumps_at ≤ s.bumps
  pub writer_holds : WriterHolds s s.writer
  pub reader_holds : ReaderHolds s s.reader
  pub kept : Kept s

Same-refl : (m : Mission) → Same m m
Same-refl m = ((λ i lt. refl), refl)

Same-trans : (a b c : Mission) → Same a b → Same b c → Same a c
Same-trans a b c p q = ((λ i lt. p.0 i lt ∙ q.0 i lt), p.1 ∙ q.1)

pub CellsOf-update :
    (cells : ℕ → Double) (m : Mission) (n : ℕ) (x : Double)
    → CellsOf cells m n
    → x ≡ m.cells n
    → CellsOf (update cells n x) m (suc n)
CellsOf-update cells m n x h e i lt = ground (arith, h i)

Inv-start : (m : Mission) → Inv (start_with m)
Inv-start m = record {
  counted = refl;
  since = omega arith;
  writer_holds = (refl, Same-refl m);
  reader_holds = tt;
  kept = applied (Same-refl m);
}

Step-Inv : {s t : System} → Step s t → Inv s → Inv t
Step-Inv {s} (begins e) i = ground arith
Step-Inv (stores e lt) i = ground arith
Step-Inv (counts e) i = ground arith
Step-Inv (publishes e) i = ground arith
Step-Inv (flags e) i = ground arith
Step-Inv (claims e p) i = ground arith
Step-Inv (sees_even e even) i = ground arith
Step-Inv (sees_odd e odd) i = ground arith
Step-Inv (loads e lt) i = ground arith
Step-Inv (load_fails e) i = ground arith
Step-Inv (loads_segments e) i = ground arith
Step-Inv (accepts e same few) i = ground arith
Step-Inv (refuses e differs) i = ground arith
Step-Inv (restages e) i = ground arith

pub Reach-Inv : {m : Mission} {s : System} → Reach m s → Inv s
Reach-Inv {m} at_start = Inv-start m
Reach-Inv (after r st) = Step-Inv st (Reach-Inv r)

accepted-Same :
    {s : System} {before : ℕ} {m : Mission}
    → Inv s
    → s.reader ≡ loaded_all before m
    → before ≡ s.sequence
    → s.bumps < s.bumps_at + 2 ^ 32
    → Same m s.content
accepted-Same i e same few = ground arith

-- However the accesses of a handler that stages missions and of the control loop interleave: if the
-- loop has loaded a mission, its last load of the counter gives the value of the first, and the
-- counter moved less than 2 ^ 32 times in between, then what it has loaded is the last complete
-- mission, with all its way points and its number of segments.
pub accepted_mission :
    {m₀ m : Mission} {s : System} {before : ℕ}
    → Reach m₀ s
    → s.reader ≡ loaded_all before m
    → before ≡ s.sequence
    → s.bumps < s.bumps_at + 2 ^ 32
    → Same m s.content
accepted_mission r = accepted-Same (Reach-Inv r)

Kept-cases :
    {s : System}
    → Kept s
    → s.writer ≡ idle
    → s.reader ≡ waiting
    → (s.pending ≡ true) ⊎ Same s.applied s.content
Kept-cases (applied same) idles waits = inr same
Kept-cases (pending p) idles waits = inl p
Kept-cases (flagging e) idles waits = cc
Kept-cases (reading n) idles waits = absurd (n waits)

-- However the accesses of a handler that stages missions and of the control loop interleave, if the
-- counter never moves 2 ^ 32 times within one attempt that the loop accepts: when both are at rest,
-- the last complete mission is applied or is still pending.
pub mission_kept :
    {m₀ : Mission} {s : System}
    → Reach m₀ s
    → s.writer ≡ idle
    → s.reader ≡ waiting
    → (s.pending ≡ true) ⊎ Same s.applied s.content
mission_kept r = Kept-cases (Reach-Inv r).kept
