-- ===== src/Tests/Slots.antt =====
-- Runs of the operations on one slot (src/runtime_control.c:125-171).
use cerebri_cubs.Prelude.{◌≡◌, refl, arith}
use cerebri_cubs.AtomicDouble.{AtomicDouble, Loads, atomic_double_init_value, attempt}
use cerebri_cubs.AtomicDouble.Concurrent.{
  System, start_at, begin_store, store_low, store_high, end_store, load_before, load_low, load_high,
  load_after, begin, low, high, end, before, read_low, read_high, after, Reach, start, next,
}
use cerebri_cubs.AtomicDouble.NoTearing.{no_torn_read}
use cerebri_cubs.Tests.{speed}

abbrev slot : AtomicDouble
slot = atomic_double_init_value 0

-- A store of `speed` whose first three accesses precede an attempt, and an attempt after the last.
abbrev stored : System
stored = end_store (store_high (store_low (begin_store (start_at 0) speed) speed) speed) speed

abbrev loaded : System
loaded = let s = load_before stored in load_after (load_high (load_low s 2) 2 0) 2 0 0x4014_0000

abbrev loads : Loads
loads = record { before = 2; low = 0; high = 0x4014_0000; after = 2 }

Reach-stored : Reach 0 stored
unfolding atomic_double_init_value
Reach-stored =
    next (next (next (next start (begin refl (omega arith))) (low refl)) (high refl)) (end refl)

Reach-loaded : Reach 0 loaded
unfolding atomic_double_init_value
Reach-loaded =
    next (next (next (next Reach-stored before) (read_low refl)) (read_high refl)) (after refl)

no_torn_read_example : speed ≡ loaded.content_at
unfolding attempt atomic_double_init_value
no_torn_read_example =
    no_torn_read {bits = 0} {s = loaded} {l = loads} {v = speed} (omega arith) Reach-loaded refl
      (omega arith) refl
