-- ===== src/AtomicDouble/RoundTrip.antt =====
-- src/runtime_control.c:125-171, without another thread between the accesses of a call.
use cerebri_cubs.Prelude.{ℕ, ◌%◌, ◌^◌, ◌<◌, ◌≡◌, ◌≢◌, ap, ◌∙◌, none, some, arith}
use cerebri_cubs.AtomicDouble.{
  Double, AtomicDouble, low_word, high_word, join_words, atomic_double_init_value,
  atomic_double_store_value, atomic_double_try_load,
}

-- No store is under way: the counter is even, and it and the words fit 32 bits.
pub record IsIdle (slot : AtomicDouble) : Type 0 where
  pub even : slot.sequence % 2 ≡ 0
  pub sequence_fits : slot.sequence < 2 ^ 32
  pub low_fits : slot.low < 2 ^ 32
  pub high_fits : slot.high < 2 ^ 32

abbrev pub value_of : AtomicDouble → Double
value_of slot = join_words slot.high slot.low

pub join-split : (bits : ℕ) → bits < 2 ^ 64 → join_words (high_word bits) (low_word bits) ≡ bits
join-split bits h = omega arith

pub init-IsIdle : (bits : Double) → IsIdle (atomic_double_init_value bits)
unfolding atomic_double_init_value
init-IsIdle bits = omega arith

pub store-IsIdle :
    (slot : AtomicDouble) (bits : Double)
    → IsIdle slot
    → IsIdle (atomic_double_store_value slot bits)
unfolding atomic_double_store_value
store-IsIdle slot bits i = omega arith

-- An idle slot is read at the first attempt.
pub try_load_idle :
    (slot : AtomicDouble) → IsIdle slot → atomic_double_try_load slot ≡ some (value_of slot)
unfolding atomic_double_try_load
try_load_idle slot i = ground arith

-- While a store is under way every attempt fails.
pub try_load_busy :
    (slot : AtomicDouble) → slot.sequence % 2 ≢ 0 → atomic_double_try_load slot ≡ none
unfolding atomic_double_try_load
try_load_busy slot odd = ground arith

-- A load after a store of a 64-bit pattern into an idle slot returns that pattern, and the slot is
-- idle again.
pub try_load-store :
    (slot : AtomicDouble) (bits : Double)
    → IsIdle slot
    → bits < 2 ^ 64
    → (atomic_double_try_load (atomic_double_store_value slot bits) ≡ some bits)
      × IsIdle (atomic_double_store_value slot bits)
try_load-store slot bits i h = (
  try_load_idle _ (store-IsIdle slot bits i)
      ∙ ap some (unfold atomic_double_store_value in join-split bits h),
  store-IsIdle slot bits i,
)

pub try_load-init :
    (bits : Double)
    → bits < 2 ^ 64
    → atomic_double_try_load (atomic_double_init_value bits) ≡ some bits
unfolding atomic_double_init_value atomic_double_try_load
try_load-init bits h = ground arith

pub value_of-store :
    (slot : AtomicDouble) (bits : Double)
    → bits < 2 ^ 64
    → value_of (atomic_double_store_value slot bits) ≡ bits
unfolding atomic_double_store_value
value_of-store slot bits h = join-split bits h

pub value_of-init :
    (bits : Double) → bits < 2 ^ 64 → value_of (atomic_double_init_value bits) ≡ bits
unfolding atomic_double_init_value
value_of-init bits h = join-split bits h
