-- ===== src/AtomicDouble.antt =====
-- src/runtime_control.c, `struct atomic_double` (lines 36-46) and its operations (125-171): a double
-- kept as two 32-bit words under a sequence counter. A double is its 64-bit pattern.
pub mod RoundTrip
pub mod Concurrent
pub mod NoTearing
use cerebri_cubs.Prelude.{
  ℕ, zero, suc, ◌+◌, ◌*◌, ◌/◌, ◌%◌, ◌^◌, ◌<◌, ◌≡◌, refl, Bool, not, ◌||◌, Option, none, some, arith,
  ◌==◌, if◌then◌else◌,
}

abbrev pub Double : Type 0
Double = ℕ

abbrev pub u32 : ℕ → ℕ
u32 n = n % 2 ^ 32

-- A conversion of a `uint64_t` to `uint32_t` keeps the low 32 bits.
abbrev pub low_word : Double → ℕ
low_word bits = bits % 2 ^ 32

abbrev pub high_word : Double → ℕ
high_word bits = bits / 2 ^ 32 % 2 ^ 32

-- `((uint64_t)high << 32U) | low`; the words do not overlap, so `|` is a sum.
abbrev pub join_words : ℕ → ℕ → Double
join_words high low = high * 2 ^ 32 + low

pub record AtomicDouble : Type 0 where
  pub sequence : ℕ
  pub low : ℕ
  pub high : ℕ

unfoldable pub atomic_double_init_value : Double → AtomicDouble
atomic_double_init_value bits = record { sequence = 0; low = low_word bits; high = high_word bits }

-- The four accesses of a store, in the order of the code.
abbrev pub bump_sequence : AtomicDouble → AtomicDouble
bump_sequence slot = record slot { sequence = u32 (slot.sequence + 1) }

abbrev pub write_low : Double → AtomicDouble → AtomicDouble
write_low bits slot = record slot { low = low_word bits }

abbrev pub write_high : Double → AtomicDouble → AtomicDouble
write_high bits slot = record slot { high = high_word bits }

unfoldable pub atomic_double_store_value : AtomicDouble → Double → AtomicDouble
atomic_double_store_value slot bits =
    bump_sequence (write_high bits (write_low bits (bump_sequence slot)))

-- What the four loads of one attempt returned.
pub record Loads : Type 0 where
  pub before : ℕ
  pub low : ℕ
  pub high : ℕ
  pub after : ℕ

abbrev pub is_odd : ℕ → Bool
is_odd n = not (n % 2 == 0)

-- One round of the loop: `none` is `continue`.
unfoldable pub attempt : Loads → Option Double
attempt l =
    if is_odd l.before
    then none
    else if not (l.before == l.after) || is_odd l.after
    then none
    else some (join_words l.high l.low)

abbrev pub or_next : Option Double → Option Double → Option Double
or_next (some v) next = some v
or_next none next = next

-- The loop of three attempts, over what the loads of each returned.
unfoldable pub try_load_seen : Loads → Loads → Loads → Option Double
unfolding attempt
try_load_seen first second third =
    or_next (attempt first) (or_next (attempt second) (attempt third))

-- The loads of an attempt during which nobody writes.
abbrev pub loads_of : AtomicDouble → Loads
loads_of slot = record {
  before = slot.sequence;
  low = slot.low;
  high = slot.high;
  after = slot.sequence;
}

-- A call during which nobody writes. `none` is the result `false`.
unfoldable pub atomic_double_try_load : AtomicDouble → Option Double
unfolding try_load_seen
atomic_double_try_load slot = try_load_seen (loads_of slot) (loads_of slot) (loads_of slot)
