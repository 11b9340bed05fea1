-- ===== src/Runtime/Flags.antt =====
-- src/runtime_control.c:403-413 and 623-638 as interleaved accesses: one value on its way from a handler
-- of `param_set` (`command_writer` excludes the others) to the control loop. Each access is one step, in
-- any order, on a sequentially consistent memory. A slot is stored in one step; a load gives what it held
-- at one moment, or fails: AtomicDouble.NoTearing is about the accesses that these are made of.
use cerebri_cubs.Prelude.{◌≡◌, ◌⊎◌, inl, inr, refl, Bool, true, false, arith}
use cerebri_cubs.AtomicDouble.{Double}

-- Where the handler stands: before `pending_value_set` is set.
pub data Writer : Type 0 where
  idle : Writer
  stored : Writer

-- Where the loop stands: after the exchange of the flag; with the value that it loaded; before it sets
-- the flag again.
pub data Reader : Type 0 where
  waiting : Reader
  claimed : Reader
  loaded : (value : Double) → Reader
  failed : Reader

-- `pending_values[i]`, `pending_value_set[i]` and `applied_values[i]`.
pub record System : Type 0 where
  pub slot : Double
  pub pending : Bool
  pub applied : Double
  pub writer : Writer
  pub reader : Reader

abbrev pub start_with : Double → System
start_with value = record {
  slot = value;
  pending = false;
  applied = value;
  writer = idle;
  reader = waiting;
}

abbrev pub store_value : System → Double → System
store_value s value = record s { slot = value; writer = stored }

abbrev pub flag_value : System → System
flag_value s = record s { pending = true; writer = idle }

abbrev pub claim_value : System → System
claim_value s = record s { pending = false; reader = claimed }

abbrev pub load_value : System → System
load_value s = record s { reader = loaded s.slot }

abbrev pub fail_value : System → System
fail_value s = record s { reader = failed }

abbrev pub apply_loaded : System → Double → System
apply_loaded s value = record s { applied = value; reader = waiting }

abbrev pub restage_value : System → System
restage_value s = record s { pending = true; reader = waiting }

pub data Step (s : System) : System → Type 0 where
  stores : (value : Double) → s.writer ≡ idle → Step s (store_value s value)
  flags : s.writer ≡ stored → Step s (flag_value s)
  claims : s.reader ≡ waiting → s.pending ≡ true → Step s (claim_value s)
  loads : s.reader ≡ claimed → Step s (load_value s)
  fails : s.reader ≡ claimed → Step s (fail_value s)
  applies : (value : Double) → s.reader ≡ loaded value → Step s (apply_loaded s value)
  restages : s.reader ≡ failed → Step s (restage_value s)

pub data Reach (value : Double) : System → Type 0 where
  at_start : Reach value (start_with value)
  after : {s t : System} → Reach value s → Step s t → Reach value t

-- What the flag, or the handler that is about to set it, still promises.
data Promised (s : System) : Type 0 where
  pending : s.pending ≡ true → Promised s
  flagging : s.writer ≡ stored → Promised s

abbrev ReaderHolds : System → Reader → Type 0
ReaderHolds s waiting = (s.applied ≡ s.slot) ⊎ Promised s
ReaderHolds s claimed = Unit
ReaderHolds s (loaded value) = (value ≡ s.slot) ⊎ Promised s
ReaderHolds s failed = Unit

Step-ReaderHolds : {s t : System} → Step s t → ReaderHolds s s.reader → ReaderHolds t t.reader
Step-ReaderHolds {s} (stores value e) h = ground arith
Step-ReaderHolds {s} (flags e) h = ground arith
Step-ReaderHolds (claims e p) h = tt
Step-ReaderHolds (loads e) h = inl refl
Step-ReaderHolds (fails e) h = tt
Step-ReaderHolds {s} (applies value e) h = ground arith
Step-ReaderHolds (restages e) h = inr (pending refl)

Reach-ReaderHolds : {value : Double} {s : System} → Reach value s → ReaderHolds s s.reader
Reach-ReaderHolds at_start = inl refl
Reach-ReaderHolds (after r st) = Step-ReaderHolds st (Reach-ReaderHolds r)

at_rest :
    (s : System)
    → ReaderHolds s s.reader
    → s.writer ≡ idle
    → s.reader ≡ waiting
    → (s.pending ≡ true) ⊎ (s.applied ≡ s.slot)
at_rest s h idles waits = ground arith

-- However the accesses of a handler that stages a value and of the control loop interleave: when
-- both are at rest, the value that was stored last is applied or is still pending.
pub value_kept :
    {value : Double} {s : System}
    → Reach value s
    → s.writer ≡ idle
    → s.reader ≡ waiting
    → (s.pending ≡ true) ⊎ (s.applied ≡ s.slot)
value_kept {value} {s} r = at_rest s (Reach-ReaderHolds r)
