-- ===== src/Service/ParamSet.antt =====
-- `handle_param_set` (src/runtime_control.c:363-417): what a request may change.
use cerebri_cubs.Prelude.{
  ℕ, ◌<◌, ◌^◌, ◌≡◌, refl, ap, ◌∙◌, String, true, false, Option, none, some, arith, ◌⊎◌, inl, inr,
  Bool-cases,
}
use cerebri_cubs.Prelude.Int.{pos}
use cerebri_cubs.AtomicDouble.{Double}
use cerebri_cubs.Params.{find_value}
use cerebri_cubs.Params.Names.{find_value_sound}
use cerebri_cubs.Flatcc.{Bytes, accepted, Flatcc}
use cerebri_cubs.Reply.{Reply, build_param_set_reply}
use cerebri_cubs.Runtime.{RuntimeControl}
use cerebri_cubs.Runtime.Inv.{is_finite, Inv}
use cerebri_cubs.Service.{
  stage_value, read_param_set, set_value, answer_param_set, handle_param_set,
}
use cerebri_cubs.Service.Staged.{stage_value-Inv}

module _ (f : Flatcc) where
  open f use {value_float, ParamValue}

  -- The request is complete and names a value of the table with a finite number, and the writer's flag
  -- is free.
  abbrev pub Settable : RuntimeControl → Option (String × Double) → Type 0
  Settable r none = ⊥
  Settable r (some (name, number)) =
      (index : ℕ) × (find_value name ≡ some index)
      × (is_finite number ≡ true)
      × (r.command_writer ≡ false)

  -- What an accepted request names, and what it stages and replies.
  pub record SetAccepted (r : RuntimeControl) (read : Option (String × Double)) (capacity : ℕ)
      (after : RuntimeControl × Reply) : Type 0 where
    pub name : String
    pub number : Double
    pub index : ℕ
    pub reads : read ≡ some (name, number)
    pub finds : find_value name ≡ some index
    pub finite : is_finite number ≡ true
    pub free : r.command_writer ≡ false
    pub result : after ≡ (
      stage_value r index number,
      build_param_set_reply f capacity accepted name number (pos 0),
    )

  set_value_cases :
      (r : RuntimeControl) (capacity : ℕ) (name : String) (number : Double) (found : Option ℕ)
      → find_value name ≡ found
      → (((set_value f r capacity name number found).0 ≡ r) × ¬ Settable r (some (name, number)))
        ⊎ SetAccepted r (some (name, number)) capacity (set_value f r capacity name number found)
  unfolding set_value
  set_value_cases r capacity name number none e = inl (refl, λ (index, finds, finite, free). cc)
  set_value_cases r capacity name number (some index) e = elim (Bool-cases (is_finite number)) [
    | inl finite ↦ elim (Bool-cases r.command_writer) [
      | inl busy ↦ inl (simp (finite, busy), λ (i, finds, fin, free). cc)
      | inr free ↦ inr (record {
        name = name;
        number = number;
        index = index;
        reads = refl;
        finds = e;
        finite = finite;
        free = free;
        result = simp (finite, free);
      })
    ]
    | inr bad ↦ inl (simp bad, λ (i, finds, finite, free). cc)
  ]

  answer_cases :
      (r : RuntimeControl) (capacity : ℕ) (read : Option (String × Double))
      → (((answer_param_set f r capacity read).0 ≡ r) × ¬ Settable r read)
        ⊎ SetAccepted r read capacity (answer_param_set f r capacity read)
  answer_cases r capacity none = inl (unfold answer_param_set in refl, λ s. s)
  answer_cases r capacity (some (name, number)) =
      unfold answer_param_set in set_value_cases r capacity name number (find_value name) refl

  -- A request to set a parameter that is complete, names a value of the table with a finite number,
  -- and finds the writer's flag free, stages that value and is answered `accepted`; any other
  -- changes nothing.
  pub param_set_effect :
      (r : RuntimeControl) (request : Option Bytes) (capacity : ℕ)
      → (((handle_param_set f r request capacity).0 ≡ r) × ¬ Settable r (read_param_set f request))
        ⊎ SetAccepted r (read_param_set f request) capacity (handle_param_set f r request capacity)
  param_set_effect r request capacity =
      unfold handle_param_set in answer_cases r capacity (read_param_set f request)

  handle_answers :
      (r : RuntimeControl) (request : Option Bytes) (capacity : ℕ)
      → handle_param_set f r request capacity
        ≡ answer_param_set f r capacity (read_param_set f request)
  unfolding handle_param_set
  handle_answers r request capacity = refl

  answer_found :
      (r : RuntimeControl) (capacity : ℕ) (name : String) (number : Double)
      → answer_param_set f r capacity (some (name, number))
        ≡ set_value f r capacity name number (find_value name)
  unfolding answer_param_set
  answer_found r capacity name number = refl

  -- A complete request that names a value of the table with a finite number, and finds the writer's
  -- flag free, is accepted: it stages that value and is answered `accepted`.
  pub param_set_accepts :
      (r : RuntimeControl) (request : Option Bytes) (capacity : ℕ) (name : String) (number : Double)
      (index : ℕ)
      → read_param_set f request ≡ some (name, number)
      → find_value name ≡ some index
      → is_finite number ≡ true
      → r.command_writer ≡ false
      → handle_param_set f r request capacity ≡ (
        stage_value r index number,
        build_param_set_reply f capacity accepted name number (pos 0),
      )
  param_set_accepts r request capacity name number index reads finds finite free =
      handle_answers r request capacity
      ∙ ap (answer_param_set f r capacity) reads
      ∙ answer_found r capacity name number
      ∙ ap (set_value f r capacity name number) finds
      ∙ unfold set_value in simp (finite, free)

  -- A double of a request is a 64-bit pattern.
  abbrev pub DoublesFit : Type 0
  DoublesFit = (v : ParamValue) → value_float v < 2 ^ 64

  pub read_fits :
      DoublesFit
      → (request : Option Bytes) (name : String) (number : Double)
      → read_param_set f request ≡ some (name, number)
      → number < 2 ^ 64
  unfolding read_param_set
  read_fits fits request name number h = grind (arith, fits)

  pub param_set-Inv :
      DoublesFit
      → (r : RuntimeControl) (request : Option Bytes) (capacity : ℕ) → Inv r
      → Inv (handle_param_set f r request capacity).0
  param_set-Inv fits r request capacity inv = elim (param_set_effect r request capacity) [
    | inl (same, _) ↦ rw same inv
    | inr a ↦ rw a.result (
        stage_value-Inv r a.index a.number inv (find_value_sound a.name a.index a.finds).0
          (read_fits fits request a.name a.number a.reads, a.finite))
  ]
