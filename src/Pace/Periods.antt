-- ===== src/Pace/Periods.antt =====
-- `control_step_due` (src/main_sil.c:217-231) over a sequence of samples: one step in each period.
use cerebri_cubs.Prelude.{
  ℕ, ◌+◌, ◌*◌, ◌/◌, ◌^◌, ◌≤◌, ◌<◌, ◌≡◌, ◌↔◌, true, List, [], ◌∷◌, arith, ltb, inl, inr, Bool-cases,
}
use cerebri_cubs.Pace.{control_period_us, control_step_due}

abbrev pub period : ℕ → ℕ
period time_us = time_us / control_period_us

-- `next_control_time_us` after samples at the given times, the last one first.
pub next_after : List ℕ → ℕ
next_after [] = 0
next_after (t ∷ earlier) = (control_step_due t (next_after earlier)).1

abbrev pub AllBefore : ℕ → List ℕ → Type 0
AllBefore p [] = Unit
AllBefore p (t ∷ earlier) = (period t < p) × AllBefore p earlier

-- No time is so large that the end of its period leaves 64 bits.
abbrev pub NoWrap : List ℕ → Type 0
NoWrap [] = Unit
NoWrap (t ∷ earlier) = (t + control_period_us < 2 ^ 64) × NoWrap earlier

-- One sample: what it does to the next due time, compared with the end of any period.
after_sample :
    (t next p : ℕ)
    → t + control_period_us < 2 ^ 64
    → ((control_step_due t next).1 ≤ p * control_period_us
        → (period t < p) × (next ≤ p * control_period_us))
      × (period t < p
          → next ≤ p * control_period_us
          → (control_step_due t next).1 ≤ p * control_period_us)
unfolding control_step_due
after_sample t next p h = elim (Bool-cases (ltb t next)) [
  | inl early ↦ rw early ((λ le. (ground arith, le)), (λ lt le. le))
  | inr due ↦ rw due ((λ le. (omega arith, ground arith)), (λ lt le. omega arith))
]

-- The next step is due with the period after the latest one that was sampled.
next_iff :
    (times : List ℕ)
    → NoWrap times
    → (p : ℕ) → (next_after times ≤ p * control_period_us) ↔ AllBefore p times
unfolding next_after
next_iff [] h p = ((λ _. tt), (λ _. omega arith))
next_iff (t ∷ earlier) h p =
    let ih = next_iff earlier h.1 p in
    let sample = after_sample t (next_after earlier) p h.0 in
    (
      (λ le. let (before, le') = sample.0 le in (before, ih.0 le')),
      (λ all. sample.1 all.0 (ih.1 all.1)),
    )

due_at : (t next : ℕ) → ((control_step_due t next).0 ≡ true) ↔ (next ≤ t)
unfolding control_step_due
due_at t next = ground arith

sample_multiple :
    (t next k : ℕ)
    → t + control_period_us < 2 ^ 64
    → next ≡ k * control_period_us
    → (j : ℕ) × ((control_step_due t next).1 ≡ j * control_period_us)
unfolding control_step_due
sample_multiple t next k h e = elim (Bool-cases (ltb t next)) [
  | inl early ↦ (k, rw early e)
  | inr due ↦ (period t + 1, rw due (omega arith))
]

-- The next due time is the start of a period.
multiple : (times : List ℕ) → NoWrap times → (k : ℕ) × (next_after times ≡ k * control_period_us)
unfolding next_after
multiple [] h = (0, omega arith)
multiple (t ∷ earlier) h =
    let (k, e) = multiple earlier h.1 in sample_multiple t (next_after earlier) k h.0 e

-- Samples before the period of `t` are those whose next due time is not after `t`.
next_multiple :
    (t : ℕ) (earlier : List ℕ)
    → NoWrap earlier
    → (next_after earlier ≤ t) ↔ (next_after earlier ≤ period t * control_period_us)
next_multiple t earlier h =
    let (k, e) = multiple earlier h in ((λ le. omega arith), (λ le. omega arith))

-- Whatever the order of the samples, if none of the earlier times is so large that the end of its
-- period leaves 64 bits, a step is due at a sample exactly if no sample before it lay in the same
-- period of 20 ms or in a later one.
pub due_iff :
    (t : ℕ) (earlier : List ℕ)
    → NoWrap earlier
    → ((control_step_due t (next_after earlier)).0 ≡ true) ↔ AllBefore (period t) earlier
due_iff t earlier h =
    let due = due_at t (next_after earlier) in
    let multiple = next_multiple t earlier h in
    let before = next_iff earlier h (period t) in
    ((λ d. before.0 (multiple.0 (due.0 d))), (λ all. due.1 (multiple.1 (before.1 all))))
