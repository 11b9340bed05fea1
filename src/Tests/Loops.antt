-- ===== src/Tests/Loops.antt =====
-- Passes of the SIL loop on concrete samples (src/main_sil.c:336-411).
use cerebri_cubs.Prelude.{◌≡◌, ◌↔◌, refl, true, false, some, [], ◌∷◌, arith}
use cerebri_cubs.Mode.{auto_mode_selected}
use cerebri_cubs.Mode.Selection.{PilotFlies, auto_mode_iff}
use cerebri_cubs.Pace.{control_step_due}
use cerebri_cubs.Pace.Periods.{next_after, AllBefore, period, due_iff}
use cerebri_cubs.Sil.{exits, lockstep_sample, Inputs, advance, pass}
use cerebri_cubs.Sil.Outcome.{Outcome, advance-Outcome}
use cerebri_cubs.Sil.Answer.{Fails, pass_exits, Answered, pass-answers}
use cerebri_cubs.Tests.{test_csyn, config, pilot, nobody, sample, lost_sample, context}

auto_mode_iff_example : (auto_mode_selected config pilot ≡ false) ↔ PilotFlies config pilot
auto_mode_iff_example = auto_mode_iff config pilot

due_iff_example :
    ((control_step_due 40000 (next_after (25000 ∷ 20000 ∷ []))).0 ≡ true)
    ↔ AllBefore (period 40000) (25000 ∷ 20000 ∷ [])
due_iff_example = due_iff 40000 (25000 ∷ 20000 ∷ []) (omega arith)

advance-Outcome_example :
    Outcome test_csyn config
      (context nobody sample)
      (advance test_csyn config (context nobody sample)).0
advance-Outcome_example = advance-Outcome test_csyn config (context nobody sample)

abbrev inputs : Inputs
inputs = record {
  received = lockstep_sample sample;
  manual = some nobody;
  elapsed_us = 150;
  send_fails = false;
}

pass-answers_example :
    Answered test_csyn 40000 (pass test_csyn config (context pilot lost_sample) inputs)
pass-answers_example =
    pass-answers test_csyn config (context pilot lost_sample) inputs sample refl refl

abbrev unsent : Inputs
unsent = record inputs { send_fails = true }

pass_exits_example :
    (pass test_csyn config (context pilot sample) unsent ≡ exits)
    ↔ Fails test_csyn unsent (lockstep_sample sample)
pass_exits_example = pass_exits test_csyn config (context pilot sample) unsent
