-- ===== src/Zros.antt =====
-- src/main_sil.c:163-203 and src/main_realtime.c:315-352: the publishers and subscribers of the two
-- control loops. The zros module is not in the repository: its answers are parameters.
use cerebri_cubs.Prelude.{
  ◌≡◌, ◌↔◌, refl, String, Bool, false, List, [], ◌∷◌, ◌==◌, arith, if◌then◌else◌,
}
use cerebri_cubs.Prelude.Int.{ℤ, pos, negsuc}

-- What `zros_pub_init` and `zros_sub_init` return for a topic.
pub record Zros : Type 0 where
  pub publish : String → ℤ
  pub subscribe : String → ℤ

abbrev pub is_zero : ℤ → Bool
is_zero (pos n) = n == 0
is_zero (negsuc n) = false

-- The loop over the topics, up to the first that fails.
unfoldable pub init_each : (String → ℤ) → List String → ℤ
init_each init [] = pos 0
init_each init (topic ∷ rest) =
    let later = init_each init rest in if is_zero (init topic) then later else init topic

abbrev pub sil_topics : List String
sil_topics =
    "pwm_signal_outputs" ∷ "vehicle_health" ∷ "attitude_estimate" ∷ "attitude_command"
    ∷ "control_loop_metrics" ∷ []

abbrev pub sil_subscriptions : List String
sil_subscriptions = "odometry" ∷ "manual_control" ∷ []

abbrev pub realtime_topics : List String
realtime_topics =
    "pwm_signal_outputs" ∷ "vehicle_health" ∷ "attitude_estimate" ∷ "attitude_command"
    ∷ "control_loop_metrics" ∷ "mission_progress" ∷ "local_position_command" ∷ "trajectory_segment"
    ∷ "navigation_target" ∷ []

-- `control_pubs_init` of the two files. The SIL loop subscribes after all its publishers.
unfoldable pub sil_pubs_init : Zros → ℤ
sil_pubs_init zros =
    let published = init_each zros.publish sil_topics in
    if is_zero published then init_each zros.subscribe sil_subscriptions else published

unfoldable pub realtime_pubs_init : Zros → ℤ
realtime_pubs_init zros = init_each zros.publish realtime_topics

-- Every topic can be initialised.
abbrev pub AllStart : (String → ℤ) → List String → Type 0
AllStart init [] = Unit
AllStart init (topic ∷ rest) = (init topic ≡ pos 0) × AllStart init rest

both_zero : (a b : ℤ) → ((if is_zero a then b else a) ≡ pos 0) ↔ ((a ≡ pos 0) × (b ≡ pos 0))
both_zero a b = ground arith

pub init_each-AllStart :
    (init : String → ℤ) (topics : List String)
    → (init_each init topics ≡ pos 0) ↔ AllStart init topics
unfolding init_each
init_each-AllStart init [] = ((λ h. tt), (λ a. refl))
init_each-AllStart init (topic ∷ rest) =
    let later = init_each-AllStart init rest in
    let both = both_zero (init topic) (init_each init rest) in
    ((λ h. ((both.0 h).0, later.0 (both.0 h).1)), (λ a. both.1 (a.0, later.1 a.1)))

pub sil_pubs_init-AllStart :
    (zros : Zros)
    → (sil_pubs_init zros ≡ pos 0)
      ↔ (AllStart zros.publish sil_topics × AllStart zros.subscribe sil_subscriptions)
unfolding sil_pubs_init
sil_pubs_init-AllStart zros =
    let publishes = init_each-AllStart zros.publish sil_topics in
    let subscribes = init_each-AllStart zros.subscribe sil_subscriptions in
    let both =
      both_zero (init_each zros.publish sil_topics) (init_each zros.subscribe sil_subscriptions) in
    (
      (λ h. (publishes.0 (both.0 h).0, subscribes.0 (both.0 h).1)),
      (λ a. both.1 (publishes.1 a.0, subscribes.1 a.1)),
    )
