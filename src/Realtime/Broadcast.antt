-- ===== src/Realtime/Broadcast.antt =====
-- `update_mission_telemetry` (src/main_realtime.c:354-444) while the controller flies a route, and over
-- successive calls.
use cerebri_cubs.Prelude.{
  ℕ, zero, suc, ◌+◌, ◌*◌, ◌<◌, ◌≤◌, ◌≡◌, refl, ap, ◌∙◌, Option, none, some, List, [], ◌∷◌, arith,
}
use cerebri_cubs.Prelude.Int.{ℤ, pos, negsuc}
use cerebri_cubs.OuterLoop.{OuterLoopState}
use cerebri_cubs.Csyn.{Csyn}
use cerebri_cubs.Route.{Waypoints, max_segments, max_points}
use cerebri_cubs.Route.Replace.{Flies, IsLeg}
use cerebri_cubs.Realtime.Mission.{
  total_of, current_seq_of, MissionBroadcast, TrajectorySegment, segment_of, broadcast,
}

-- The active leg is announced as its number less one, and its target stands in the array of points.
pub record Announces (model : OuterLoopState) (segments : ℕ) : Type 0 where
  pub total : total_of model ≡ segments
  pub seq : pos (current_seq_of model + 1) ≡ model.current_waypoint
  pub below : current_seq_of model < segments
  pub row : current_seq_of model + 1 < max_points

announced :
    (leg : ℤ) (segments : ℕ) (model : OuterLoopState)
    → model.current_waypoint ≡ leg
    → model.route_n_segments ≡ pos segments
    → segments ≤ max_segments
    → IsLeg segments leg
    → Announces model segments
unfolding current_seq_of
announced (pos n) segments model e count few leg = ground arith
announced (negsuc n) segments model e count few leg = absurd (omega arith)

-- While the controller flies a route of at most CUBS2_MAX_SEGMENTS segments, the total is the
-- number of segments, the announced sequence number is the active leg less one and below the total,
-- and its target stands in the array of points.
pub Flies-Announces :
    (w : Waypoints) (segments : ℕ) (model : OuterLoopState)
    → Flies w segments model
    → segments ≤ max_segments
    → Announces model segments
Flies-Announces w segments model f few =
    announced model.current_waypoint segments model refl f.count few f.leg

abbrev seq_sent : Option TrajectorySegment → List ℕ → List ℕ
seq_sent none later = later
seq_sent (some s) later = s.segment_seq ∷ later

abbrev pub at_seq : ℕ → MissionBroadcast
at_seq seq = record { countdown = 0; seq = seq }

-- The numbers from `seq` on, `n` of them.
abbrev pub count_up : ℕ → ℕ → List ℕ
count_up seq zero = []
count_up seq (suc n) = seq ∷ count_up (seq + 1) n

abbrev nine_more : ℕ → ℕ
nine_more n = suc (suc (suc (suc (suc (suc (suc (suc (suc n))))))))

abbrev with_seq : ℕ → List ℕ × MissionBroadcast → List ℕ × MissionBroadcast
with_seq seq later = (seq ∷ later.0, later.1)

abbrev tens : ℕ → ℕ
tens zero = zero
tens (suc n) = suc (nine_more (tens n))

module _ (csyn : Csyn) (model : OuterLoopState) (now : ℕ → ℕ) where
  -- The segments that `n` calls send, at any times, and what they leave.
  pub calls : ℕ → MissionBroadcast → List ℕ × MissionBroadcast
  calls zero b = ([], b)
  calls (suc n) b =
      let sent = broadcast csyn model (now n) b in
      let later = calls n sent.1 in (seq_sent sent.0 later.0, later.1)

  sends :
      (time seq : ℕ)
      → seq < total_of model
      → total_of model ≤ max_segments
      → broadcast csyn model time (at_seq seq)
        ≡ (some (segment_of csyn model time seq), record { countdown = 9; seq = seq + 1 })
  unfolding broadcast
  sends time seq lt few = ground arith

  -- The nine calls after one that sends.
  quiet :
      (n seq : ℕ) → calls (nine_more n) (record { countdown = 9; seq = seq }) ≡ calls n (at_seq seq)
  unfolding calls broadcast
  quiet n seq = refl

  next_call :
      (n : ℕ) (b : MissionBroadcast)
      → calls (suc n) b ≡ (
        seq_sent (broadcast csyn model (now n) b).0 (calls n (broadcast csyn model (now n) b).1).0,
        (calls n (broadcast csyn model (now n) b).1).1,
      )
  unfolding calls
  next_call n b = refl

  round :
      (n seq : ℕ)
      → seq < total_of model
      → total_of model ≤ max_segments
      → calls (suc (nine_more n)) (at_seq seq) ≡ with_seq seq (calls n (at_seq (seq + 1)))
  round n seq lt few =
      next_call (nine_more n) (at_seq seq)
      ∙ ap
          (λ (sent : Option TrajectorySegment × MissionBroadcast).
            (seq_sent sent.0 (calls (nine_more n) sent.1).0, (calls (nine_more n) sent.1).1))
          (sends (now (nine_more n)) seq lt few)
      ∙ ap (with_seq seq) (quiet n (seq + 1))

  tens_lem : (n : ℕ) → tens n ≡ 10 * n
  tens_lem zero = refl
  tens_lem (suc n) = let ih = tens_lem n in omega arith

  rounds :
      (n seq : ℕ)
      → seq + n ≤ total_of model
      → total_of model ≤ max_segments
      → calls (tens n) (at_seq seq) ≡ (count_up seq n, at_seq (seq + n))
  unfolding calls
  rounds zero seq fits few = ap (λ (k : ℕ). ([], at_seq k)) (omega arith)
  rounds (suc n) seq fits few =
      round (tens n) seq (omega arith) few
      ∙ ap (with_seq seq) (rounds n (seq + 1) (omega arith) few)
      ∙ ap (λ (k : ℕ). (count_up seq (suc n), at_seq k)) (omega arith)

  -- On a route of at most CUBS2_MAX_SEGMENTS segments, from a call that may send the segment `seq`
  -- on, ten calls for each of the next `n` segments of the route, at any times, send exactly those,
  -- each once and in order, and leave the next call ready to send.
  pub all_segments :
      (n seq : ℕ)
      → seq + n ≤ total_of model
      → total_of model ≤ max_segments
      → calls (10 * n) (at_seq seq) ≡ (count_up seq n, at_seq (seq + n))
  all_segments n seq fits few = rw (← tens_lem n) (rounds n seq fits few)
