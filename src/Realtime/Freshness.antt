-- ===== src/Realtime/Freshness.antt =====
-- How long a motion-capture measurement counts (src/main_realtime.c:123-176).
use cerebri_cubs.Prelude.{
  ℕ, ◌<◌, ◌≡◌, ◌↔◌, inl, inr, refl, Bool, true, false, ◌&&◌, ◌||◌, Option, none, some, ◌==◌, arith,
  Bool-cases,
}
use cerebri_cubs.Prelude.Int.{ℤ, pos, negsuc, ◌≤ℤ◌, leb_ℤ, ◌-ℤ◌, ◌+ℤ◌}
use cerebri_cubs.Float.{is_finite_float}
use cerebri_cubs.Csyn.{Float, Csyn}
use cerebri_cubs.Realtime.Mocap.{
  MocapState, PoseTopic, freshness_ms, take_pose, read_mocap_if_updated, mocap_measurement_fresh,
}

within :
    (last now : ℤ)
    → ((leb_ℤ (pos 0) (now -ℤ last) && leb_ℤ (now -ℤ last) freshness_ms) ≡ true)
      ↔ ((last ≤ℤ now) × (now ≤ℤ last +ℤ freshness_ms))
within (pos a) (pos b) = ground arith
within (pos a) (negsuc b) = ground arith
within (negsuc a) (pos b) = ground arith
within (negsuc a) (negsuc b) = ground arith

abbrev pub AllFinite : (ℕ → Float) → ℕ → Type 0
AllFinite values n = (i : ℕ) → i < n → is_finite_float (values i) ≡ true

module _ (csyn : Csyn) where
  taken :
      (m : MocapState) (generation : ℕ) (read_ms : ℤ) (copied : Option ((ℕ → Float) × Bool))
      → (take_pose csyn m generation read_ms copied).1 ≡ true
      → ((take_pose csyn m generation read_ms copied).0.generation ≡ generation)
        × ((take_pose csyn m generation read_ms copied).0.last_update_ms ≡ read_ms)
  taken m generation read_ms none h = cc
  taken m generation read_ms (some (values, true)) h = (refl, refl)
  taken m generation read_ms (some (values, false)) h = cc

  read_taken :
      (m : MocapState) (topic : PoseTopic) (read_ms : ℤ)
      → (read_mocap_if_updated csyn m topic read_ms).1 ≡ true
      → (((read_mocap_if_updated csyn m topic read_ms).0.generation == 0) ≡ false)
        × ((read_mocap_if_updated csyn m topic read_ms).0.last_update_ms ≡ read_ms)
  unfolding read_mocap_if_updated
  read_taken m topic read_ms h =
      elim (Bool-cases (topic.generation == 0 || topic.generation == m.generation)) [
        | inl old ↦ absurd (cc (rw old at h))
        | inr new ↦
            let t = taken m topic.generation read_ms topic.copied (rw new at h) in
            rw (new, t.0) (ground arith, t.1)
      ]

  fresh_iff :
      (m : MocapState) (read_ms now_ms : ℤ)
      → (m.generation == 0) ≡ false
      → m.last_update_ms ≡ read_ms
      → (mocap_measurement_fresh m now_ms ≡ true)
        ↔ ((m.mocap.valid ≡ true) × (read_ms ≤ℤ now_ms) × (now_ms ≤ℤ read_ms +ℤ freshness_ms))
  unfolding mocap_measurement_fresh
  fresh_iff m read_ms now_ms some_generation last =
      let near = within read_ms now_ms in rw (last) (ground (arith, near, some_generation))

  -- After a read that takes a measurement at one time, the measurement counts as fresh at another
  -- time exactly if it is valid and the second time is not before the first nor more than 100 ms
  -- after it.
  pub read_mocap_fresh :
      (m : MocapState) (topic : PoseTopic) (read_ms now_ms : ℤ)
      → (read_mocap_if_updated csyn m topic read_ms).1 ≡ true
      → (mocap_measurement_fresh (read_mocap_if_updated csyn m topic read_ms).0 now_ms ≡ true) ↔ (
          ((read_mocap_if_updated csyn m topic read_ms).0.mocap.valid ≡ true)
          × (read_ms ≤ℤ now_ms)
          × (now_ms ≤ℤ read_ms +ℤ freshness_ms))
  read_mocap_fresh m topic read_ms now_ms h =
      let t = read_taken m topic read_ms h in
      fresh_iff (read_mocap_if_updated csyn m topic read_ms).0 read_ms now_ms t.0 t.1
