-- ===== src/Timer/Carry.antt =====
-- The five ways in which a tick carries.
use utils_c.Base.{
  ℕ, ◌+◌, ◌^◌, ◌<◌, ◌≡◌, ◌≢◌, sym, ap, subst, ◌∙◌, arith, ◌==◌, if◌then◌else◌, true, false, [],
  empty_of_none,
}
use native.Mathlib.Decide.{dec_lt}
use utils_c.ListHead.{ListOps, ListLaws}
use utils_c.Timer.{
  Head, ms_list, s_list, m_list, h_list, d_list, Clock, Due, Timers, Action, sweep, stage, tick,
  s_stage, m_stage, h_stage, d_stage, next_ms, next_s, next_m, next_h, next_d, ms_action, s_action,
  m_action, h_action, d_action,
}
use utils_c.Timer.Home.{
  time, due_time, IsClock, IsDue, home, Right, Rests, ms_Right, ms_Rests, s_Right, s_Rests, m_Right,
  m_Rests, h_Right, h_Rests, d_Right, d_Rests, ms_list_empty, s_list_empty, m_list_empty,
  h_list_empty,
}
use utils_c.Timer.Wheel.{IsPlaced}
use utils_c.Timer.Tick.{Ticked, stage-Ticked}

-- A tick is one millisecond.
abbrev pub NextTicked : {S : Type 0} → ListOps Head S → Timers S → Timers S → Type 0
NextTicked ops t t' = (c : Clock) × (time c ≡ time t.clock + 1) × IsClock c × Ticked ops c t t'

module _ {S : Type 0} (ops : ListOps Head S) (laws : ListLaws ops) (t : Timers S)
    (placed : IsPlaced ops t) (early : time t.clock + 1 < 2 ^ 31) where
  nothing_at :
      (h : Head)
      → ((x : Due) → IsDue x → time t.clock < due_time x → home t.clock x ≢ h)
      → ops.entries t.lists h ≡ []
  nothing_at h away =
      empty_of_none (ops.entries t.lists h)
        (λ i m. let s = placed.stands h i m in away (t.items i).due s.due s.later s.at)

  -- A stage: its list, and the coarser stage when its own field of the clock is 0 again.
  abbrev level :
      (ℕ → Head) → (Due → Action) → (Timers S → Timers S) → (Clock → ℕ) → Clock → Timers S
  level list action rest idx c =
      let v = stage ops action (list (idx c)) (record t { clock = c }) in
      if idx v.clock == 0 then rest v else v

  reaches :
      (list : ℕ → Head) (action : Due → Action) (rest : Timers S → Timers S) (idx : Clock → ℕ)
      (c : Clock) (i : ℕ)
      → IsClock c
      → time c ≡ time t.clock + 1
      → idx c ≡ i + 1
      → ((x : Due)
          → IsDue x
          → time t.clock < due_time x
          → home t.clock x ≡ list (i + 1)
          → Right c (list (i + 1)) x (action x))
      → ((x : Due)
          → IsDue x
          → time t.clock < due_time x
          → home t.clock x ≢ list (i + 1)
          → Rests t.clock c x)
      → NextTicked ops t (level list action rest idx c)
  reaches list action rest idx c i valid now at right rests =
      let u : Timers S = record t { clock = c } in
      let done : Ticked ops c t (stage ops action (list (idx c)) u) =
        subst (λ k. Ticked ops c t (stage ops action (list k) u)) (sym at)
          (stage-Ticked ops laws t placed c (list (i + 1)) action valid (omega arith) right
            rests) in
      let v = stage ops action (list (idx c)) u in
      let not_zero : (idx c == 0) ≡ false = ground arith in
      let stops : (idx v.clock == 0) ≡ false = ap (λ k. idx k == 0) done.clock ∙ not_zero in
      (c, now, valid, rw stops done)

  carries :
      (list : ℕ → Head) (action : Due → Action) (rest : Timers S → Timers S) (idx : Clock → ℕ)
      (c : Clock)
      → idx c ≡ 0
      → ((x : Due) → IsDue x → time t.clock < due_time x → home t.clock x ≢ list 0)
      → NextTicked ops t (rest (record t { clock = c }))
      → NextTicked ops t (level list action rest idx c)
  unfolding stage sweep
  carries list action rest idx c at away done =
      let u : Timers S = record t { clock = c } in
      let none = ap (λ k. ops.entries t.lists (list k)) at ∙ nothing_at (list 0) away in
      let zero : (idx c == 0) ≡ true = ground arith in
      subst
        (λ is.
          NextTicked ops t
            (let v = sweep ops action u is in if idx v.clock == 0 then rest v else v))
        (sym none) (rw zero done)

  d_stage-Ticked :
      t.clock.ms_idx ≡ 999
      → t.clock.s_idx ≡ 59
      → t.clock.m_idx ≡ 59
      → t.clock.h_idx ≡ 23
      → NextTicked ops t
          (d_stage ops (record t { clock = (next_h (next_m (next_s (next_ms t.clock)))) }))
  unfolding d_stage
  d_stage-Ticked z0 z1 z2 z3 =
      let c = next_d (next_h (next_m (next_s (next_ms t.clock)))) in
      let room : t.clock.d_idx + 1 < 2 ^ 16 = omega arith in
      let v = placed.clock in
      let valid : IsClock c = omega (arith, v.h) in
      let now : time c ≡ time t.clock + 1 = omega arith in
      (
        c,
        now,
        valid,
        stage-Ticked ops laws t placed c d_list (d_action c.d_idx) valid (omega arith)
            (λ x w later e. d_Right t.clock x v w later z0 z1 z2 z3 room e)
            (λ x w later e. d_Rests t.clock x v w later z0 z1 z2 z3 room e),
      )

  h_stage-Ticked :
      t.clock.ms_idx ≡ 999
      → t.clock.s_idx ≡ 59
      → t.clock.m_idx ≡ 59
      → NextTicked ops t (h_stage ops (record t { clock = (next_m (next_s (next_ms t.clock))) }))
  unfolding h_stage
  h_stage-Ticked z0 z1 z2 =
      let c = next_h (next_m (next_s (next_ms t.clock))) in
      let v = placed.clock in
      elim (dec_lt (t.clock.h_idx + 1) 24) [
        | yes k ↦
            reaches h_list h_action (d_stage ops) (λ k. k.h_idx) c t.clock.h_idx
              (omega (arith, v.ms)) (omega arith) (omega arith)
              (λ x w later e. h_Right t.clock x v w later z0 z1 z2 k e)
              (λ x w later e. h_Rests t.clock x v w later z0 z1 z2 k e)
        | no n ↦
            let z : t.clock.h_idx ≡ 23 = omega (arith, v.h) in
            carries h_list h_action (d_stage ops) (λ k. k.h_idx) c (omega arith)
              (λ x w later e. h_list_empty t.clock x v w later z0 z1 z2 z e)
              (d_stage-Ticked z0 z1 z2 z)
      ]

  m_stage-Ticked :
      t.clock.ms_idx ≡ 999
      → t.clock.s_idx ≡ 59
      → NextTicked ops t (m_stage ops (record t { clock = (next_s (next_ms t.clock)) }))
  unfolding m_stage
  m_stage-Ticked z0 z1 =
      let c = next_m (next_s (next_ms t.clock)) in
      let v = placed.clock in
      elim (dec_lt (t.clock.m_idx + 1) 60) [
        | yes k ↦
            reaches m_list m_action (h_stage ops) (λ k. k.m_idx) c t.clock.m_idx
              (omega (arith, v.ms)) (omega arith) (omega arith)
              (λ x w later e. m_Right t.clock x v w later z0 z1 k e)
              (λ x w later e. m_Rests t.clock x v w later z0 z1 k e)
        | no n ↦
            let z : t.clock.m_idx ≡ 59 = omega (arith, v.m) in
            carries m_list m_action (h_stage ops) (λ k. k.m_idx) c (omega arith)
              (λ x w later e. m_list_empty t.clock x v w later z0 z1 z e) (h_stage-Ticked z0 z1 z)
      ]

  s_stage-Ticked :
      t.clock.ms_idx ≡ 999 → NextTicked ops t (s_stage ops (record t { clock = (next_ms t.clock) }))
  unfolding s_stage
  s_stage-Ticked z0 =
      let c = next_s (next_ms t.clock) in
      let v = placed.clock in
      elim (dec_lt (t.clock.s_idx + 1) 60) [
        | yes k ↦
            reaches s_list s_action (m_stage ops) (λ k. k.s_idx) c t.clock.s_idx
              (omega (arith, v.ms)) (omega arith) (omega arith)
              (λ x w later e. s_Right t.clock x v w later z0 k e)
              (λ x w later e. s_Rests t.clock x v w later z0 k e)
        | no n ↦
            let z : t.clock.s_idx ≡ 59 = omega (arith, v.s) in
            carries s_list s_action (m_stage ops) (λ k. k.s_idx) c (omega arith)
              (λ x w later e. s_list_empty t.clock x v w later z0 z e) (m_stage-Ticked z0 z)
      ]

  -- One round of the wheel's thread, on timers that each stand where they belong, is one millisecond
  -- of their plans: every timer whose deadline is the new time has its callback handed over, once, and
  -- no other timer has; it starts again with its interval, or ends with its last time; every other
  -- timer stays as it is, and all that are left stand where they belong. The time is below 2 ^ 31.
  pub tick-Ticked : NextTicked ops t (tick ops t)
  unfolding tick
  tick-Ticked =
      let c = next_ms t.clock in
      let v = placed.clock in
      elim (dec_lt (t.clock.ms_idx + 1) 1000) [
        | yes k ↦
            reaches ms_list ms_action (s_stage ops) (λ k. k.ms_idx) c t.clock.ms_idx
              (omega (arith, v.ms)) (omega arith) (omega arith)
              (λ x w later e. ms_Right t.clock x v w later k e)
              (λ x w later e. ms_Rests t.clock x v w later k e)
        | no n ↦
            let z : t.clock.ms_idx ≡ 999 = omega (arith, v.ms) in
            carries ms_list ms_action (s_stage ops) (λ k. k.ms_idx) c (omega arith)
              (λ x w later e. ms_list_empty t.clock x v w later z e) (s_stage-Ticked z)
      ]
