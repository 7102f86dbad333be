-- ===== src/Timer/Tick.antt =====
-- A tick of the wheel: `uc_timer_check_timeout` between taking the lock and giving it back.
use utils_c.Base.{
  ℕ, ◌<◌, ◌≡◌, ◌≢◌, refl, sym, subst, ◌∙◌, inl, inr, arith, Option, none, some, List, ◌++◌, In,
  NoRepeat, In-cases, map,
}
use utils_c.ListHead.{ListOps, ListLaws}
use utils_c.Timer.{Head, Clock, Due, Timers, Action, stage}
use utils_c.Timer.Home.{time, due_time, IsClock, IsDue, home, Right, Rests}
use utils_c.Timer.Wheel.{
  apart, Plan, advance, advance_some, Stands, IsEarly, Linked, Shows, IsPlaced,
}
use utils_c.Timer.Visit.{advance_later}
use utils_c.Timer.Sweep.{task, Sweeping, sweep-Swept}

-- What a tick from `t` to `t'` does, as a tick of the plans: each timer is at the time of the new
-- clock what its plan says, and the callbacks handed over are those of the timers that are due.
pub record Ticked {S : Type 0} (ops : ListOps Head S) (c : Clock) (t t' : Timers S) : Type 0 where
  pub clock : t'.clock ≡ c
  pub placed : IsPlaced ops t'
  pub shows : (i : ℕ) (o : Option Plan) → Shows ops t i o → Shows ops t' i (advance_some (time c) o)
  pub fired : List ℕ
  pub calls : t'.calls ≡ t.calls ++ map (λ i. task (t.items i)) fired
  pub fired_once : NoRepeat fired
  pub fired_due : (i : ℕ) → In i fired → Linked ops t i × (due_time (t.items i).due ≡ time c)
  pub due_fired : (i : ℕ) → Linked ops t i → due_time (t.items i).due ≡ time c → In i fired

module _ {S : Type 0} (ops : ListOps Head S) (laws : ListLaws ops) (t : Timers S)
    (placed : IsPlaced ops t) where
  -- The stage that reaches the clock `c`: it goes through the list of the timers that rest no longer.
  module _ (c : Clock) (h : Head) (action : Due → Action) (valid : IsClock c) (early : IsEarly c)
      (right : (x : Due)
        → IsDue x
        → time t.clock < due_time x
        → home t.clock x ≡ h
        → Right c h x (action x))
      (rests : (x : Due)
        → IsDue x
        → time t.clock < due_time x
        → home t.clock x ≢ h
        → Rests t.clock c x) where
    abbrev pub start : Timers S
    start = record t { clock = c }

    moved_on : (g : Head) (i : ℕ) → In i (ops.entries t.lists g) → g ≢ h → Stands c g (t.items i)
    moved_on g i m ne =
        let s = placed.stands g i m in
        let r = rests (t.items i).due s.due s.later (λ e. ne (sym s.at ∙ e)) in
        record {
          due = s.due;
          later = r.1;
          at = r.0 ∙ s.at;
          positive = s.positive;
          bounded = s.bounded;
        }

    start-Sweeping : Sweeping ops c h action (ops.entries t.lists h) start
    start-Sweeping = record {
      same = refl;
      once = placed.once;
      todo_once = placed.once h;
      waiting = λ j m.
          let s = placed.stands h j m in
          (
            m,
            record {
              due = s.due;
              right = right (t.items j).due s.due s.later s.at;
              positive = s.positive;
              bounded = s.bounded;
            },
          );
      stands = λ g j m. elim (apart g h) [
        | inl e ↦ inl (subst (λ k. In j (ops.entries t.lists k)) e m, e)
        | inr ne ↦ inr (moved_on g j m ne)
      ];
    }

    -- A timer outside the list of the stage is not due.
    rests_Shows :
        (i : ℕ) (o : Option Plan)
        → (¬ In i (ops.entries t.lists h))
        → Shows ops t i o
        → advance_some (time c) o ≡ o
    rests_Shows i none out s = refl
    rests_Shows i (some p) out s =
        let m = s.0.1 in
        let stands =
          moved_on s.0.0 i m (λ e. out (subst (λ k. In i (ops.entries t.lists k)) e m)) in
        subst (λ q. advance (time c) q ≡ some q) s.1
          (advance_later (time c) (t.items i) stands.later)

    pub stage-Ticked : Ticked ops c t (stage ops action h start)
    unfolding stage
    stage-Ticked =
        let s =
          sweep-Swept ops c h action laws valid early (ops.entries t.lists h) start
            start-Sweeping in
        record {
          clock = s.ends.same;
          placed = record {
            clock = subst IsClock (sym s.ends.same) valid;
            stands = λ g i m. elim (s.ends.stands g i m) [
              | inl z ↦ absurd z.0
              | inr d ↦
                  subst (λ k. Stands k g ((stage ops action h start).items i)) (sym s.ends.same) d
            ];
            once = s.ends.once;
          };
          shows = λ i o before. elim (In-cases i (ops.entries t.lists h)) [
            | inl m ↦ s.shows i o m before
            | inr out ↦
                subst (Shows ops (stage ops action h start) i) (sym (rests_Shows i o out before))
                  (s.shows_other i o out before)
          ];
          fired = s.fired;
          calls = s.calls;
          fired_once = s.fired_once;
          fired_due = λ i m. let d = s.fired_due i m in ((h, d.0), d.1);
          due_fired = λ i l now. elim (apart l.0 h) [
            | inl e ↦ s.due_fired i (subst (λ k. In i (ops.entries t.lists k)) e l.1) now
            | inr ne ↦ let d = moved_on l.0 i l.1 ne in absurd (omega (arith, d.later))
          ];
        }
