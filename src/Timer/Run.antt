-- ===== src/Timer/Run.antt =====
-- The wheel's thread over many rounds.
use utils_c.Base.{
  ℕ, zero, suc, ◌+◌, ◌^◌, ◌<◌, ◌≡◌, ◌↔◌, refl, sym, ap, subst, ◌∙◌, arith, Option, none, some, List,
  [], ◌++◌, map, In, NoRepeat, map_on, append_assoc, append-nil,
}
use utils_c.ListHead.{ListOps, ListLaws}
use utils_c.Timer.{Head, Timers, tick}
use utils_c.Timer.Home.{time, due_time}
use utils_c.Timer.Wheel.{Plan, advance_some, Linked, Shows, IsPlaced}
use utils_c.Timer.Sweep.{task}
use utils_c.Timer.Tick.{Ticked}
use utils_c.Timer.Carry.{tick-Ticked}

-- A plan over the next milliseconds, from the time `now`
pub advance_times : ℕ → ℕ → Option Plan → Option Plan
advance_times now zero o = o
advance_times now (suc n) o = advance_times (now + 1) n (advance_some (now + 1) o)

-- A plan whose deadline is `now`
abbrev pub IsDueAt : ℕ → Option Plan → Type 0
IsDueAt now none = ⊥
IsDueAt now (some p) = p.deadline ≡ now

-- The callback of a plan and its argument
abbrev pub callback_of : Option Plan → ℕ × ℕ
callback_of none = (0, 0)
callback_of (some p) = (p.cb, p.arg)

-- The callbacks that the plans ask for over the next milliseconds, from the time `now`: in each of them
-- the timers whose deadlines are its time, each once, and no others.
pub data Calls : ℕ → (ℕ → Option Plan) → ℕ → List (ℕ × ℕ) → Type 0 where
  none_left : {now : ℕ} {plans : ℕ → Option Plan} → Calls now plans zero []
  after :
      {now n : ℕ} {plans : ℕ → Option Plan} {calls later : List (ℕ × ℕ)} (fired : List ℕ)
      → NoRepeat fired
      → ((i : ℕ) → In i fired ↔ IsDueAt (now + 1) (plans i))
      → Calls (now + 1) (λ i. advance_some (now + 1) (plans i)) n later
      → calls ≡ map (λ i. callback_of (plans i)) fired ++ later
      → Calls now plans (suc n) calls

module _ {S : Type 0} (ops : ListOps Head S) where
  -- So many rounds of the wheel's thread
  pub run : ℕ → Timers S → Timers S
  run zero t = t
  run (suc n) t = run n (tick ops t)

  due_of :
      (t : Timers S) (i k : ℕ) (o : Option Plan)
      → Shows ops t i o
      → (Linked ops t i × (due_time (t.items i).due ≡ k)) ↔ IsDueAt k o
  due_of t i k none s = ((λ l. s l.0), (λ z. absurd z))
  due_of t i k (some p) s =
      let same = ap Plan.deadline s.1 in ((λ l. sym same ∙ l.1), (λ e. (s.0, same ∙ e)))

  callback_is :
      (t : Timers S) (i : ℕ) (o : Option Plan)
      → Shows ops t i o
      → Linked ops t i
      → task (t.items i) ≡ callback_of o
  callback_is t i none s l = absurd (s l)
  callback_is t i (some p) s l = ap (λ (q : Plan). (q.cb, q.arg)) s.1

  -- What so many rounds do to the timers that stand for these plans.
  abbrev pub Follows : ℕ → Timers S → (ℕ → Option Plan) → Timers S → Type 0
  Follows n t plans t' =
      ((i : ℕ) → Shows ops t' i (advance_times (time t.clock) n (plans i)))
      × (calls : List (ℕ × ℕ)) × (t'.calls ≡ t.calls ++ calls)
      × Calls (time t.clock) plans n calls

  module _ (laws : ListLaws ops) where
    next_round :
        (n : ℕ) (t u t' : Timers S) (plans : ℕ → Option Plan)
        → ((i : ℕ) → Shows ops t i (plans i))
        → time u.clock ≡ time t.clock + 1
        → Ticked ops u.clock t u
        → Follows n u (λ i. advance_some (time u.clock) (plans i)) t'
        → Follows (suc n) t plans t'
    unfolding advance_times
    next_round n t u t' plans shows now done (kept, calls, more, rest) =
        let first = map (λ i. callback_of (plans i)) done.fired in
        let named : map (λ i. task (t.items i)) done.fired ≡ first =
          map_on done.fired (λ i m. callback_is t i (plans i) (shows i) (done.fired_due i m).0) in
        (
          (λ i.
              subst (λ k. Shows ops t' i (advance_times k n (advance_some k (plans i)))) now
                (kept i)),
          first ++ calls,
          more
              ∙ ap (λ l. l ++ calls) (done.calls ∙ ap (λ l. t.calls ++ l) named)
              ∙ append_assoc t.calls first calls,
          after done.fired done.fired_once
              (λ i.
                subst (λ k. In i done.fired ↔ IsDueAt k (plans i)) now
                  (let due = due_of t i (time u.clock) (plans i) (shows i) in
                    (
                      (λ m. due.0 (done.fired_due i m)),
                      (λ e. let l = due.1 e in done.due_fired i l.0 l.1),
                    )))
              (subst (λ k. Calls k (λ i. advance_some k (plans i)) n calls) now rest) refl,
        )

    -- Over any number of rounds that ends before the time 2 ^ 31, from timers that each stand where they
    -- belong, every timer on the wheel does what its plan says, millisecond by millisecond, and what is
    -- not on the wheel stays off it. The callbacks handed over are those that the plans ask for: in the
    -- order of the milliseconds, in each the callback of every timer whose deadline is its time, once,
    -- and no others.
    pub run-Follows :
        (n : ℕ) (t : Timers S) (plans : ℕ → Option Plan)
        → IsPlaced ops t
        → time t.clock + n < 2 ^ 31
        → ((i : ℕ) → Shows ops t i (plans i))
        → Follows n t plans (run n t)
    unfolding run advance_times
    run-Follows zero t plans placed early shows = (shows, [], sym (append-nil t.calls), none_left)
    run-Follows (suc n) t plans placed early shows =
        let (c, now_c, valid, ticked) = tick-Ticked ops laws t placed (omega arith) in
        let now : time (tick ops t).clock ≡ time t.clock + 1 = ap time ticked.clock ∙ now_c in
        let done : Ticked ops (tick ops t).clock t (tick ops t) =
          subst (λ k. Ticked ops k t (tick ops t)) (sym ticked.clock) ticked in
        next_round n t (tick ops t) (run n (tick ops t)) plans shows now done (
          run-Follows n (tick ops t) (λ i. advance_some (time (tick ops t).clock) (plans i))
            done.placed (omega (arith, now)) (λ i. done.shows i (plans i) (shows i)))
