-- ===== src/Timer/Wheel.antt =====
-- When the timers stand where they belong, and what one round of a tick's loop does to a timer.
use utils_c.Base.{
  ap, ℕ, ◌+◌, ◌-◌, ◌^◌, ◌<◌, ◌≡◌, ◌≢◌, sym, ◌∙◌, ◌⊎◌, inl, inr, arith, ◌==◌, if◌then◌else◌, Option,
  none, some, In, NoRepeat,
}
use native.Mathlib.Decide.{ℕ_discrete}
use utils_c.ListHead.{ListOps}
use utils_c.ListHead.Relink.{Relinks}
use utils_c.Timer.{
  Head, Clock, Due, Item, Timers, Action, due_at, next_time, reinsert_head, timer_interval_max,
}
use utils_c.Timer.Home.{
  time, due_time, IsClock, IsDue, home, reinsert_head-home, due_time-due_at, due_at-IsDue,
  next_time-add, Right,
}

Head-discrete : Discrete Head
Head-discrete = hlevel ℕ_discrete

pub apart : (g h : Head) → (g ≡ h) ⊎ (g ≢ h)
apart g h = elim (Head-discrete g h) [ yes e ↦ inl e | no ne ↦ inr ne ]

-- What is left of a timer without the wheel: its deadline, and how it goes on.
pub record Plan : Type 0 where
  pub deadline : ℕ
  pub interval : ℕ
  pub ttl : ℕ
  pub cb : ℕ
  pub arg : ℕ

abbrev pub plan : Item → Plan
plan item = record {
  deadline = due_time item.due;
  interval = item.interval;
  ttl = item.ttl;
  cb = item.cb;
  arg = item.arg;
}

-- A plan at the time `now`: it stays, or it is carried out and starts again or ends.
abbrev pub advance : ℕ → Plan → Option Plan
advance now p =
    if p.deadline == now
    then (if p.ttl == 0
        then some (record p { deadline = now + p.interval })
        else if p.ttl == 1
        then none
        else some (record p { deadline = now + p.interval; ttl = p.ttl - 1 }))
    else some p

abbrev pub advance_some : ℕ → Option Plan → Option Plan
advance_some now none = none
advance_some now (some p) = advance now p

-- A timer that stands where it belongs, in the list `h`.
pub record Stands (c : Clock) (h : Head) (item : Item) : Type 0 where
  pub due : IsDue item.due
  pub later : time c < due_time item.due
  pub at : home c item.due ≡ h
  pub positive : 0 < item.interval
  pub bounded : item.interval < timer_interval_max

-- A timer whose turn it is in a stage.
pub record Pending (c : Clock) (h : Head) (action : Due → Action) (item : Item) : Type 0 where
  pub due : IsDue item.due
  pub right : Right c h item.due (action item.due)
  pub positive : 0 < item.interval
  pub bounded : item.interval < timer_interval_max

-- Before the time where the sum of the clock's fields exceeds an `int`.
abbrev pub IsEarly : Clock → Type 0
IsEarly c = time c < 2 ^ 31

abbrev pub restarted : Clock → Item → Item
restarted c item = record item { due = due_at (next_time c item.interval) }

pub restarted-Stands :
    (c : Clock) (item : Item)
    → IsClock c
    → IsEarly c
    → 0 < item.interval
    → item.interval < timer_interval_max
    → (due_time (restarted c item).due ≡ time c + item.interval)
      × Stands c (reinsert_head c (restarted c item).due) (restarted c item)
restarted-Stands c item v early pos bound =
    let sum = next_time-add c item.interval early (omega arith) in
    let whole : due_time (due_at (next_time c item.interval)) ≡ time c + item.interval =
      due_time-due_at (next_time c item.interval) (omega arith) ∙ sum in
    let digits = due_at-IsDue (next_time c item.interval) in
    let later : time c < due_time (due_at (next_time c item.interval)) = omega arith in
    (
      whole,
      record {
        due = digits;
        later = later;
        at = sym (reinsert_head-home c (due_at (next_time c item.interval)) v digits later);
        positive = pos;
        bounded = bound;
      },
    )

module _ {S : Type 0} (ops : ListOps Head S) where
  abbrev pub Linked : Timers S → ℕ → Type 0
  Linked t i = (h : Head) × In i (ops.entries t.lists h)

  -- The timer at an address as a plan, or none when it is in no list.
  abbrev pub Shows : Timers S → ℕ → Option Plan → Type 0
  Shows t i none = ¬ Linked t i
  Shows t i (some p) = Linked t i × (plan (t.items i) ≡ p)

  -- Every timer is in one list, once, and that list is the one where it belongs.
  pub record IsPlaced (t : Timers S) : Type 0 where
    pub clock : IsClock t.clock
    pub stands : (h : Head) (i : ℕ) → In i (ops.entries t.lists h) → Stands t.clock h (t.items i)
    pub once : (h : Head) → NoRepeat (ops.entries t.lists h)

  -- What a round for the timer `i` has done, unless it has left everything.
  pub record Visited (c : Clock) (t t' : Timers S) (i : ℕ) : Type 0 where
    pub dest : Option Head
    pub links : Relinks ops t.lists t'.lists i dest
    pub same_clock : t'.clock ≡ t.clock
    pub others : (j : ℕ) → j ≢ i → t'.items j ≡ t.items j
    pub stands : (h : Head) → dest ≡ some h → Stands c h (t'.items i)
    pub shows : (o : Option Plan) → Shows t i o → Shows t' i (advance_some (time c) o)

  -- A timer that is not the one that is linked anew shows what it did.
  pub Relinks-Shows :
      (t t' : Timers S) (i j : ℕ) (dest : Option Head)
      → Relinks ops t.lists t'.lists i dest
      → t'.items j ≡ t.items j
      → j ≢ i
      → (o : Option Plan) → Shows t j o
      → Shows t' j o
  Relinks-Shows t t' i j dest links same ne none unlinked =
      λ l. elim (links.members l.0 j l.1) [ inl a ↦ ne a.0 | inr b ↦ unlinked (l.0, b.1) ]
  Relinks-Shows t t' i j dest links same ne (some p) shown =
      ((shown.0.0, links.keeps shown.0.0 j ne shown.0.1), ap plan same ∙ shown.1)
