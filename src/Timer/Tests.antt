-- ===== src/Timer/Tests.antt =====
-- The wheel at concrete timers.
use utils_c.Base.{
  subst, sym, ==_self, Bool-cases, ℕ, ◌^◌, ◌<◌, ◌≡◌, ◌≢◌, ◌↔◌, refl, arith, inl, inr, ◌==◌,
  if◌then◌else◌, ==_iff, Bool, true, false, Option, none, some, List, [], ◌∷◌, In, done, NoRepeat,
}
use utils_c.ListHead.{IsFree}
use utils_c.ListHead.Plain.{plain, plain-ListLaws}
use utils_c.Timer.{
  Head, ms_list, s_list, m_list, h_list, d_list, Clock, Item, Timers, due_at, next_time, tick,
  s_stage, m_stage, h_stage, d_stage, stage, sweep, perform, go_off, node_reinsert, reinsert_head,
  add_do, add_list, delete_do,
}
use utils_c.Timer.Home.{home}
use utils_c.Timer.Wheel.{IsPlaced, Stands, Shows, Plan, plan}
use utils_c.Timer.Carry.{NextTicked, tick-Ticked}
use utils_c.Timer.Add.{Changes, Clear, add_do-Changes, delete_do-Changes, add_do-same_day}
use utils_c.Timer.Run.{run, Follows, run-Follows}

head_eq : Head → Head → Bool
head_eq (ms_list a) (ms_list b) = a == b
head_eq (s_list a) (s_list b) = a == b
head_eq (m_list a) (m_list b) = a == b
head_eq (h_list a) (h_list b) = a == b
head_eq d_list d_list = true
head_eq _ _ = false

head_eq_iff : (g h : Head) → (head_eq g h ≡ true) ↔ (g ≡ h)
unfolding head_eq
head_eq_iff g h = ground arith

-- The clock stands at 0:00:05.100 of a day.
abbrev clock_on : ℕ → Clock
clock_on day = record { ms_idx = 100; s_idx = 5; m_idx = 0; h_idx = 0; d_idx = day }

-- A timer at address 7, due in the next millisecond, every two seconds, for ever.
abbrev one_item : ℕ → Item
one_item day = record {
  interval = 2000;
  ttl = 0;
  due = record { ms = 101; s = 5; m = 0; h = 0; d = day };
  cb = 40;
  arg = 41;
}

abbrev one_list : Head → List ℕ
one_list (ms_list k) = if k == 101 then 7 ∷ [] else []
one_list _ = []

abbrev one_timer : ℕ → Timers (Head → List ℕ)
one_timer day = record {
  lists = one_list;
  clock = clock_on day;
  items = λ i. one_item day;
  calls = [];
}

one_item-Stands : (day : ℕ) → day < 2 ^ 16 → Stands (clock_on day) (ms_list 101) (one_item day)
unfolding home
one_item-Stands day h = ground (arith, ==_self day)

all_stand :
    (day : ℕ) (h : Head) (i : ℕ)
    → day < 2 ^ 16
    → In i (one_list h)
    → Stands (clock_on day) h (one_item day)
all_stand day (ms_list k) i b m = elim (Bool-cases (k == 101)) [
  | inl e ↦
      subst (λ n. Stands (clock_on day) (ms_list n) (one_item day)) (sym ((==_iff k 101).0 e))
        (one_item-Stands day b)
  | inr e ↦ let none : ⊥ = rw e at m in absurd none
]
all_stand day (s_list k) i b m = elim m [ ]
all_stand day (m_list k) i b m = elim m [ ]
all_stand day (h_list k) i b m = elim m [ ]
all_stand day d_list i b m = elim m [ ]

one_once : (h : Head) → NoRepeat (one_list h)
one_once (ms_list k) = elim (Bool-cases (k == 101)) [
  | inl e ↦ rw e ((λ m. m), tt)
  | inr e ↦ rw e tt
]
one_once (s_list k) = tt
one_once (m_list k) = tt
one_once (h_list k) = tt
one_once d_list = tt

one_timer-IsPlaced : (day : ℕ) → day < 2 ^ 16 → IsPlaced (plain head_eq) (one_timer day)
one_timer-IsPlaced day b = record {
  clock = omega arith;
  stands = λ h i m. all_stand day h i b m;
  once = one_once;
}

eight : ◌≢◌ {A = ℕ} 8 7
eight e = omega arith

-- The address 8 is in no list.
eight-IsFree : (day : ℕ) → IsFree (plain head_eq) (one_timer day).lists 8
eight-IsFree day (ms_list k) m = elim (Bool-cases (k == 101)) [
  | inl e ↦ let other : In 8 (7 ∷ []) = rw e at m in elim other [ inl f ↦ eight f | inr z ↦ z ]
  | inr e ↦ let none : ⊥ = rw e at m in none
]
eight-IsFree day (s_list k) m = m
eight-IsFree day (m_list k) m = m
eight-IsFree day (h_list k) m = m
eight-IsFree day d_list m = m

tick-Ticked_example : NextTicked (plain head_eq) (one_timer 1) (tick (plain head_eq) (one_timer 1))
tick-Ticked_example =
    tick-Ticked (plain head_eq) (plain-ListLaws head_eq head_eq_iff) (one_timer 1)
      (one_timer-IsPlaced 1 (omega arith)) (omega arith)

minute_Clear : Clear (clock_on 0) (due_at (next_time (clock_on 0) 60000))
unfolding due_at next_time
minute_Clear = ground arith

add_do-Changes_example :
    ((add_do (plain head_eq) (one_timer 0) (some 8) 60000 1 50 51).0 ≡ some 8)
    × Changes
        (plain head_eq)
        (one_timer 0)
        (add_do (plain head_eq) (one_timer 0) (some 8) 60000 1 50 51).1
        8
        (some (record { deadline = 65100; interval = 60000; ttl = 1; cb = 50; arg = 51 }))
add_do-Changes_example =
    add_do-Changes (plain head_eq) (plain-ListLaws head_eq head_eq_iff) (one_timer 0)
      (one_timer-IsPlaced 0 (omega arith)) 8 60000 1 50 51 (eight-IsFree 0) (omega arith)
      (omega arith) (omega arith) (λ e. omega arith) minute_Clear

delete_do-Changes_example :
    ((delete_do (plain head_eq) (one_timer 0) (some 7)).0 ≡ done)
    × ((delete_do (plain head_eq) (one_timer 0) (some 7)).1 ≡ some 7)
    × Changes
        (plain head_eq)
        (one_timer 0)
        (delete_do (plain head_eq) (one_timer 0) (some 7)).2
        7
        none
delete_do-Changes_example =
    delete_do-Changes (plain head_eq) (plain-ListLaws head_eq head_eq_iff) (one_timer 0)
      (one_timer-IsPlaced 0 (omega arith)) 7 (ms_list 101, inl refl)

same_day : (due_at (next_time (clock_on 1) 50)).d ≡ 1
unfolding due_at next_time
same_day = refl

add_do-same_day_example :
    In 8 ((add_do (plain head_eq) (one_timer 1) (some 8) 50 1 50 51).1.lists d_list)
    × (¬ IsPlaced (plain head_eq) (add_do (plain head_eq) (one_timer 1) (some 8) 50 1 50 51).1)
add_do-same_day_example =
    add_do-same_day (plain head_eq) (plain-ListLaws head_eq head_eq_iff) (one_timer 1)
      (one_timer-IsPlaced 1 (omega arith)) 8 50 1 50 51 (eight-IsFree 1) (omega arith) (omega arith)
      (omega arith) (λ e. omega arith) (omega arith) same_day

-- The first tick hands the callback over.
tick_calls : (tick (plain head_eq) (one_timer 1)).calls ≡ (40, 41) ∷ []
unfolding tick s_stage m_stage h_stage d_stage stage sweep perform go_off node_reinsert next_time
    due_at reinsert_head head_eq
tick_calls = refl

-- A timer for two milliseconds that is added in the sixth second waits for that second of the next minute.
two_ticks : Timers (Head → List ℕ)
two_ticks =
    tick (plain head_eq)
      (tick (plain head_eq) (add_do (plain head_eq) (one_timer 0) (some 8) 2 1 50 51).1)

two_calls : two_ticks.calls ≡ (40, 41) ∷ []
unfolding two_ticks tick s_stage m_stage h_stage d_stage stage sweep perform go_off node_reinsert
    next_time due_at reinsert_head head_eq add_do add_list
two_calls = refl

abbrev one_plan : ℕ → Option Plan
one_plan i = if i == 7 then some (plan (one_item 1)) else none

-- No other address is in a list.
only_seven : (i : ℕ) (h : Head) → (i == 7) ≡ false → ¬ In i (one_list h)
only_seven i (ms_list k) ne m = elim (Bool-cases (k == 101)) [
  | inl e ↦
      let other : In i (7 ∷ []) = rw e at m in
      elim other [ inl f ↦ let same : (i == 7) ≡ true = (==_iff i 7).1 f in cc | inr z ↦ z ]
  | inr e ↦ let none : ⊥ = rw e at m in none
]
only_seven i (s_list k) ne m = m
only_seven i (m_list k) ne m = m
only_seven i (h_list k) ne m = m
only_seven i d_list ne m = m

one_plan-Shows : (i : ℕ) → Shows (plain head_eq) (one_timer 1) i (one_plan i)
one_plan-Shows i = elim (Bool-cases (i == 7)) [
  | inl e ↦ rw e ((ms_list 101, inl ((==_iff i 7).0 e)), refl)
  | inr e ↦ rw e (λ l. only_seven i l.0 e l.1)
]

run-Follows_example :
    Follows (plain head_eq) 3000 (one_timer 1) one_plan (run (plain head_eq) 3000 (one_timer 1))
run-Follows_example =
    run-Follows (plain head_eq) (plain-ListLaws head_eq head_eq_iff) 3000 (one_timer 1) one_plan
      (one_timer-IsPlaced 1 (omega arith)) (omega arith) one_plan-Shows
