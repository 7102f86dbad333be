-- ===== src/Timer.antt =====
-- time/uc_time.c: the timer wheel.
pub mod Home
pub mod Wheel
pub mod Visit
pub mod Sweep
pub mod Tick
pub mod Carry
pub mod Run
pub mod Add
pub mod Sleep
mod Tests
use utils_c.Base.{
  ℕ, ◌+◌, ◌-◌, ◌*◌, ◌/◌, ◌%◌, ◌^◌, ◌==◌, if◌then◌else◌, Bool, not, ◌&&◌, ◌||◌, leb, ltb,
  size_of_int, Option, none, some, List, [], ◌∷◌, ◌++◌, Status, done, failed,
}
use utils_c.ListHead.{ListOps}

-- The lists of the wheel. The days have one.
pub data Head : Type 0 where
  ms_list s_list m_list h_list : ℕ → Head
  d_list : Head

-- Where the wheel points. The fields are `uint16_t`.
pub record Clock : Type 0 where
  pub ms_idx : ℕ
  pub s_idx : ℕ
  pub m_idx : ℕ
  pub h_idx : ℕ
  pub d_idx : ℕ

-- When a timer goes off next
pub record Due : Type 0 where
  pub ms : ℕ
  pub s : ℕ
  pub m : ℕ
  pub h : ℕ
  pub d : ℕ

-- A callback is a number that is not 0.
pub record Item : Type 0 where
  pub interval : ℕ
  pub ttl : ℕ
  pub due : Due
  pub cb : ℕ
  pub arg : ℕ

-- The lists, the clock, the memory of the items by their addresses, and the tasks that were handed to
-- `uc_threadpool_add_void_task`.
pub record Timers (S : Type 0) : Type 0 where
  pub lists : S
  pub clock : Clock
  pub items : ℕ → Item
  pub calls : List (ℕ × ℕ)

-- The sum of the clock's fields is an `int`, which keeps 32 bits, and is converted to `uint64_t`.
pub next_time : Clock → ℕ → ℕ
next_time c interval =
    (size_of_int (
        (c.ms_idx
          + c.s_idx * 1000
          + c.m_idx * 1000 * 60
          + c.h_idx * 1000 * 60 * 60
          + c.d_idx * 1000 * 60 * 60 * 24)
        % 2 ^ 32)
      + interval)
    % 2 ^ 64

-- Only the days can exceed `uint16_t`.
pub due_at : ℕ → Due
due_at t = record {
  ms = t % 1000;
  s = t / 1000 % 60;
  m = t / 1000 / 60 % 60;
  h = t / 1000 / 60 / 60 % 24;
  d = t / 1000 / 60 / 60 / 24 % 2 ^ 16;
}

-- Neither 0 nor where the wheel points.
abbrev pub ahead : ℕ → ℕ → Bool
ahead x idx = not (x == 0) && not (x == idx)

pub reinsert_head : Clock → Due → Head
reinsert_head c due =
    if ahead due.d c.d_idx
    then d_list
    else if ahead due.h c.h_idx
    then h_list due.h
    else if ahead due.m c.m_idx
    then m_list due.m
    else if ahead due.s c.s_idx
    then s_list due.s
    else ms_list due.ms

pub add_list : Due → Head
add_list due =
    if not (due.d == 0)
    then d_list
    else if not (due.h == 0)
    then h_list due.h
    else if not (due.m == 0)
    then m_list due.m
    else if not (due.s == 0)
    then s_list due.s
    else ms_list due.ms

abbrev pub write : (ℕ → Item) → ℕ → Item → ℕ → Item
write items i item j = if j == i then item else items j

-- What a tick does to a timer of the list that it goes through.
pub data Action : Type 0 where
  move : Head → Action
  fire skip : Action

pub ms_action : Due → Action
ms_action due = fire

pub s_action : Due → Action
s_action due = if not (due.ms == 0) then move (ms_list due.ms) else fire

pub m_action : Due → Action
unfolding s_action
m_action due = if not (due.s == 0) then move (s_list due.s) else s_action due

pub h_action : Due → Action
unfolding m_action
h_action due = if not (due.m == 0) then move (m_list due.m) else m_action due

pub d_action : ℕ → Due → Action
unfolding h_action
d_action d_idx due =
    if due.d == d_idx then if not (due.h == 0) then move (h_list due.h) else h_action due else skip

abbrev pub next_ms : Clock → Clock
next_ms c = record c { ms_idx = (c.ms_idx + 1) % 2 ^ 16 % 1000 }

abbrev pub next_s : Clock → Clock
next_s c = record c { s_idx = (c.s_idx + 1) % 2 ^ 16 % 60 }

abbrev pub next_m : Clock → Clock
next_m c = record c { m_idx = (c.m_idx + 1) % 2 ^ 16 % 60 }

abbrev pub next_h : Clock → Clock
next_h c = record c { h_idx = (c.h_idx + 1) % 2 ^ 16 % 24 }

abbrev pub next_d : Clock → Clock
next_d c = record c { d_idx = (c.d_idx + 1) % 2 ^ 16 }

-- The least interval that is refused: twenty years.
abbrev pub timer_interval_max : ℕ
timer_interval_max = 20 * 365 * 24 * 60 * 60 * 1000

module _ {S : Type 0} (ops : ListOps Head S) where
  pub node_reinsert : Timers S → ℕ → Timers S
  node_reinsert t i =
      let due = due_at (next_time t.clock (t.items i).interval) in
      record t {
        lists = ops.add_tail t.lists i (reinsert_head t.clock due);
        items = write t.items i (record (t.items i) { due = due });
      }

  -- A timer goes off: the task is added, whatever that returns, and the timer starts again unless
  -- this was its last time. `ttl` 0 is for ever.
  pub go_off : Timers S → ℕ → Timers S
  unfolding node_reinsert
  go_off t i =
      let item = t.items i in
      let called = record t {
        calls = t.calls ++ (item.cb, item.arg) ∷ [];
        lists = ops.del t.lists i;
      } in
      let counted = record called {
        items = write t.items i (record item { ttl = item.ttl - 1 });
      } in
      if item.ttl == 0
      then node_reinsert called i
      else if item.ttl == 1
      then counted
      else node_reinsert counted i

  pub perform : Action → Timers S → ℕ → Timers S
  unfolding go_off
  perform (move h) t i = record t { lists = ops.add_tail (ops.del t.lists i) i h }
  perform fire t i = go_off t i
  perform skip t i = t

  -- The loop of list_for_each_safe over the nodes of a list as it stands when the loop starts. A round
  -- unlinks at most its own node, and may link it again. A timer that the list of the days gets back is
  -- due on another day: the code, which can come to its node once more, then skips it.
  pub sweep : (Due → Action) → Timers S → List ℕ → Timers S
  unfolding perform
  sweep action t [] = t
  sweep action t (i ∷ is) = sweep action (perform (action (t.items i).due) t i) is

  pub stage : (Due → Action) → Head → Timers S → Timers S
  unfolding sweep
  stage action h t = sweep action t (ops.entries t.lists h)

  abbrev pub turn : (Clock → Clock) → Timers S → Timers S
  turn f t = record t { clock = f t.clock }

  -- The stages of a tick, each with the ones behind it.
  pub d_stage : Timers S → Timers S
  unfolding stage d_action
  d_stage t = let u = turn next_d t in stage (d_action u.clock.d_idx) d_list u

  pub h_stage : Timers S → Timers S
  unfolding d_stage h_action
  h_stage t =
      let u = turn next_h t in
      let v = stage h_action (h_list u.clock.h_idx) u in if v.clock.h_idx == 0 then d_stage v else v

  pub m_stage : Timers S → Timers S
  unfolding h_stage m_action
  m_stage t =
      let u = turn next_m t in
      let v = stage m_action (m_list u.clock.m_idx) u in if v.clock.m_idx == 0 then h_stage v else v

  pub s_stage : Timers S → Timers S
  unfolding m_stage s_action
  s_stage t =
      let u = turn next_s t in
      let v = stage s_action (s_list u.clock.s_idx) u in if v.clock.s_idx == 0 then m_stage v else v

  -- What `uc_timer_check_timeout` does while it holds the lock.
  pub tick : Timers S → Timers S
  unfolding s_stage ms_action
  tick t =
      let u = turn next_ms t in
      let v = stage ms_action (ms_list u.clock.ms_idx) u in
      if v.clock.ms_idx == 0 then s_stage v else v

  -- `malloc` is the address of the new item, or none. The result is the handle.
  pub add_do : Timers S → Option ℕ → ℕ → ℕ → ℕ → ℕ → Option ℕ × Timers S
  add_do t malloc millisecond ttl cb arg =
      if leb timer_interval_max millisecond || millisecond == 0
      then (none, t)
      else if cb == 0
      then (none, t)
      else elim malloc [
        | none ↦ (none, t)
        | some i ↦
            let due = due_at (next_time t.clock millisecond) in
            (
              some i,
              record t {
                lists = ops.add_tail t.lists i (add_list due);
                items =
                    write t.items i
                      (record { interval = millisecond; ttl = ttl; due = due; cb = cb; arg = arg });
              },
            )
      ]

  -- A handle is an address, or NULL. The result has the address that is freed.
  pub delete_do : Timers S → Option ℕ → Status × Option ℕ × Timers S
  delete_do t none = (failed 0x6816560a, none, t)
  delete_do t (some i) = (done, some i, record t { lists = ops.del t.lists i })

-- How long a round of `uc_timer_check_timeout` sleeps, by the clock at its start and behind the tick.
pub pause : ℕ → ℕ → Option ℕ
pause us_begin us_mid =
    let us_end = us_begin + 1 * 1000 in
    if leb us_end us_mid then none else if ltb us_mid us_begin then none else some (us_end - us_mid)

-- The `struct timeval` that `uc_time_msleep` and `uc_time_usleep` hand to `select`
pub msleep_timeval : ℕ → ℕ × ℕ
msleep_timeval milli_second = (milli_second / 1000, milli_second % 1000 * 1000)

pub usleep_timeval : ℕ → ℕ × ℕ
usleep_timeval micro_second = (micro_second / 1000000, micro_second % 1000000)

-- The time that `gettimeofday` has given
pub time_ms : ℕ × ℕ → ℕ
time_ms (sec, usec) = sec * 1000 + usec / 1000

pub time_us : ℕ × ℕ → ℕ
time_us (sec, usec) = sec * 1000 * 1000 + usec
