-- ===== src/Timer/Home.antt =====
-- The arithmetic of the wheel: a clock and a due time as numbers of milliseconds.
use utils_c.Base.{ℕ, ◌+◌, ◌*◌, ◌^◌, ◌<◌, ◌≡◌, ◌≢◌, arith, ◌==◌, if◌then◌else◌, not}
use utils_c.Timer.{
  m_action, h_action, d_action, next_m, next_h, next_d, Head, ms_list, s_list, m_list, h_list,
  d_list, Clock, Due, next_time, due_at, reinsert_head, Action, move, fire, skip, ms_action,
  s_action, next_ms, next_s,
}

abbrev pub time : Clock → ℕ
time c = c.ms_idx + 1000 * c.s_idx + 60000 * c.m_idx + 3600000 * c.h_idx + 86400000 * c.d_idx

abbrev pub due_time : Due → ℕ
due_time x = x.ms + 1000 * x.s + 60000 * x.m + 3600000 * x.h + 86400000 * x.d

pub record IsClock (c : Clock) : Type 0 where
  pub ms : c.ms_idx < 1000
  pub s : c.s_idx < 60
  pub m : c.m_idx < 60
  pub h : c.h_idx < 24
  pub d : c.d_idx < 2 ^ 16

pub record IsDue (x : Due) : Type 0 where
  pub ms : x.ms < 1000
  pub s : x.s < 60
  pub m : x.m < 60
  pub h : x.h < 24
  pub d : x.d < 2 ^ 16

-- The list where a timer belongs: the one of the coarsest field that is not the clock's.
unfoldable pub home : Clock → Due → Head
home c x =
    if not (x.d == c.d_idx)
    then d_list
    else if not (x.h == c.h_idx)
    then h_list x.h
    else if not (x.m == c.m_idx)
    then m_list x.m
    else if not (x.s == c.s_idx)
    then s_list x.s
    else ms_list x.ms

pub reinsert_head-home :
    (c : Clock) (x : Due) → IsClock c → IsDue x → time c < due_time x → reinsert_head c x ≡ home c x
unfolding reinsert_head home
reinsert_head-home c x v w h = ground arith

pub due_time-due_at : (t : ℕ) → t < 2 ^ 16 * 86400000 → due_time (due_at t) ≡ t
unfolding due_at
due_time-due_at t h = omega arith

pub due_at-IsDue : (t : ℕ) → IsDue (due_at t)
unfolding due_at
due_at-IsDue t = omega arith

pub next_time-add :
    (c : Clock) (interval : ℕ)
    → time c < 2 ^ 31
    → interval < 2 ^ 63
    → next_time c interval ≡ time c + interval
unfolding next_time
next_time-add c interval h k = ground arith

-- That an action is right for a timer that is due at `x`, in a stage of the tick to the clock `c`
-- that goes through the list `h`.
abbrev pub Right : Clock → Head → Due → Action → Type 0
Right c h x (move g) = (home c x ≡ g) × (time c < due_time x)
Right c h x fire = due_time x ≡ time c
Right c h x skip = (home c x ≡ h) × (time c < due_time x)

-- A timer that the tick from `c` to `c'` does not come by.
abbrev pub Rests : Clock → Clock → Due → Type 0
Rests c c' x = (home c' x ≡ home c x) × (time c' < due_time x)

module _ (c : Clock) (x : Due) (v : IsClock c) (w : IsDue x) (later : time c < due_time x) where
  pub ms_Right :
      c.ms_idx + 1 < 1000
      → home c x ≡ ms_list (c.ms_idx + 1)
      → Right (next_ms c) (ms_list (c.ms_idx + 1)) x (ms_action x)
  unfolding home ms_action
  ms_Right k e = ground arith

  pub ms_Rests : c.ms_idx + 1 < 1000 → home c x ≢ ms_list (c.ms_idx + 1) → Rests c (next_ms c) x
  unfolding home
  ms_Rests k e = ground arith

  pub s_Right :
      c.ms_idx ≡ 999
      → c.s_idx + 1 < 60
      → home c x ≡ s_list (c.s_idx + 1)
      → Right (next_s (next_ms c)) (s_list (c.s_idx + 1)) x (s_action x)
  unfolding home s_action
  s_Right z k e = ground arith

  pub s_Rests :
      c.ms_idx ≡ 999
      → c.s_idx + 1 < 60
      → home c x ≢ s_list (c.s_idx + 1)
      → Rests c (next_s (next_ms c)) x
  unfolding home
  s_Rests z k e = ground arith

  pub m_Right :
      c.ms_idx ≡ 999
      → c.s_idx ≡ 59
      → c.m_idx + 1 < 60
      → home c x ≡ m_list (c.m_idx + 1)
      → Right (next_m (next_s (next_ms c))) (m_list (c.m_idx + 1)) x (m_action x)
  unfolding home m_action
  m_Right z0 z1 k e = ground arith

  pub m_Rests :
      c.ms_idx ≡ 999
      → c.s_idx ≡ 59
      → c.m_idx + 1 < 60
      → home c x ≢ m_list (c.m_idx + 1)
      → Rests c (next_m (next_s (next_ms c))) x
  unfolding home
  m_Rests z0 z1 k e = ground arith

  pub h_Right :
      c.ms_idx ≡ 999
      → c.s_idx ≡ 59
      → c.m_idx ≡ 59
      → c.h_idx + 1 < 24
      → home c x ≡ h_list (c.h_idx + 1)
      → Right (next_h (next_m (next_s (next_ms c)))) (h_list (c.h_idx + 1)) x (h_action x)
  unfolding home h_action
  h_Right z0 z1 z2 k e = ground arith

  pub h_Rests :
      c.ms_idx ≡ 999
      → c.s_idx ≡ 59
      → c.m_idx ≡ 59
      → c.h_idx + 1 < 24
      → home c x ≢ h_list (c.h_idx + 1)
      → Rests c (next_h (next_m (next_s (next_ms c)))) x
  unfolding home
  h_Rests z0 z1 z2 k e = ground arith

  pub d_Right :
      c.ms_idx ≡ 999
      → c.s_idx ≡ 59
      → c.m_idx ≡ 59
      → c.h_idx ≡ 23
      → c.d_idx + 1 < 2 ^ 16
      → home c x ≡ d_list
      → Right (next_d (next_h (next_m (next_s (next_ms c))))) d_list x (d_action (next_d c).d_idx x)
  unfolding home d_action
  d_Right z0 z1 z2 z3 k e = ground arith

  pub d_Rests :
      c.ms_idx ≡ 999
      → c.s_idx ≡ 59
      → c.m_idx ≡ 59
      → c.h_idx ≡ 23
      → c.d_idx + 1 < 2 ^ 16
      → home c x ≢ d_list
      → Rests c (next_d (next_h (next_m (next_s (next_ms c))))) x
  unfolding home
  d_Rests z0 z1 z2 z3 k e = ground arith

  pub ms_list_empty : c.ms_idx ≡ 999 → home c x ≢ ms_list 0
  unfolding home
  ms_list_empty z0 e = ground arith

  pub s_list_empty : c.ms_idx ≡ 999 → c.s_idx ≡ 59 → home c x ≢ s_list 0
  unfolding home
  s_list_empty z0 z1 e = ground arith

  pub m_list_empty : c.ms_idx ≡ 999 → c.s_idx ≡ 59 → c.m_idx ≡ 59 → home c x ≢ m_list 0
  unfolding home
  m_list_empty z0 z1 z2 e = ground arith

  pub h_list_empty :
      c.ms_idx ≡ 999 → c.s_idx ≡ 59 → c.m_idx ≡ 59 → c.h_idx ≡ 23 → home c x ≢ h_list 0
  unfolding home
  h_list_empty z0 z1 z2 z3 e = ground arith
