-- ===== src/Timer/Add.antt =====
-- A new timer, and a timer that is deleted.
use utils_c.Base.{
  ℕ, ◌+◌, ◌<◌, ◌≤◌, ◌≡◌, ◌≢◌, refl, sym, ap, subst, ◌∙◌, inl, inr, arith, ◌==◌, leb, ◌||◌, false,
  Option, none, some, some_injective, In, done,
}
use utils_c.ListHead.{ListOps, ListLaws, IsFree}
use utils_c.ListHead.Relink.{del-Relinks, add_tail-Relinks}
use utils_c.Timer.{
  Head, d_list, Clock, Due, Item, Timers, add_do, delete_do, add_list, due_at, next_time,
  timer_interval_max, write,
}
use utils_c.Timer.Home.{
  time, due_time, IsClock, IsDue, home, due_time-due_at, due_at-IsDue, next_time-add,
}
use utils_c.Timer.Wheel.{apart, Plan, plan, Stands, IsEarly, Linked, Shows, IsPlaced, Relinks-Shows}
use utils_c.Timer.Visit.{write_same, write_other}

-- The coarsest field of the due time that is not 0 is not the clock's.
pub record Clear (c : Clock) (x : Due) : Type 0 where
  pub d : x.d ≢ 0 → x.d ≢ c.d_idx
  pub h : x.d ≡ 0 → x.h ≢ 0 → x.h ≢ c.h_idx
  pub m : x.d ≡ 0 → x.h ≡ 0 → x.m ≢ 0 → x.m ≢ c.m_idx
  pub s : x.d ≡ 0 → x.h ≡ 0 → x.m ≡ 0 → x.s ≢ 0 → x.s ≢ c.s_idx

add_list-home :
    (c : Clock) (x : Due)
    → IsClock c
    → IsDue x
    → time c < due_time x
    → (x.d ≢ 0 → x.d ≢ c.d_idx)
    → (x.d ≡ 0 → x.h ≢ 0 → x.h ≢ c.h_idx)
    → (x.d ≡ 0 → x.h ≡ 0 → x.m ≢ 0 → x.m ≢ c.m_idx)
    → (x.d ≡ 0 → x.h ≡ 0 → x.m ≡ 0 → x.s ≢ 0 → x.s ≢ c.s_idx)
    → add_list x ≡ home c x
unfolding add_list home
add_list-home c x v w later d h m s = ground arith

-- What `uc_timer_add` writes for a new timer.
abbrev pub new_item : Clock → ℕ → ℕ → ℕ → ℕ → Item
new_item c millisecond ttl cb arg = record {
  interval = millisecond;
  ttl = ttl;
  due = due_at (next_time c millisecond);
  cb = cb;
  arg = arg;
}

module _ {S : Type 0} (ops : ListOps Head S) where
  abbrev pub with_timer : Timers S → ℕ → Item → Timers S
  with_timer t i item = record t {
    lists = ops.add_tail t.lists i (add_list item.due);
    items = write t.items i item;
  }

  add_do-some :
      (t : Timers S) (i millisecond ttl cb arg : ℕ)
      → 0 < millisecond
      → millisecond < timer_interval_max
      → cb ≢ 0
      → add_do ops t (some i) millisecond ttl cb arg
        ≡ (some i, with_timer t i (new_item t.clock millisecond ttl cb arg))
  unfolding add_do
  add_do-some t i millisecond ttl cb arg pos bound c =
      let ok_interval : (leb timer_interval_max millisecond || (millisecond == 0)) ≡ false =
        ground arith in
      let ok_cb : (cb == 0) ≡ false = ground arith in rw (ok_interval, ok_cb)

  -- What a change of one timer leaves.
  pub record Changes (t t' : Timers S) (i : ℕ) (o : Option Plan) : Type 0 where
    pub placed : IsPlaced ops t'
    pub shows : Shows ops t' i o
    pub shows_other : (j : ℕ) (p : Option Plan) → j ≢ i → Shows ops t j p → Shows ops t' j p
    pub calls : t'.calls ≡ t.calls

  module _ (laws : ListLaws ops) (t : Timers S) (placed : IsPlaced ops t) where
    -- When the coarsest field of the time when the timer is due that is not 0 is not where the wheel
    -- points, `uc_timer_add` of an interval in range returns the new item's address, the timer is on the
    -- wheel where it belongs, with its deadline, and the other timers are as they were. The time is
    -- below 2 ^ 31.
    pub add_do-Changes :
        (i millisecond ttl cb arg : ℕ)
        → IsFree ops t.lists i
        → IsEarly t.clock
        → 0 < millisecond
        → millisecond < timer_interval_max
        → cb ≢ 0
        → Clear t.clock (due_at (next_time t.clock millisecond))
        → ((add_do ops t (some i) millisecond ttl cb arg).0 ≡ some i)
          × Changes t (add_do ops t (some i) millisecond ttl cb arg).1 i (
              some (record {
                deadline = time t.clock + millisecond;
                interval = millisecond;
                ttl = ttl;
                cb = cb;
                arg = arg;
              }))
    add_do-Changes i millisecond ttl cb arg free early pos bound c clear =
        let item = new_item t.clock millisecond ttl cb arg in
        let g = add_list item.due in
        let links = add_tail-Relinks ops laws apart t.lists i g free in
        let sum = next_time-add t.clock millisecond early (omega arith) in
        let whole : due_time item.due ≡ time t.clock + millisecond =
          due_time-due_at (next_time t.clock millisecond) (omega arith) ∙ sum in
        let digits = due_at-IsDue (next_time t.clock millisecond) in
        let later : time t.clock < due_time item.due = omega arith in
        let at =
          add_list-home t.clock item.due placed.clock digits later clear.d clear.h clear.m
            clear.s in
        let t' : Timers S = with_timer t i item in
        let here : t'.items i ≡ item = write_same t.items i item in
        let stands : Stands t.clock g item = record {
          due = digits;
          later = later;
          at = sym at;
          positive = pos;
          bounded = bound;
        } in
        let changes : Changes t t' i
            (some (record (plan item) { deadline = time t.clock + millisecond })) =
          record {
            placed = record {
              clock = placed.clock;
              stands = λ h j m. elim (links.members h j m) [
                | inl a ↦
                    subst (λ k. Stands t.clock k (t'.items j)) (some_injective a.1)
                      (subst (λ k. Stands t.clock g (t'.items k)) (sym a.0)
                        (subst (Stands t.clock g) (sym here) stands))
                | inr b ↦
                    subst (Stands t.clock h) (sym (write_other t.items i j item b.0))
                      (placed.stands h j b.1)
              ];
              once = links.once placed.once;
            };
            shows = (
              (g, links.placed g refl),
              ap plan here ∙ ap (λ d. record (plan item) { deadline = d }) whole,
            );
            shows_other = λ j p ne.
                Relinks-Shows ops t t' i j (some g) links (write_other t.items i j item ne) ne p;
            calls = refl;
          } in
        rw (add_do-some t i millisecond ttl cb arg pos bound c) ((refl, changes))

    -- Deleting a timer that is on the wheel takes it off and frees it, and leaves the others.
    pub delete_do-Changes :
        (i : ℕ)
        → Linked ops t i
        → ((delete_do ops t (some i)).0 ≡ done)
          × ((delete_do ops t (some i)).1 ≡ some i)
          × Changes t (delete_do ops t (some i)).2 i none
    unfolding delete_do
    delete_do-Changes i linked =
        let links = del-Relinks ops laws t.lists i linked.0 linked.1 in
        let t' : Timers S = record t { lists = ops.del t.lists i } in
        (
          refl,
          refl,
          record {
            placed = record {
              clock = placed.clock;
              stands = λ h j m. elim (links.members h j m) [
                | inl a ↦ cc
                | inr b ↦ placed.stands h j b.1
              ];
              once = links.once placed.once;
            };
            shows = λ l. elim (links.members l.0 i l.1) [ inl a ↦ cc | inr b ↦ b.0 refl ];
            shows_other = λ j p ne. Relinks-Shows ops t t' i j none links refl ne p;
            calls = refl;
          },
        )

    -- From the second day on, `uc_timer_add` puts a timer that is due on the same day into the list
    -- of the days, where the wheel comes by when the day is over: the timer does not stand where it
    -- belongs.
    pub add_do-same_day :
        (i millisecond ttl cb arg : ℕ)
        → IsFree ops t.lists i
        → IsEarly t.clock
        → 0 < millisecond
        → millisecond < timer_interval_max
        → cb ≢ 0
        → 1 ≤ t.clock.d_idx
        → (due_at (next_time t.clock millisecond)).d ≡ t.clock.d_idx
        → In i (ops.entries (add_do ops t (some i) millisecond ttl cb arg).1.lists d_list)
          × (¬ IsPlaced ops (add_do ops t (some i) millisecond ttl cb arg).1)
    unfolding add_list home
    add_do-same_day i millisecond ttl cb arg free early pos bound c day same =
        let item = new_item t.clock millisecond ttl cb arg in
        let links = add_tail-Relinks ops laws apart t.lists i (add_list item.due) free in
        let days : add_list item.due ≡ d_list = ground arith in
        let m = links.placed d_list (ap some days) in
        let t' : Timers S = with_timer t i item in
        let not_home : home t.clock item.due ≢ d_list = ground arith in
        let misplaced : ¬ IsPlaced ops t' = λ p. not_home (
          subst (λ x. home t.clock x.due ≡ d_list) (write_same t.items i item)
            (p.stands d_list i m).at) in
        rw (add_do-some t i millisecond ttl cb arg pos bound c) ((m, misplaced))
