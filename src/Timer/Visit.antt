-- ===== src/Timer/Visit.antt =====
-- The three things that a round of a tick's loop does.
use utils_c.Base.{
  ℕ, ◌+◌, ◌-◌, ◌<◌, ◌≡◌, ◌≢◌, refl, sym, ap, subst, ◌∙◌, inl, inr, arith, ◌==◌, ==_iff, ==_self,
  true, false, Bool-cases, Option, none, some, some_injective, List, [], ◌∷◌, ◌++◌, In,
}
use utils_c.ListHead.{ListOps, ListLaws}
use utils_c.ListHead.Relink.{del-Relinks, move-Relinks}
use utils_c.Timer.{
  Head, Due, Item, Timers, write, node_reinsert, go_off, due_at, next_time, reinsert_head,
  timer_interval_max,
}
use utils_c.Timer.Home.{time, due_time, IsClock}
use utils_c.Timer.Wheel.{
  apart, Plan, plan, advance, advance_some, Stands, IsEarly, restarted, restarted-Stands, Linked,
  Shows, Visited,
}

pub advance_later :
    (now : ℕ) (item : Item) → now < due_time item.due → advance now (plan item) ≡ some (plan item)
advance_later now item h = ground arith

advance_last :
    (now : ℕ) (item : Item)
    → due_time item.due ≡ now
    → (item.ttl == 0) ≡ false
    → (item.ttl == 1) ≡ true
    → advance now (plan item) ≡ none
advance_last now item h z e = rw (h, ==_self now, z, e)

advance_forever :
    (now : ℕ) (item : Item)
    → due_time item.due ≡ now
    → (item.ttl == 0) ≡ true
    → advance now (plan item) ≡ some (record (plan item) { deadline = now + item.interval })
advance_forever now item h z = rw (h, ==_self now, z)

advance_again :
    (now : ℕ) (item : Item)
    → due_time item.due ≡ now
    → (item.ttl == 0) ≡ false
    → (item.ttl == 1) ≡ false
    → advance now (plan item)
      ≡ some (record (plan item) { deadline = now + item.interval; ttl = item.ttl - 1 })
advance_again now item h z e = rw (h, ==_self now, z, e)

pub write_other :
    (items : ℕ → Item) (i j : ℕ) (item : Item) → j ≢ i → write items i item j ≡ items j
write_other items i j item ne = elim (Bool-cases (j == i)) [
  | inl e ↦ absurd (ne ((==_iff j i).0 e))
  | inr e ↦ rw e
]

pub write_same : (items : ℕ → Item) (i : ℕ) (item : Item) → write items i item i ≡ item
write_same items i item = rw (==_self i)

module _ {S : Type 0} (ops : ListOps Head S) where
  -- What a timer shows behind a round, from its plan.
  pub by_plan :
      (t t' : Timers S) (i : ℕ) (now : ℕ)
      → Linked ops t i
      → Shows ops t' i (advance now (plan (t.items i)))
      → (o : Option Plan) → Shows ops t i o
      → Shows ops t' i (advance_some now o)
  by_plan t t' i now linked s none unlinked = absurd (unlinked linked)
  by_plan t t' i now linked s (some p) shown = subst (λ q. Shows ops t' i (advance now q)) shown.1 s

module _ {S : Type 0} (ops : ListOps Head S) (laws : ListLaws ops) where
  pub move-Visited :
      (t : Timers S) (i : ℕ) (h g : Head)
      → In i (ops.entries t.lists h)
      → Stands t.clock g (t.items i)
      → Visited ops t.clock t (record t { lists = ops.add_tail (ops.del t.lists i) i g }) i
  move-Visited t i h g m stands =
      let links = move-Relinks ops laws apart t.lists i h g m in
      let t' : Timers S = record t { lists = ops.add_tail (ops.del t.lists i) i g } in
      record {
        dest = some g;
        links = links;
        same_clock = refl;
        others = λ j ne. refl;
        stands = λ k e. subst (λ l. Stands t.clock l (t.items i)) (some_injective e) stands;
        shows =
            by_plan ops t t' i (time t.clock) (h, m)
              (rw (advance_later (time t.clock) (t.items i) stands.later)
                ((g, links.placed g refl), refl));
      }

  -- The timer ends.
  end-Visited :
      (t : Timers S) (i : ℕ) (h : Head) (calls : List (ℕ × ℕ)) (item : Item)
      → In i (ops.entries t.lists h)
      → advance (time t.clock) (plan (t.items i)) ≡ none
      → Visited ops t.clock t
          (record t { calls = calls; lists = ops.del t.lists i; items = write t.items i item })
          i
  end-Visited t i h calls item m ends =
      let links = del-Relinks ops laws t.lists i h m in
      let t' : Timers S = record t {
        calls = calls;
        lists = ops.del t.lists i;
        items = write t.items i item;
      } in
      record {
        dest = none;
        links = links;
        same_clock = refl;
        others = λ j ne. write_other t.items i j item ne;
        stands = λ k e. cc;
        shows =
            by_plan ops t t' i (time t.clock) (h, m)
              (rw ends (λ l. elim (links.members l.0 i l.1) [ inl a ↦ cc | inr b ↦ b.0 refl ]));
      }

  -- The timer, with a new count, starts again.
  restart-Visited :
      (t : Timers S) (i : ℕ) (h : Head) (calls : List (ℕ × ℕ)) (items : ℕ → Item) (ttl : ℕ)
      → In i (ops.entries t.lists h)
      → IsClock t.clock
      → IsEarly t.clock
      → 0 < (t.items i).interval
      → (t.items i).interval < timer_interval_max
      → items i ≡ record (t.items i) { ttl = ttl }
      → ((j : ℕ) → j ≢ i → items j ≡ t.items j)
      → advance (time t.clock) (plan (t.items i))
        ≡ some (record (plan (t.items i)) {
          deadline = time t.clock + (t.items i).interval;
          ttl = ttl;
        })
      → Visited ops t.clock t
          (node_reinsert ops
            (record t { calls = calls; lists = ops.del t.lists i; items = items })
            i)
          i
  unfolding node_reinsert
  restart-Visited t i h calls items ttl m v early pos bound same others again =
      let item : Item = record (t.items i) { ttl = ttl } in
      let due : Due = (restarted t.clock item).due in
      let g = reinsert_head t.clock due in
      let links = move-Relinks ops laws apart t.lists i h g m in
      let fresh = restarted-Stands t.clock item v early pos bound in
      let u : Timers S = record t { calls = calls; lists = ops.del t.lists i; items = items } in
      let goal = λ (x : Item).
        Visited ops t.clock t
          (record u {
            lists =
                ops.add_tail u.lists i
                  (reinsert_head t.clock (due_at (next_time t.clock x.interval)));
            items = write items i (record x { due = due_at (next_time t.clock x.interval) });
          })
          i in
      let t' : Timers S = record u {
        lists = ops.add_tail u.lists i g;
        items = write items i (restarted t.clock item);
      } in
      let here : t'.items i ≡ restarted t.clock item =
        write_same items i (restarted t.clock item) in
      subst goal (sym same) (record {
        dest = some g;
        links = links;
        same_clock = refl;
        others = λ j ne. write_other items i j (restarted t.clock item) ne ∙ others j ne;
        stands = λ k e.
            subst (λ l. Stands t.clock l (t'.items i)) (some_injective e)
              (subst (Stands t.clock g) (sym here) fresh.1);
        shows =
            by_plan ops t t' i (time t.clock) (h, m)
              (subst (Shows ops t' i) (sym again) (
                (g, links.placed g refl),
                ap plan here ∙ ap (λ d. record (plan item) { deadline = d }) fresh.0,
              ));
      })

  pub go_off-Visited :
      (t : Timers S) (i : ℕ) (h : Head)
      → In i (ops.entries t.lists h)
      → IsClock t.clock
      → IsEarly t.clock
      → due_time (t.items i).due ≡ time t.clock
      → 0 < (t.items i).interval
      → (t.items i).interval < timer_interval_max
      → Visited ops t.clock t (go_off ops t i) i
  unfolding go_off
  go_off-Visited t i h m v early now pos bound =
      let item = t.items i in
      let calls = t.calls ++ (item.cb, item.arg) ∷ [] in
      elim (Bool-cases (item.ttl == 0)) [
        | inl z ↦ rw z (
            restart-Visited t i h calls t.items item.ttl m v early pos bound refl (λ j ne. refl)
              (advance_forever (time t.clock) item now z))
        | inr nz ↦ elim (Bool-cases (item.ttl == 1)) [
          | inl last ↦
              rw (nz, last)
                (end-Visited t i h calls (record item { ttl = item.ttl - 1 }) m
                  (advance_last (time t.clock) item now nz last))
          | inr more ↦
              rw (nz, more)
                (restart-Visited t i h calls (write t.items i (record item { ttl = item.ttl - 1 }))
                  (item.ttl - 1) m v early pos bound
                  (write_same t.items i (record item { ttl = item.ttl - 1 }))
                  (λ j ne. write_other t.items i j (record item { ttl = item.ttl - 1 }) ne)
                  (advance_again (time t.clock) item now nz more))
        ]
      ]

  pub go_off-calls :
      (t : Timers S) (i : ℕ)
      → (go_off ops t i).calls ≡ t.calls ++ ((t.items i).cb, (t.items i).arg) ∷ []
  unfolding go_off node_reinsert
  go_off-calls t i = elim (Bool-cases ((t.items i).ttl == 0)) [
    | inl z ↦ rw z
    | inr nz ↦ elim (Bool-cases ((t.items i).ttl == 1)) [ inl e ↦ rw (nz, e) | inr e ↦ rw (nz, e) ]
  ]
