-- ===== src/Timer/Sweep.antt =====
-- The loop of a stage: every timer of a list has its turn.
use utils_c.Base.{
  map_on, map, append_assoc, append-nil, ℕ, ◌<◌, ◌≡◌, ◌≢◌, refl, sym, ap, subst, ◌∙◌, ◌⊎◌, inl, inr,
  arith, Option, List, [], ◌∷◌, ◌++◌, In, NoRepeat, map,
}
use utils_c.ListHead.{ListOps, ListLaws}
use utils_c.Timer.{sweep, Head, Clock, Due, Item, Timers, Action, move, fire, skip, perform, go_off}
use utils_c.Timer.Home.{time, due_time, IsClock, home, Right}
use utils_c.Timer.Wheel.{
  Relinks-Shows, Plan, advance_some, Stands, Pending, IsEarly, Shows, Visited,
}
use utils_c.Timer.Visit.{advance_later, by_plan, move-Visited, go_off-Visited, go_off-calls}

abbrev pub task : Item → ℕ × ℕ
task item = (item.cb, item.arg)

module _ {S : Type 0} (ops : ListOps Head S) (c : Clock) (h : Head) (action : Due → Action) where
  -- In the middle of the loop: these timers have still to have their turn.
  pub record Sweeping (todo : List ℕ) (t : Timers S) : Type 0 where
    pub same : t.clock ≡ c
    pub once : (g : Head) → NoRepeat (ops.entries t.lists g)
    pub todo_once : NoRepeat todo
    pub waiting :
        (j : ℕ) → In j todo → In j (ops.entries t.lists h) × Pending c h action (t.items j)
    pub stands :
        (g : Head) (j : ℕ)
        → In j (ops.entries t.lists g)
        → (In j todo × (g ≡ h)) ⊎ Stands c g (t.items j)

  -- What one round does.
  record Round (todo : List ℕ) (t t' : Timers S) (i : ℕ) : Type 0 where
    next : Sweeping todo t'
    others : (j : ℕ) → j ≢ i → t'.items j ≡ t.items j
    shows : (o : Option Plan) → Shows ops t i o → Shows ops t' i (advance_some (time c) o)
    shows_other : (j : ℕ) (o : Option Plan) → j ≢ i → Shows ops t j o → Shows ops t' j o
    call :
        ((due_time (t.items i).due ≡ time c) × (t'.calls ≡ t.calls ++ task (t.items i) ∷ []))
        ⊎ ((due_time (t.items i).due ≢ time c) × (t'.calls ≡ t.calls))

  -- What the whole loop does.
  pub record Swept (xs : List ℕ) (t t' : Timers S) : Type 0 where
    pub ends : Sweeping [] t'
    pub fired : List ℕ
    pub calls : t'.calls ≡ t.calls ++ map (λ i. task (t.items i)) fired
    pub fired_once : NoRepeat fired
    pub fired_due : (j : ℕ) → In j fired → In j xs × (due_time (t.items j).due ≡ time c)
    pub due_fired : (j : ℕ) → In j xs → due_time (t.items j).due ≡ time c → In j fired
    pub shows :
        (j : ℕ) (o : Option Plan)
        → In j xs
        → Shows ops t j o
        → Shows ops t' j (advance_some (time c) o)
    pub shows_other : (j : ℕ) (o : Option Plan) → (¬ In j xs) → Shows ops t j o → Shows ops t' j o

  Visited-Sweeping :
      (t t' : Timers S) (i : ℕ) (todo : List ℕ)
      → Sweeping (i ∷ todo) t
      → Visited ops c t t' i
      → Sweeping todo t'
  Visited-Sweeping t t' i todo w v = record {
    same = v.same_clock ∙ w.same;
    once = v.links.once w.once;
    todo_once = w.todo_once.1;
    waiting = λ j m.
        let ne : j ≢ i = λ e. w.todo_once.0 (subst (λ k. In k todo) e m) in
        let old = w.waiting j (inr m) in
        (v.links.keeps h j ne old.0, subst (Pending c h action) (sym (v.others j ne)) old.1);
    stands = λ g j m. elim (v.links.members g j m) [
      | inl a ↦ inr (subst (λ k. Stands c g (t'.items k)) (sym a.0) (v.stands g a.1))
      | inr b ↦ elim (w.stands g j b.1) [
        | inl d ↦ elim d.0 [ inl e ↦ absurd (b.0 e) | inr n ↦ inl (n, d.1) ]
        | inr d ↦ inr (subst (Stands c g) (sym (v.others j b.0)) d)
      ]
    ];
  }

  visited :
      (t t' : Timers S) (i : ℕ) (todo : List ℕ)
      → Sweeping (i ∷ todo) t
      → Visited ops c t t' i
      → ((due_time (t.items i).due ≡ time c) × (t'.calls ≡ t.calls ++ task (t.items i) ∷ []))
        ⊎ ((due_time (t.items i).due ≢ time c) × (t'.calls ≡ t.calls))
      → Round todo t t' i
  visited t t' i todo w v call = record {
    next = Visited-Sweeping t t' i todo w v;
    others = v.others;
    shows = v.shows;
    shows_other = λ j o ne. Relinks-Shows ops t t' i j v.dest v.links (v.others j ne) ne o;
    call = call;
  }

  -- A timer that is left where it is.
  skipped :
      (t : Timers S) (i : ℕ) (todo : List ℕ)
      → Sweeping (i ∷ todo) t
      → home c (t.items i).due ≡ h
      → time c < due_time (t.items i).due
      → Round todo t t i
  skipped t i todo w at later =
      let turn = w.waiting i (inl refl) in
      record {
        next = record {
          same = w.same;
          once = w.once;
          todo_once = w.todo_once.1;
          waiting = λ j m. w.waiting j (inr m);
          stands = λ g j m. elim (w.stands g j m) [
            | inl d ↦ elim d.0 [
              | inl e ↦ inr (
                  subst (λ k. Stands c k (t.items j)) (sym d.1)
                    (subst (λ k. Stands c h (t.items k)) (sym e)
                      (record {
                        due = turn.1.due;
                        later = later;
                        at = at;
                        positive = turn.1.positive;
                        bounded = turn.1.bounded;
                      })))
              | inr n ↦ inl (n, d.1)
            ]
            | inr d ↦ inr d
          ];
        };
        others = λ j ne. refl;
        shows =
            by_plan ops t t i (time c) (h, turn.0)
              (rw (advance_later (time c) (t.items i) later) ((h, turn.0), refl));
        shows_other = λ j o ne s. s;
        call = inr ((λ e. omega arith), refl);
      }

  module _ (laws : ListLaws ops) (valid : IsClock c) (early : IsEarly c) where
    -- One round, by the action on its timer.
    perform-Round :
        (t : Timers S) (i : ℕ) (todo : List ℕ) (a : Action)
        → Sweeping (i ∷ todo) t
        → action (t.items i).due ≡ a
        → Round todo t (perform ops a t i) i
    unfolding perform
    perform-Round t i todo (move g) w e =
        let turn = w.waiting i (inl refl) in
        let right = subst (Right c h (t.items i).due) e turn.1.right in
        let stands : Stands t.clock g (t.items i) =
          subst (λ k. Stands k g (t.items i)) (sym w.same)
            (record {
              due = turn.1.due;
              later = right.1;
              at = right.0;
              positive = turn.1.positive;
              bounded = turn.1.bounded;
            }) in
        let v = move-Visited ops laws t i h g turn.0 stands in
        let t' : Timers S = record t { lists = ops.add_tail (ops.del t.lists i) i g } in
        visited t t' i todo w (subst (λ k. Visited ops k t t' i) w.same v)
          (inr ((λ f. omega (arith, right.1)), refl))
    perform-Round t i todo fire w e =
        let turn = w.waiting i (inl refl) in
        let right = subst (Right c h (t.items i).due) e turn.1.right in
        let v =
          go_off-Visited ops laws t i h turn.0 (subst IsClock (sym w.same) valid)
            (subst IsEarly (sym w.same) early) (right ∙ ap time (sym w.same)) turn.1.positive
            turn.1.bounded in
        visited t (go_off ops t i) i todo w
          (subst (λ k. Visited ops k t (go_off ops t i) i) w.same v)
          (inl (right, go_off-calls ops laws t i))
    perform-Round t i todo skip w e =
        let turn = w.waiting i (inl refl) in
        let right = subst (Right c h (t.items i).due) e turn.1.right in
        skipped t i todo w right.0 right.1

    -- A round and the loop behind it.
    Round-Swept :
        (xs : List ℕ) (t u v : Timers S) (i : ℕ)
        → ¬ In i xs
        → Round xs t u i
        → Swept xs u v
        → Swept (i ∷ xs) t v
    Round-Swept xs t u v i new r s =
        let ne = λ (j : ℕ) (m : In j xs). λ (e : j ≡ i). new (subst (λ k. In k xs) e m) in
        let old = λ (j : ℕ) (m : In j xs). ap (λ x. due_time x.due) (r.others j (ne j m)) in
        let tasks : map (λ k. task (u.items k)) s.fired ≡ map (λ k. task (t.items k)) s.fired =
          map_on s.fired (λ k m. ap task (r.others k (ne k (s.fired_due k m).0))) in
        let shows : (j : ℕ) (o : Option Plan)
            → In j (i ∷ xs)
            → Shows ops t j o
            → Shows ops v j (advance_some (time c) o) =
          λ j o m before. elim m [
            | inl e ↦
                subst (λ k. Shows ops v k (advance_some (time c) o)) (sym e)
                  (s.shows_other i (advance_some (time c) o) new
                    (r.shows o (subst (λ k. Shows ops t k o) e before)))
            | inr n ↦ s.shows j o n (r.shows_other j o (ne j n) before)
          ] in
        let shows_other =
          λ (j : ℕ) (o : Option Plan) (m : ¬ In j (i ∷ xs)) (before : Shows ops t j o).
            s.shows_other j o (λ n. m (inr n)) (r.shows_other j o (λ e. m (inl e)) before) in
        elim r.call [
          | inl fires ↦ record {
            ends = s.ends;
            fired = i ∷ s.fired;
            calls =
                s.calls
                ∙ ap (λ l. l ++ map (λ k. task (u.items k)) s.fired) fires.1
                ∙ append_assoc t.calls (task (t.items i) ∷ []) (map (λ k. task (u.items k)) s.fired)
                ∙ ap (λ l. t.calls ++ task (t.items i) ∷ l) tasks;
            fired_once = ((λ m. new (s.fired_due i m).0), s.fired_once);
            fired_due = λ j m. elim m [
              | inl e ↦ (inl e, ap (λ k. due_time (t.items k).due) e ∙ fires.0)
              | inr n ↦ let q = s.fired_due j n in (inr q.0, sym (old j q.0) ∙ q.1)
            ];
            due_fired =
                λ j m d. elim m [ inl e ↦ inl e | inr n ↦ inr (s.due_fired j n (old j n ∙ d)) ];
            shows = shows;
            shows_other = shows_other;
          }
          | inr quiet ↦ record {
            ends = s.ends;
            fired = s.fired;
            calls =
                s.calls
                ∙ ap (λ l. l ++ map (λ k. task (u.items k)) s.fired) quiet.1
                ∙ ap (λ l. t.calls ++ l) tasks;
            fired_once = s.fired_once;
            fired_due = λ j m. let q = s.fired_due j m in (inr q.0, sym (old j q.0) ∙ q.1);
            due_fired = λ j m d. elim m [
              | inl e ↦ absurd (quiet.0 (ap (λ k. due_time (t.items k).due) (sym e) ∙ d))
              | inr n ↦ s.due_fired j n (old j n ∙ d)
            ];
            shows = shows;
            shows_other = shows_other;
          }
        ]

    pub sweep-Swept :
        (xs : List ℕ) (t : Timers S) → Sweeping xs t → Swept xs t (sweep ops action t xs)
    unfolding sweep
    sweep-Swept [] t w = record {
      ends = w;
      fired = [];
      calls = sym (append-nil t.calls);
      fired_once = tt;
      fired_due = λ j m. elim m [ ];
      due_fired = λ j m d. elim m [ ];
      shows = λ j o m. elim m [ ];
      shows_other = λ j o m s. s;
    }
    sweep-Swept (i ∷ xs) t w =
        let r = perform-Round t i xs (action (t.items i).due) w refl in
        Round-Swept xs t (perform ops (action (t.items i).due) t i)
          (sweep ops action (perform ops (action (t.items i).due) t i) xs) i w.todo_once.0 r
          (sweep-Swept xs (perform ops (action (t.items i).due) t i) r.next)
