-- ===== src/Ipc/Client/System.antt =====
-- ipc/uc_ipc_client.c: callers and the receiving thread over the pending answers, in any order.
use utils_c.Base.{
  ℕ, ◌^◌, ◌<◌, ◌≡◌, refl, sym, subst, ◌∙◌, ◌⊎◌, inl, inr, ◌==◌, ==_iff, Bool, Bool-cases, Option,
  none, some, some_injective, List, [], ◌∷◌, ok, ok_injective, Status,
}
use utils_c.Hash.Key.{Key}
use utils_c.Hash.Table.Insert.{IsBlock}
use utils_c.Ipc.Proto.{Packet}
use utils_c.Ipc.Numbered.{IsNumbered, entry, Sets}
use utils_c.Ipc.Client.{
  Acks, insert_seq, delete_seq, Waited, sleeps, lost, gives_up, takes, wait_enter, wait_wake, Woken,
  Received, keeps, reconnects, starved, rcv_msg,
}
use utils_c.Ipc.Client.Receive.{IsAnswer}
use utils_c.Ipc.Client.Wait.{delete_seq-Sets}
use utils_c.Ipc.Client.Outcome.{
  WaitOutcome, RcvOutcome, insert_seq-outcome, wait_enter-WaitOutcome, wait_wake-WaitOutcome,
  rcv_msg-RcvOutcome,
}

-- The pending answers, the packets that have come, and the answers that waits have returned, with the
-- number that each waited for; the latest first.
pub record System : Type 0 where
  pub acks : Acks
  pub arrived : List Packet
  pub answers : List (ℕ × Packet)

abbrev pub Among : {A : Type 0} → A → List A → Type 0
Among x [] = ⊥
Among x (y ∷ ys) = (x ≡ y) ⊎ Among x ys

-- The answers, after a section of a wait for `seq`.
abbrev pub with_answer : ℕ → Waited → List (ℕ × Packet) → List (ℕ × Packet)
with_answer seq (takes p) answers = (seq, p) ∷ answers
with_answer seq _ answers = answers

-- The acks that a round leaves.
abbrev pub left_acks : Acks → Received → Acks
left_acks acks (keeps acks') = acks'
left_acks acks (reconnects code acks') = acks'
left_acks acks starved = acks

-- A step holds the lock of the pending answers. The numbers are those of any callers.
pub data Step (a b : System) : Type 0 where
  notes :
      (seq : ℕ) (malloc : Option Key) (r : Status × Acks)
      → seq < 2 ^ 64
      → IsBlock 0 malloc
      → insert_seq a.acks seq malloc ≡ ok r
      → b ≡ record a { acks = r.1 }
      → Step a b
  drops :
      (seq : ℕ) (acks : Acks)
      → seq < 2 ^ 64
      → delete_seq a.acks seq ≡ ok acks
      → b ≡ record a { acks = acks }
      → Step a b
  receives :
      (p : Packet) (d : Received)
      → p.head.ack_id < 2 ^ 64
      → rcv_msg a.acks p ≡ ok d
      → b ≡ record a { acks = left_acks a.acks d; arrived = p ∷ a.arrived }
      → Step a b
  enters :
      (seq : ℕ) (r : Waited × Acks)
      → seq < 2 ^ 64
      → wait_enter a.acks seq ≡ ok r
      → b ≡ record a { acks = r.1; answers = with_answer seq r.0 a.answers }
      → Step a b
  wakes :
      (seq : ℕ) (timed : Bool) (woken : Woken) (r : Waited × Acks)
      → seq < 2 ^ 64
      → wait_wake timed woken a.acks seq ≡ ok r
      → b ≡ record a { acks = r.1; answers = with_answer seq r.0 a.answers }
      → Step a b

pub data Reach (a : System) : System → Type 0 where
  here : Reach a a
  next : {b c : System} → Reach a b → Step b c → Reach a c

-- A packet that has come and answers the number.
pub record Replies (arrived : List Packet) (seq : ℕ) (p : Packet) : Type 0 where
  pub names : p.head.ack_id ≡ seq
  pub answer : IsAnswer p
  pub came : Among p arrived

-- What is noted under a number answers it, and so does what a wait for it has returned.
pub record Correlates (a : System) : Type 0 where
  pub numbered : IsNumbered a.acks
  pub pending :
      (seq : ℕ) (p : Packet)
      → seq < 2 ^ 64
      → entry a.acks seq ≡ some (some p)
      → Replies a.arrived seq p
  pub returned : (seq : ℕ) (p : Packet) → Among (seq, p) a.answers → Replies a.arrived seq p

later :
    (q : Packet) (arrived : List Packet) (seq : ℕ) (p : Packet)
    → Replies arrived seq p
    → Replies (q ∷ arrived) seq p
later q arrived seq p r = record { names = r.names; answer = r.answer; came = inr r.came }

-- A number that is set to something else than an answer.
pending-Sets :
    (a : System) (seq : ℕ) (v : Option (Option Packet)) (acks : Acks)
    → Correlates a
    → ((p : Packet) → v ≡ some (some p) → ⊥)
    → Sets a.acks seq v acks
    → Correlates (record a { acks = acks })
pending-Sets a seq v acks c empty sets = record {
  numbered = sets.numbered;
  pending = λ m p k e. elim (Bool-cases (seq == m)) [
    | inl same ↦ absurd (empty p (sym (sets.entries m k ∙ rw same refl) ∙ e))
    | inr other ↦ c.pending m p k (sym (sets.entries m k ∙ rw other refl) ∙ e)
  ];
  returned = c.returned;
}

same-acks :
    (a : System) (acks : Acks)
    → Correlates a
    → acks ≡ a.acks
    → Correlates (record a { acks = acks })
same-acks a acks c e = subst (λ (k : Acks). Correlates (record a { acks = k })) (sym e) c

-- The same with an answer that was there and is returned.
taken-Correlates :
    (a : System) (seq : ℕ) (r : Waited × Acks)
    → Correlates a
    → seq < 2 ^ 64
    → WaitOutcome a.acks seq r
    → Correlates (record a { acks = r.1; answers = with_answer seq r.0 a.answers })
taken-Correlates a seq (sleeps, acks) c small (inl (e, _)) = same-acks a acks c e
taken-Correlates a seq (lost, acks) c small (inl (e, _)) = same-acks a acks c e
taken-Correlates a seq (gives_up code, acks) c small (inl (e, _)) = same-acks a acks c e
taken-Correlates a seq (takes q, acks) c small (inl (e, none_here)) = elim none_here [ ]
taken-Correlates a seq (w, acks) c small (inr (p, at, e, sets)) =
    let rest = pending-Sets a seq none acks c (λ q f. cc) sets in
    subst
      (λ (x : Waited). Correlates (record a { acks = acks; answers = with_answer seq x a.answers }))
      (sym e)
      (record {
        numbered = rest.numbered;
        pending = rest.pending;
        returned = λ m q among. elim among [
          | inl same ↦
              subst (λ (x : ℕ × Packet). Replies a.arrived x.0 x.1) (sym same)
                (c.pending seq p small at)
          | inr before ↦ c.returned m q before
        ];
      })

-- A packet that comes.
come : (a : System) (p : Packet) → Correlates a → Correlates (record a { arrived = p ∷ a.arrived })
come a p c = record {
  numbered = c.numbered;
  pending = λ m q k e. later p a.arrived m q (c.pending m q k e);
  returned = λ m q among. later p a.arrived m q (c.returned m q among);
}

receives-Correlates :
    (a : System) (p : Packet) (d : Received)
    → Correlates a
    → RcvOutcome a.acks p d
    → Correlates (record a { acks = left_acks a.acks d; arrived = p ∷ a.arrived })
receives-Correlates a p (keeps acks) c (inl e) =
    same-acks (record a { arrived = p ∷ a.arrived }) acks (come a p c) e
receives-Correlates a p (keeps acks) c (inr (answer, sets)) =
    let before = come a p c in
    record {
      numbered = sets.numbered;
      pending = λ m q k e. elim (Bool-cases (p.head.ack_id == m)) [
        | inl same ↦
            let f : some (some p) ≡ some (some q) = sym (sets.entries m k ∙ rw same refl) ∙ e in
            let g : p ≡ q = some_injective (some_injective f) in
            subst (λ x. Replies (p ∷ a.arrived) m x) g
              (record { names = (==_iff p.head.ack_id m).0 same; answer = answer; came = inl refl })
        | inr other ↦ before.pending m q k (sym (sets.entries m k ∙ rw other refl) ∙ e)
      ];
      returned = before.returned;
    }
receives-Correlates a p (reconnects code acks) c e =
    same-acks (record a { arrived = p ∷ a.arrived }) acks (come a p c) e
receives-Correlates a p starved c e = come a p c

notes-Correlates :
    (a : System) (seq : ℕ) (r : Status × Acks)
    → Correlates a
    → (r.1 ≡ a.acks) ⊎ Sets a.acks seq (some none) r.1
    → Correlates (record a { acks = r.1 })
notes-Correlates a seq r c (inl e) = same-acks a r.1 c e
notes-Correlates a seq r c (inr sets) = pending-Sets a seq (some none) r.1 c (λ q f. cc) sets

Step-Correlates : {a b : System} → Step a b → Correlates a → Correlates b
Step-Correlates {a} {b} (notes seq malloc r small block e f) c =
    subst Correlates (sym f)
      (notes-Correlates a seq r c (insert_seq-outcome a.acks c.numbered seq small malloc r block e))
Step-Correlates {a} {b} (drops seq acks small e f) c =
    let (acks', g, sets) = delete_seq-Sets a.acks c.numbered seq small in
    let same : acks' ≡ acks = ok_injective (sym g ∙ e) in
    subst Correlates (sym f)
      (pending-Sets a seq none acks c (λ q h. cc) (subst (λ k. Sets a.acks seq none k) same sets))
Step-Correlates {a} {b} (receives p d small e f) c =
    subst Correlates (sym f)
      (receives-Correlates a p d c (rcv_msg-RcvOutcome a.acks c.numbered p d small e))
Step-Correlates {a} {b} (enters seq r small e f) c =
    subst Correlates (sym f)
      (taken-Correlates a seq r c small (wait_enter-WaitOutcome a.acks c.numbered seq small r e))
Step-Correlates {a} {b} (wakes seq timed woken r small e f) c = subst Correlates (sym f) (
    taken-Correlates a seq r c small
      (wait_wake-WaitOutcome a.acks c.numbered seq small timed woken r e))

-- The beginning: a table without entries.
pub record IsInitial (a : System) : Type 0 where
  pub numbered : IsNumbered a.acks
  pub empty : (seq : ℕ) → seq < 2 ^ 64 → entry a.acks seq ≡ none
  pub no_answers : a.answers ≡ []

-- However callers that note, wait for and drop numbers and the thread that receives packets interleave,
-- whatever packets come, whoever is woken and why, and whether there is memory or not: a packet that is
-- noted under a number, and one that a wait for a number has returned, is an answer that has come and
-- that names this very number. The table of the pending answers stays valid.
pub Reach-Correlates : {a b : System} → IsInitial a → Reach a b → Correlates b
Reach-Correlates {a} init here = record {
  numbered = init.numbered;
  pending = λ seq p k e. cc (init.empty seq k);
  returned = λ seq p among. elim (subst (Among (seq, p)) init.no_answers among) [ ];
}
Reach-Correlates {a} init (next r s) = Step-Correlates s (Reach-Correlates init r)
