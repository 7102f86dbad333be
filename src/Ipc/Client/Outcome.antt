-- ===== src/Ipc/Client/Outcome.antt =====
-- ipc/uc_ipc_client.c: all that a section on the pending answers can do to them.
use utils_c.Base.{
  ℕ, ◌^◌, ◌<◌, ◌≡◌, refl, sym, subst, ◌∙◌, ◌⊎◌, inl, inr, arith, ◌==◌, ltb, Bool, Bool-cases, true,
  false, ◌||◌, Option, Option-cases, none, some, ok, ok_injective, Status,
}
use utils_c.Hash.Key.{Key}
use utils_c.Hash.Table.{Node, find}
use utils_c.Hash.Table.Find.{value}
use utils_c.Hash.Table.Insert.{IsBlock}
use utils_c.Ipc.Proto
use utils_c.Ipc.Proto.{Packet, u64_key, seq_id_min}
use utils_c.Ipc.Numbered.{IsNumbered, entry, Sets, find-entry, insert_any}
use utils_c.Ipc.Client.{
  Acks, insert_seq, Waited, sleeps, gives_up, takes, wait_seen, wait_look, wait_enter, wait_wake,
  Woken, signalled, timed_out, failing, Received, keeps, reconnects, starved, rcv_msg,
}
use utils_c.Ipc.Client.Receive.{IsAnswer, rcv_msg-awaited, rcv_msg-late}
use utils_c.Ipc.Client.Wait.{wait_finish-Sets, looks_at, enters_at}

abbrev pub NoAnswer : Waited → Type 0
NoAnswer (takes p) = ⊥
NoAnswer w = Unit

-- A section of a wait changes nothing and returns no answer; or it returns the answer that is there, and
-- takes it and its number out.
abbrev pub WaitOutcome : Acks → ℕ → Waited × Acks → Type 0
WaitOutcome acks seq (w, acks') =
    ((acks' ≡ acks) × NoAnswer w)
    ⊎ ((p : Packet) × (entry acks seq ≡ some (some p)) × (w ≡ takes p) × Sets acks seq none acks')

-- A packet changes nothing; or it is an answer, and is noted under the number that it answers.
abbrev pub RcvOutcome : Acks → Packet → Received → Type 0
RcvOutcome acks p (keeps acks') =
    (acks' ≡ acks) ⊎ (IsAnswer p × Sets acks p.head.ack_id (some (some p)) acks')
RcvOutcome acks p (reconnects code acks') = acks' ≡ acks
RcvOutcome acks p starved = Unit

module _ (acks : Acks) (w : IsNumbered acks) where
  quiet :
      (seq : ℕ) (v : Waited)
      → NoAnswer v
      → (r : Waited × Acks) → ok (v, acks) ≡ ok r
      → WaitOutcome acks seq r
  quiet seq v none_here r e = subst (WaitOutcome acks seq) (ok_injective e) (inl (refl, none_here))

  module _ (seq : ℕ) (small : seq < 2 ^ 64) where
    seen-WaitOutcome :
        (zero_ret : Bool) (slot : Option Packet)
        → entry acks seq ≡ some slot
        → (r : Waited × Acks) → wait_seen zero_ret acks seq slot ≡ ok r
        → WaitOutcome acks seq r
    unfolding wait_seen
    seen-WaitOutcome zero_ret none at r e = quiet seq sleeps tt r e
    seen-WaitOutcome false (some p) at r e = quiet seq (gives_up 0x4f885afb) tt r e
    seen-WaitOutcome true (some p) at r e =
        let (acks', f, sets) = wait_finish-Sets acks w seq small (some p) at in
        subst (WaitOutcome acks seq) (ok_injective (sym f ∙ e)) (inr (p, at, refl, sets))

    look-WaitOutcome :
        (zero_ret : Bool) (r : Waited × Acks)
        → wait_look zero_ret acks seq ≡ ok r
        → WaitOutcome acks seq r
    unfolding wait_look
    look-WaitOutcome zero_ret r e = elim (Option-cases (entry acks seq)) [
      | inl missing ↦
          let (node, found, val) = find-entry acks w seq in by_node node found (val ∙ missing)
      | inr (slot, at) ↦
          seen-WaitOutcome zero_ret slot at r (sym (looks_at acks w seq small zero_ret slot at) ∙ e)
    ]
      where
        by_node :
            (node : Option (Node (Option Packet)))
            → find acks (u64_key seq) ≡ ok node
            → value node ≡ none
            → WaitOutcome acks seq r
        by_node none found val = let f = rw (wait_look, found) at e in cc
        by_node (some n) found val = cc

    pub wait_enter-WaitOutcome :
        (r : Waited × Acks) → wait_enter acks seq ≡ ok r → WaitOutcome acks seq r
    unfolding wait_enter
    wait_enter-WaitOutcome r e = elim (Option-cases (entry acks seq)) [
      | inl missing ↦
          let (node, found, val) = find-entry acks w seq in by_node node found (val ∙ missing)
      | inr (slot, at) ↦
          seen-WaitOutcome true slot at r (sym (enters_at acks w seq small slot at) ∙ e)
    ]
      where
        by_node :
            (node : Option (Node (Option Packet)))
            → find acks (u64_key seq) ≡ ok node
            → value node ≡ none
            → WaitOutcome acks seq r
        by_node none found val =
            let f = rw (wait_enter, found) at e in quiet seq (gives_up 0x790396ad) tt r f
        by_node (some n) found val = cc

    pub wait_wake-WaitOutcome :
        (timed : Bool) (woken : Woken) (r : Waited × Acks)
        → wait_wake timed woken acks seq ≡ ok r
        → WaitOutcome acks seq r
    unfolding wait_wake
    wait_wake-WaitOutcome true signalled r e = look-WaitOutcome true r e
    wait_wake-WaitOutcome false signalled r e = look-WaitOutcome true r e
    wait_wake-WaitOutcome true timed_out r e = quiet seq (gives_up 0x4f885afb) tt r e
    wait_wake-WaitOutcome false timed_out r e = look-WaitOutcome false r e
    wait_wake-WaitOutcome true failing r e = look-WaitOutcome false r e
    wait_wake-WaitOutcome false failing r e = look-WaitOutcome false r e

    pub insert_seq-outcome :
        (malloc : Option Key) (r : Status × Acks)
        → IsBlock 0 malloc
        → insert_seq acks seq malloc ≡ ok r
        → (r.1 ≡ acks) ⊎ Sets acks seq (some none) r.1
    insert_seq-outcome malloc r block e =
        let ((status, freed, acks'), f, cases) = insert_any acks w seq none malloc small block in
        let g : insert_seq acks seq malloc ≡ ok (status, acks') = unfold insert_seq in rw f refl in
        subst (λ (x : Status × Acks). (x.1 ≡ acks) ⊎ Sets acks seq (some none) x.1)
          (ok_injective (sym g ∙ e)) cases

  answer_outcome :
      (p : Packet) (d : Received) → IsAnswer p → rcv_msg acks p ≡ ok d → RcvOutcome acks p d
  answer_outcome p d answer e = elim (Option-cases (entry acks p.head.ack_id)) [
    | inl missing ↦
        subst (RcvOutcome acks p) (ok_injective (sym (rcv_msg-late acks w p answer missing) ∙ e))
          (inl refl)
    | inr (old, at) ↦
        let (acks', f, sets) = rcv_msg-awaited acks w p answer old at in
        subst (RcvOutcome acks p) (ok_injective (sym f ∙ e)) (inr (answer, sets))
  ]

  pub rcv_msg-RcvOutcome :
      (p : Packet) (d : Received)
      → p.head.ack_id < 2 ^ 64
      → rcv_msg acks p ≡ ok d
      → RcvOutcome acks p d
  unfolding rcv_msg
  rcv_msg-RcvOutcome p d small e = elim (Bool-cases (p.head.msg_type == Proto.heartbeat)) [
    | inl beat ↦ elim (Bool-cases (ltb p.head.ack_id seq_id_min)) [
      | inl low ↦ let f = simp (beat, low) at e in subst (RcvOutcome acks p) (ok_injective f) refl
      | inr fine ↦
          let f = simp (beat, fine) at e in subst (RcvOutcome acks p) (ok_injective f) (inl refl)
    ]
    | inr no_beat ↦
        elim (Bool-cases
          (p.head.msg_type == Proto.async_ack || p.head.msg_type == Proto.sync_ack)) [
            | inl ack ↦ elim (Bool-cases (ltb p.head.ack_id seq_id_min)) [
              | inl low ↦
                  let f = simp (no_beat, ack, low) at e in
                  subst (RcvOutcome acks p) (ok_injective f) refl
              | inr fine ↦
                  answer_outcome p d
                    (record { kind = ground arith; numbered = ground arith; fits = small }) e
            ]
            | inr no_ack ↦
                let f = simp (no_beat, no_ack) at e in
                subst (RcvOutcome acks p) (ok_injective f) (inl refl)
          ]
  ]
