-- ===== src/Ipc/Client/Wait.antt =====
-- ipc/uc_ipc_client.c: a message that is noted, answered and waited for.
use utils_c.Base.{
  ℕ, ◌^◌, ◌<◌, ◌≡◌, refl, ap, ◌∙◌, inl, inr, ◌==◌, Bool, Bool-cases, true, Option, none, some, ok,
  done, some_injective,
}
use utils_c.Hash.Key.{Key}
use utils_c.Hash.Key.Compare.{IsKey}
use utils_c.Hash.Table.{Node, find}
use utils_c.Hash.Table.Find.{value}
use utils_c.Ipc.Proto.{Packet, u64_key}
use utils_c.Ipc.Numbered.{
  IsNumbered, entry, Sets, find-entry, update-Sets, insert-Sets, delete-Sets,
}
use utils_c.Ipc.Client.{
  Acks, insert_seq, delete_seq, sleeps, wait_finish, wait_seen, wait_look, wait_enter, wait_wake,
  signalled, taken,
}

module _ (acks : Acks) (w : IsNumbered acks) (seq : ℕ) (small : seq < 2 ^ 64) where
  pub insert_seq-Sets :
      (fresh : Key)
      → IsKey 0 fresh
      → (acks' : Acks) × (insert_seq acks seq (some fresh) ≡ ok (done, acks'))
        × Sets acks seq (some none) acks'
  unfolding insert_seq
  insert_seq-Sets fresh block =
      let (freed, acks', e, sets) = insert-Sets acks w seq none fresh small block in
      (acks', rw e refl, sets)

  pub delete_seq-Sets : (acks' : Acks) × (delete_seq acks seq ≡ ok acks') × Sets acks seq none acks'
  unfolding delete_seq
  delete_seq-Sets =
      let (freed, acks', e, sets) = delete-Sets acks w seq small in (acks', rw e refl, sets)

  -- Taking out an answer leaves nothing under its number.
  pub wait_finish-Sets :
      (old : Option Packet)
      → entry acks seq ≡ some old
      → (acks' : Acks) × (wait_finish acks seq ≡ ok (taken (some old), acks'))
        × Sets acks seq none acks'
  wait_finish-Sets old at =
      let (acks1, e, sets1) = update-Sets acks w seq none old small at in
      let (freed, acks2, f, sets2) = delete-Sets acks1 sets1.numbered seq small in
      (
        acks2,
        unfold wait_finish in rw (e, f) refl,
        record {
          numbered = sets2.numbered;
          entries = λ m k. elim (Bool-cases (seq == m)) [
            | inl same ↦ rw same (sets2.entries m k ∙ rw same refl)
            | inr other ↦
                rw other (sets2.entries m k ∙ rw other (sets1.entries m k ∙ rw other refl))
          ];
        },
      )

  pub looks_at :
      (zero_ret : Bool) (slot : Option Packet)
      → entry acks seq ≡ some slot
      → wait_look zero_ret acks seq ≡ wait_seen zero_ret acks seq slot
  unfolding wait_look wait_seen
  looks_at zero_ret slot at =
      let (node, found, val) = find-entry acks w seq in by_node node found (val ∙ at)
    where
      by_node :
          (node : Option (Node (Option Packet)))
          → find acks (u64_key seq) ≡ ok node
          → value node ≡ some slot
          → wait_look zero_ret acks seq ≡ wait_seen zero_ret acks seq slot
      by_node none found val = cc
      by_node (some n) found val =
          rw (wait_look, found) (ap (wait_seen zero_ret acks seq) (some_injective val))

  pub enters_at :
      (slot : Option Packet)
      → entry acks seq ≡ some slot
      → wait_enter acks seq ≡ wait_seen true acks seq slot
  unfolding wait_enter wait_seen
  enters_at slot at =
      let (node, found, val) = find-entry acks w seq in by_node node found (val ∙ at)
    where
      by_node :
          (node : Option (Node (Option Packet)))
          → find acks (u64_key seq) ≡ ok node
          → value node ≡ some slot
          → wait_enter acks seq ≡ wait_seen true acks seq slot
      by_node none found val = cc
      by_node (some n) found val =
          rw (wait_enter, found) (ap (wait_seen true acks seq) (some_injective val))

  -- The first section of a wait, and a later one.
  pub wait_enter-sleeps : entry acks seq ≡ some none → wait_enter acks seq ≡ ok (sleeps, acks)
  wait_enter-sleeps at = enters_at none at ∙ unfold wait_seen in refl

  pub wait_enter-takes :
      (p : Packet) → entry acks seq ≡ some (some p) → wait_enter acks seq ≡ wait_finish acks seq
  wait_enter-takes p at = enters_at (some p) at ∙ unfold wait_seen in refl

  pub wait_wake-takes :
      (timed : Bool) (p : Packet)
      → entry acks seq ≡ some (some p)
      → wait_wake timed signalled acks seq ≡ wait_finish acks seq
  wait_wake-takes timed p at =
      unfold wait_wake in (looks_at true (some p) at ∙ unfold wait_seen in refl)
