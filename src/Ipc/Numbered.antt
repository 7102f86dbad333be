-- ===== src/Ipc/Numbered.antt =====
-- ipc/: the hash tables whose keys are numbers of 64 bits, as maps from numbers.
use utils_c.Base.{
  ℕ, ◌^◌, ◌<◌, ◌≡◌, refl, sym, ap, subst, ◌∙◌, inl, inr, arith, ◌==◌, ==_iff, if◌then◌else◌,
  Bool-cases, bytes_eq, bytes_eq→eq, bytes_eq_self, Option, none, some, List, ok, Status, done,
  failed, ◌⊎◌,
}
use utils_c.Hash.Key.{Key, uint64, value_of, cal_key_len}
use utils_c.Hash.Key.Compare.{IsKey, hashed_bytes}
use utils_c.Hash.Table.{Table, Node, find, insert, delete, update}
use utils_c.Hash.Table.Invariant.{IsValid, view, key_bytes, key_len}
use utils_c.Hash.Table.Effect.{Writes}
use utils_c.Hash.Table.Find.{find-view, value, Updates, update-Updates}
use utils_c.Hash.Table.Insert.{Inserts, insert-Inserts, IsBlock}
use utils_c.Hash.Table.Delete.{Deletes, delete-Deletes}
use utils_c.Ipc.Proto.{to_le, u64_key, value_of-to_le_8}

-- A table as `uc_hash_create` makes it for the type `uc_hash_key_uint64`.
pub record IsNumbered {ℓ} {V : Type ℓ} (tbl : Table V) : Type ℓ where
  pub valid : IsValid tbl
  pub key_type : tbl.key_type ≡ uint64
  pub mem_key_len : tbl.mem_key_len ≡ 0

abbrev pub entry {ℓ} : {V : Type ℓ} → Table V → ℕ → Option V
entry tbl n = view tbl (to_le 8 n)

to_le-injective : (n m : ℕ) → n < 2 ^ 64 → m < 2 ^ 64 → to_le 8 n ≡ to_le 8 m → n ≡ m
to_le-injective n m hn hm e = sym (value_of-to_le_8 n hn) ∙ (ap value_of e ∙ value_of-to_le_8 m hm)

bytes_eq-to_le : (n m : ℕ) → n < 2 ^ 64 → m < 2 ^ 64 → bytes_eq (to_le 8 n) (to_le 8 m) ≡ (n == m)
bytes_eq-to_le n m hn hm = elim (Bool-cases (n == m)) [
  | inl e ↦ rw (e, (==_iff n m).0 e) (bytes_eq_self (to_le 8 m))
  | inr e ↦ elim (Bool-cases (bytes_eq (to_le 8 n) (to_le 8 m))) [
    | inl b ↦
        let same = to_le-injective n m hn hm (bytes_eq→eq (to_le 8 n) (to_le 8 m) b) in
        cc ((==_iff n m).1 same)
    | inr b ↦ b ∙ sym e
  ]
]

-- `tbl'` is such a table, and has the entries of `tbl` but for `v` at the number `n`.
pub record Sets {ℓ} {V : Type ℓ} (tbl : Table V) (n : ℕ) (v : Option V) (tbl' : Table V)
    : Type ℓ where
  pub numbered : IsNumbered tbl'
  pub entries : (m : ℕ) → m < 2 ^ 64 → entry tbl' m ≡ (if n == m then v else entry tbl m)

pub u64_key-IsKey : (n m : ℕ) → m ≡ 0 → IsKey m (u64_key n)
unfolding to_le
u64_key-IsKey n m e = record { size = refl; octets = omega arith; mem_size = omega arith }

module _ {ℓ} {V : Type ℓ} (tbl : Table V) (w : IsNumbered tbl) (n : ℕ) where
  key_len_lem : key_len tbl ≡ 8
  unfolding cal_key_len key_len
  key_len_lem = rw (key_len, w.key_type) refl

  pub key_bytes-to_le : key_bytes tbl (u64_key n) ≡ to_le 8 n
  unfolding hashed_bytes to_le
  key_bytes-to_le = simp (w.key_type, key_len_lem) refl

  is_key : IsKey tbl.mem_key_len (u64_key n)
  is_key = u64_key-IsKey n tbl.mem_key_len w.mem_key_len

  Writes-Sets :
      (v : Option V) (tbl' : Table V)
      → n < 2 ^ 64
      → Writes tbl (key_bytes tbl (u64_key n)) v tbl'
      → Sets tbl n v tbl'
  Writes-Sets v tbl' h wr = record {
    numbered = record {
      valid = wr.valid;
      key_type = wr.same_key_type ∙ w.key_type;
      mem_key_len = wr.same_mem_key_len ∙ w.mem_key_len;
    };
    entries = λ m k. wr.reads (to_le 8 m) ∙ rw (key_bytes-to_le, bytes_eq-to_le n m h k) refl;
  }

  pub find-entry :
      (node : Option (Node V)) × (find tbl (u64_key n) ≡ ok node) × (value node ≡ entry tbl n)
  find-entry =
      let (node, e, v) = find-view w.valid (u64_key n) is_key in
      (node, e, v ∙ ap (view tbl) key_bytes-to_le)

  at_key : {v : Option V} → entry tbl n ≡ v → view tbl (key_bytes tbl (u64_key n)) ≡ v
  at_key e = ap (view tbl) key_bytes-to_le ∙ e

  -- Setting nothing where nothing is.
  stays : n < 2 ^ 64 → (v : Option V) → entry tbl n ≡ v → Sets tbl n v tbl
  stays h v e = record {
    numbered = w;
    entries = λ m k. elim (Bool-cases (n == m)) [
      | inl same ↦ rw same (ap (entry tbl) (sym ((==_iff n m).0 same)) ∙ e)
      | inr other ↦ rw other refl
    ];
  }

  delete_by :
      (old : Option V)
      → n < 2 ^ 64
      → entry tbl n ≡ old
      → (r : Status × List V × Table V) → delete tbl (u64_key n) ≡ ok r
      → Deletes tbl (key_bytes tbl (u64_key n)) old r
      → (freed : List V) × (tbl' : Table V) × (delete tbl (u64_key n) ≡ ok (done, freed, tbl'))
        × Sets tbl n none tbl'
  delete_by none h at (status, freed, tbl') e d = (
    freed,
    tbl',
    e ∙ ap (λ (s : Status). ok (s, freed, tbl')) d.0,
    subst (λ t. Sets tbl n none t) (sym d.2) (stays h none at),
  )
  delete_by (some old) h at (status, freed, tbl') e d =
      (freed, tbl', e ∙ ap (λ (s : Status). ok (s, freed, tbl')) d.0, Writes-Sets none tbl' h d.3)

  pub delete-Sets :
      n < 2 ^ 64
      → (freed : List V) × (tbl' : Table V) × (delete tbl (u64_key n) ≡ ok (done, freed, tbl'))
        × Sets tbl n none tbl'
  delete-Sets h =
      let (r, e, d) = delete-Deletes w.valid (u64_key n) is_key in
      delete_by (entry tbl n) h refl r e
        (subst (λ v. Deletes tbl (key_bytes tbl (u64_key n)) v r) (at_key refl) d)

  insert_by :
      (x : V) (fresh : Key) (old : Option V)
      → n < 2 ^ 64
      → (r : Status × List V × Table V) → insert tbl (u64_key n) x (some fresh) ≡ ok r
      → Inserts tbl (key_bytes tbl (u64_key n)) x old (some fresh) r
      → (freed : List V) × (tbl' : Table V) × (insert tbl (u64_key n) x (some fresh)
          ≡ ok (done, freed, tbl'))
        × Sets tbl n (some x) tbl'
  insert_by x fresh none h (status, freed, tbl') e d = (
    freed,
    tbl',
    e ∙ ap (λ (s : Status). ok (s, freed, tbl')) d.0,
    Writes-Sets (some x) tbl' h d.3,
  )
  insert_by x fresh (some old) h (status, freed, tbl') e d = (
    freed,
    tbl',
    e ∙ ap (λ (s : Status). ok (s, freed, tbl')) d.0,
    Writes-Sets (some x) tbl' h d.3,
  )

  pub insert-Sets :
      (x : V) (fresh : Key)
      → n < 2 ^ 64
      → IsKey 0 fresh
      → (freed : List V) × (tbl' : Table V) × (insert tbl (u64_key n) x (some fresh)
          ≡ ok (done, freed, tbl'))
        × Sets tbl n (some x) tbl'
  insert-Sets x fresh h block =
      let (r, e, d) =
        insert-Inserts w.valid (u64_key n) x (some fresh) is_key
          (subst (λ m. IsKey m fresh) (sym w.mem_key_len) block) in
      insert_by x fresh (view tbl (key_bytes tbl (u64_key n))) h r e d

  insert_any_by :
      (x : V) (malloc : Option Key) (old : Option V)
      → n < 2 ^ 64
      → (r : Status × List V × Table V) → Inserts tbl (key_bytes tbl (u64_key n)) x old malloc r
      → (r.2 ≡ tbl) ⊎ Sets tbl n (some x) r.2
  insert_any_by x none none h (status, freed, tbl') d = inl d.2
  insert_any_by x (some fresh) none h (status, freed, tbl') d =
      inr (Writes-Sets (some x) tbl' h d.3)
  insert_any_by x none (some old) h (status, freed, tbl') d = inr (Writes-Sets (some x) tbl' h d.3)
  insert_any_by x (some fresh) (some old) h (status, freed, tbl') d =
      inr (Writes-Sets (some x) tbl' h d.3)

  -- Whether there is a block or not, the value is put in or nothing changes.
  pub insert_any :
      (x : V) (malloc : Option Key)
      → n < 2 ^ 64
      → IsBlock 0 malloc
      → (r : Status × List V × Table V) × (insert tbl (u64_key n) x malloc ≡ ok r)
        × ((r.2 ≡ tbl) ⊎ Sets tbl n (some x) r.2)
  insert_any x malloc h block =
      let (r, e, d) =
        insert-Inserts w.valid (u64_key n) x malloc is_key
          (subst (λ m. IsBlock m malloc) (sym w.mem_key_len) block) in
      (r, e, insert_any_by x malloc (view tbl (key_bytes tbl (u64_key n))) h r d)

  -- Without a block a number that is not there is not put in.
  pub insert-full :
      (x : V)
      → entry tbl n ≡ none
      → (status : Status) × (freed : List V) × (insert tbl (u64_key n) x none
          ≡ ok (status, freed, tbl))
        × (status ≡ failed 0x6488e857)
  insert-full x at =
      let ((status, freed, tbl'), e, d) = insert-Inserts w.valid (u64_key n) x none is_key tt in
      let (s, f, same) =
        subst (λ v. Inserts tbl (key_bytes tbl (u64_key n)) x v none (status, freed, tbl'))
          (at_key at) d in
      (status, freed, e ∙ ap (λ (t : Table V). ok (status, freed, t)) same, s)

  pub update-Sets :
      (x old : V)
      → n < 2 ^ 64
      → entry tbl n ≡ some old
      → (tbl' : Table V) × (update tbl (u64_key n) x ≡ ok (some old, tbl'))
        × Sets tbl n (some x) tbl'
  update-Sets x old h at =
      let ((result, tbl'), e, d) = update-Updates w.valid (u64_key n) is_key x in
      let (same, _, wr) =
        subst (λ v. Updates tbl (key_bytes tbl (u64_key n)) x v (result, tbl')) (at_key at) d in
      (tbl', e ∙ ap (λ (o : Option V). ok (o, tbl')) same, Writes-Sets (some x) tbl' h wr)

  pub update-missing : (x : V) → entry tbl n ≡ none → update tbl (u64_key n) x ≡ ok (none, tbl)
  update-missing x at =
      let ((result, tbl'), e, d) = update-Updates w.valid (u64_key n) is_key x in
      let (a, b) =
        subst (λ v. Updates tbl (key_bytes tbl (u64_key n)) x v (result, tbl')) (at_key at) d in
      e ∙ (ap (λ (o : Option V). ok (o, tbl')) a ∙ ap (λ (t : Table V). ok (none, t)) b)
