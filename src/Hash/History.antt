-- ===== src/Hash/History.antt =====
-- Any sequence of insertions, deletions and updates of a table of hash/uc_hash.c, as one on a map.
use utils_c.Base.{
  ℕ, ◌≡◌, refl, sym, ap, ap₂, subst, ◌∙◌, inl, inr, arith, List, [], ◌∷◌, bytes_eq, bytes_eq→eq,
  if◌then◌else◌, Bool-cases, Run, ok, ◌>>=◌, Option, none, some, All, Status,
}
use mathlib.Core.Path.{fun_ext}
use utils_c.Hash.Key.{Key, KeyType, cal_key_len}
use utils_c.Hash.Key.Compare.{IsKey, hashed_bytes}
use utils_c.Hash.Table.{Table, insert, delete, update}
use utils_c.Hash.Table.Invariant.{IsValid, view, key_bytes, key_len}
use utils_c.Hash.Table.Effect.{Writes}
use utils_c.Hash.Table.Insert.{IsBlock, Inserts, insert-Inserts}
use utils_c.Hash.Table.Delete.{Deletes, delete-Deletes}
use utils_c.Hash.Table.Find.{Updates, update-Updates}

-- Calls of the three operations that change single keys.
pub data Call {ℓ} (V : Type ℓ) : Type ℓ where
  inserts : Key → V → Option Key → Call V
  deletes : Key → Call V
  updates : Key → V → Call V

module _ {ℓ} {V : Type ℓ} where
  -- One call on a table, of which only the table is kept.
  pub step : Table V → Call V → Run (Table V)
  step tbl (inserts k x malloc) = do (status, freed, tbl') ← insert tbl k x malloc; ok tbl'
  step tbl (deletes k) = do (status, freed, tbl') ← delete tbl k; ok tbl'
  step tbl (updates k x) = do (old, tbl') ← update tbl k x; ok tbl'

  pub run : Table V → List (Call V) → Run (Table V)
  unfolding step
  run tbl [] = ok tbl
  run tbl (c ∷ cs) = step tbl c >>= λ tbl'. run tbl' cs

  abbrev pub target : Call V → Key
  target (inserts k x malloc) = k
  target (deletes k) = k
  target (updates k x) = k

  -- The value at the key after a call, from the value before it.
  abbrev pub new_value : Call V → Option V → Option V
  new_value (inserts k x none) none = none
  new_value (inserts k x malloc) old = some x
  new_value (deletes k) old = none
  new_value (updates k x) none = none
  new_value (updates k x) (some old) = some x

  -- A call on a map, and a sequence of them.
  abbrev pub apply : KeyType → ℕ → (List ℕ → Option V) → Call V → List ℕ → Option V
  apply t len f c p =
      let q = hashed_bytes t len (target c) in if bytes_eq q p then new_value c (f q) else f p

  pub apply_all : KeyType → ℕ → (List ℕ → Option V) → List (Call V) → List ℕ → Option V
  apply_all t len f [] = f
  apply_all t len f (c ∷ cs) = apply_all t len (apply t len f c) cs

  abbrev pub IsCall : ℕ → Call V → Type 0
  IsCall m (inserts k x malloc) = IsKey m k × IsBlock m malloc
  IsCall m (deletes k) = IsKey m k
  IsCall m (updates k x) = IsKey m k

  -- `tbl'` is valid, has keys like `tbl`, and reads as `f`.
  pub record Reads (tbl : Table V) (f : List ℕ → Option V) (tbl' : Table V) : Type ℓ where
    pub valid : IsValid tbl'
    pub reads : (p : List ℕ) → view tbl' p ≡ f p
    pub same_key_type : tbl'.key_type ≡ tbl.key_type
    pub same_mem_key_len : tbl'.mem_key_len ≡ tbl.mem_key_len

  abbrev put : Table V → List ℕ → Option V → List ℕ → Option V
  put tbl q x p = if bytes_eq q p then x else view tbl p

  Writes-Reads :
      (tbl : Table V) (q : List ℕ) (x : Option V) (tbl' : Table V)
      → Writes tbl q x tbl'
      → Reads tbl (put tbl q x) tbl'
  Writes-Reads tbl q x tbl' w = record {
    valid = w.valid;
    reads = w.reads;
    same_key_type = w.same_key_type;
    same_mem_key_len = w.same_mem_key_len;
  }

  -- Nothing changes when the value that is there is put again.
  same-Reads :
      (tbl : Table V) (q : List ℕ) (x : Option V) (tbl' : Table V)
      → IsValid tbl
      → view tbl q ≡ x
      → tbl' ≡ tbl
      → Reads tbl (put tbl q x) tbl'
  same-Reads tbl q x tbl' v there e = subst (Reads tbl (put tbl q x)) (sym e) (record {
    valid = v;
    reads = λ p. elim (Bool-cases (bytes_eq q p)) [
      | inl same ↦ rw same (ap (view tbl) (sym (bytes_eq→eq q p same)) ∙ there)
      | inr apart ↦ rw apart
    ];
    same_key_type = refl;
    same_mem_key_len = refl;
  })

  Inserts-Reads :
      (tbl : Table V) (q : List ℕ) (k : Key) (x : V) (old : Option V) (malloc : Option Key)
      (r : Status × List V × Table V)
      → IsValid tbl
      → view tbl q ≡ old
      → Inserts tbl q x old malloc r
      → Reads tbl (put tbl q (new_value (inserts k x malloc) old)) r.2
  Inserts-Reads tbl q k x (some old) none r v e h = Writes-Reads tbl q (some x) r.2 h.3
  Inserts-Reads tbl q k x (some old) (some fresh) r v e h = Writes-Reads tbl q (some x) r.2 h.3
  Inserts-Reads tbl q k x none (some fresh) r v e h = Writes-Reads tbl q (some x) r.2 h.3
  Inserts-Reads tbl q k x none none r v e h = same-Reads tbl q none r.2 v e h.2

  Deletes-Reads :
      (tbl : Table V) (q : List ℕ) (old : Option V) (r : Status × List V × Table V)
      → IsValid tbl
      → view tbl q ≡ old
      → Deletes tbl q old r
      → Reads tbl (put tbl q none) r.2
  Deletes-Reads tbl q (some old) r v e h = Writes-Reads tbl q none r.2 h.3
  Deletes-Reads tbl q none r v e h = same-Reads tbl q none r.2 v e h.2

  Updates-Reads :
      (tbl : Table V) (q : List ℕ) (k : Key) (x : V) (old : Option V) (r : Option V × Table V)
      → IsValid tbl
      → view tbl q ≡ old
      → Updates tbl q x old r
      → Reads tbl (put tbl q (new_value (updates k x) old)) r.1
  Updates-Reads tbl q k x (some old) r v e h = Writes-Reads tbl q (some x) r.1 h.2
  Updates-Reads tbl q k x none r v e h = same-Reads tbl q none r.1 v e h.1

  step-Reads :
      (tbl : Table V) (c : Call V)
      → IsValid tbl
      → IsCall tbl.mem_key_len c
      → (tbl' : Table V) × (step tbl c ≡ ok tbl')
        × Reads tbl (apply tbl.key_type (key_len tbl) (view tbl) c) tbl'
  unfolding step
  step-Reads tbl (inserts k x malloc) v h =
      let (r, ran, did) = insert-Inserts v k x malloc h.0 h.1 in
      (r.2, rw ran, Inserts-Reads tbl (key_bytes tbl k) k x _ malloc r v refl did)
  step-Reads tbl (deletes k) v h =
      let (r, ran, did) = delete-Deletes v k h in
      (r.2, rw ran, Deletes-Reads tbl (key_bytes tbl k) _ r v refl did)
  step-Reads tbl (updates k x) v h =
      let (r, ran, did) = update-Updates v k h x in
      (r.1, rw ran, Updates-Reads tbl (key_bytes tbl k) k x _ r v refl did)

  key_len_congr :
      (a b : Table V)
      → a.key_type ≡ b.key_type
      → a.mem_key_len ≡ b.mem_key_len
      → key_len a ≡ key_len b
  unfolding key_len
  key_len_congr a b p q = ground (arith, ap₂ cal_key_len p q)

  run-Reads :
      (t : KeyType) (m len : ℕ) (cs : List (Call V)) (tbl : Table V) (f : List ℕ → Option V)
      → IsValid tbl
      → tbl.key_type ≡ t
      → tbl.mem_key_len ≡ m
      → key_len tbl ≡ len
      → view tbl ≡ f
      → All (IsCall m) cs
      → (tbl' : Table V) × (run tbl cs ≡ ok tbl')
        × IsValid tbl'
        × ((p : List ℕ) → view tbl' p ≡ apply_all t len f cs p)
  unfolding run apply_all
  run-Reads t m len [] tbl f v et em el ef h = (tbl, refl, v, λ p. ap (λ g. g p) ef)
  run-Reads t m len (c ∷ cs) tbl f v et em el ef h =
      let (tbl₁, ran, r) = step-Reads tbl c v (subst (λ n. IsCall n c) (sym em) h.0) in
      let reads : view tbl₁ ≡ apply t len f c =
        subst (λ g. view tbl₁ ≡ apply t len g c) ef
          (subst (λ n. view tbl₁ ≡ apply t n (view tbl) c) el
            (subst (λ u. view tbl₁ ≡ apply u (key_len tbl) (view tbl) c) et (fun_ext r.reads))) in
      let (tbl', rest, valid, all) =
        run-Reads t m len cs tbl₁ (apply t len f c) r.valid (r.same_key_type ∙ et)
          (r.same_mem_key_len ∙ em) (key_len_congr tbl₁ tbl r.same_key_type r.same_mem_key_len ∙ el)
          reads h.1 in
      (tbl', rw ran rest, valid, all)

  -- From a valid table, every sequence of insertions, deletions and updates with keys of the right
  -- size returns, whichever allocations fail; the table is valid at the end and stands for the map
  -- that the same sequence makes of the map at the start.
  pub run-apply_all :
      (tbl : Table V) (cs : List (Call V))
      → IsValid tbl
      → All (IsCall tbl.mem_key_len) cs
      → (tbl' : Table V) × (run tbl cs ≡ ok tbl')
        × IsValid tbl'
        × ((p : List ℕ) → view tbl' p ≡ apply_all tbl.key_type (key_len tbl) (view tbl) cs p)
  run-apply_all tbl cs v h =
      run-Reads tbl.key_type tbl.mem_key_len (key_len tbl) cs tbl (view tbl) v refl refl refl refl h
