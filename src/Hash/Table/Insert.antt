-- ===== src/Hash/Table/Insert.antt =====
-- The insertion of a value under a key.
use utils_c.Base.{
  ℕ, ◌≡◌, refl, inl, inr, arith, List, [], ◌∷◌, get_elem?, Option-cases, ok, ◌>>=◌, Option, none,
  some, length-flatten-set, Status, done, failed,
}
use utils_c.Hash.Key.{Key}
use utils_c.Hash.Key.Compare.{IsKey}
use utils_c.Hash.Table.{Table, Chain}
use utils_c.Hash.Table.Chains.{replace, node_bytes}
use utils_c.Hash.Table.Invariant.{
  IsChain, key_len, home, view, key_bytes, IsValid, home_chain, home_chain-IsChain,
}
use utils_c.Hash.Table.Writes.{replace-Outcome, cons-Becomes, replace-Leaves}
use utils_c.Hash.Key.Compare.{key_copy-hashed_bytes}
use utils_c.Hash.Table.{increment, insert, replace_loop}
use utils_c.Hash.Table.Chains.{replace_loop-replace}
use utils_c.Hash.Table.Invariant.{locate-home, IsChain-keys}
use utils_c.Hash.Table.Effect.{with_chain, Writes, with_chain-Writes, view-lookup}

-- A block that `malloc` returns has room for a key of the table.
abbrev pub IsBlock : ℕ → Option Key → Type 0
IsBlock m none = Unit
IsBlock m (some fresh) = IsKey m fresh

-- What insertion is to do, by the value that the key has before and by the block: a value that is
-- there is freed and replaced, else a node is added, else, with no memory, nothing changes.
abbrev pub Inserts {ℓ} :
    {V : Type ℓ} → Table V → List ℕ → V → Option V → Option Key → Status × List V × Table V → Type ℓ
Inserts tbl q x (some old) malloc (status, freed, tbl') =
    (status ≡ done)
    × (freed ≡ old ∷ [])
    × (tbl'.node_ttl ≡ tbl.node_ttl)
    × Writes tbl q (some x) tbl'
Inserts tbl q x none (some fresh) (status, freed, tbl') =
    (status ≡ done)
    × (freed ≡ [])
    × (tbl'.node_ttl ≡ increment tbl.node_ttl)
    × Writes tbl q (some x) tbl'
Inserts tbl q x none none (status, freed, tbl') =
    (status ≡ failed 0x6488e857) × (freed ≡ []) × (tbl' ≡ tbl)

module _ {ℓ} {V : Type ℓ} {tbl : Table V} (v : IsValid tbl) (k : Key) (ik : IsKey tbl.mem_key_len k)
    (x : V) {c : Chain V} (at : get_elem? tbl.nodes (home tbl (key_bytes tbl k)) ≡ some c) where
  kept :
      IsChain tbl.key_type tbl.mem_key_len (key_len tbl) (home tbl) (home tbl (key_bytes tbl k)) c
  kept = home_chain-IsChain v (key_bytes tbl k) at

  loop :
      replace_loop tbl.key_type (key_len tbl) c k x
      ≡ ok (replace (node_bytes tbl.key_type (key_len tbl)) (key_bytes tbl k) x c)
  loop = replace_loop-replace tbl.key_type v.known ik x c (
      IsChain-keys tbl.key_type tbl.mem_key_len (key_len tbl) (home tbl)
        (home tbl (key_bytes tbl k)) c kept)

  insert-present :
      (old : V) (c' : Chain V) (malloc : Option Key)
      → replace (node_bytes tbl.key_type (key_len tbl)) (key_bytes tbl k) x c ≡ some (old, c')
      → (r : Status × List V × Table V) × (insert tbl k x malloc ≡ ok r)
        × Inserts tbl (key_bytes tbl k) x (view tbl (key_bytes tbl k)) malloc r
  unfolding insert
  insert-present old c' malloc e =
      let q = key_bytes tbl k in
      let outcome =
        replace-Outcome tbl.key_type tbl.mem_key_len (key_len tbl) (home tbl) _ q c x kept in
      let found = rw e at outcome in
      let leaves = replace-Leaves (node_bytes tbl.key_type (key_len tbl)) q c x in
      let size = rw e at leaves in
      (
        (done, old ∷ [], with_chain tbl tbl.node_ttl q c'),
        rw (locate-home v k at, loop, e),
        rw (view-lookup v q at, found.0)
            (
              refl,
              refl,
              refl,
              with_chain-Writes v q at _ (some x) c' found.1 (
                  omega
                    (arith, v.counted, length-flatten-set tbl.nodes (home tbl q) c c' at, size)),
            ),
      )

  insert-absent :
      (malloc : Option Key)
      → IsBlock tbl.mem_key_len malloc
      → replace (node_bytes tbl.key_type (key_len tbl)) (key_bytes tbl k) x c ≡ none
      → (r : Status × List V × Table V) × (insert tbl k x malloc ≡ ok r)
        × Inserts tbl (key_bytes tbl k) x (view tbl (key_bytes tbl k)) malloc r
  unfolding insert
  insert-absent none room e =
      let q = key_bytes tbl k in
      let outcome =
        replace-Outcome tbl.key_type tbl.mem_key_len (key_len tbl) (home tbl) _ q c x kept in
      let missing = rw e at outcome in
      (
        (failed 0x6488e857, [], tbl),
        rw (locate-home v k at, loop, e),
        rw (view-lookup v q at, missing) (refl, refl, refl),
      )
  insert-absent (some fresh) room e =
      let q = key_bytes tbl k in
      let outcome =
        replace-Outcome tbl.key_type tbl.mem_key_len (key_len tbl) (home tbl) _ q c x kept in
      let missing = rw e at outcome in
      let (keys, copied, sized, same) =
        key_copy-hashed_bytes room ik tbl.key_type (key_len tbl) v.known in
      (
        (done, [], with_chain tbl (increment tbl.node_ttl) q (record { keys = keys; val = x } ∷ c)),
        rw (locate-home v k at, loop, e, ◌>>=◌, copied),
        rw (view-lookup v q at, missing)
            (
              refl,
              refl,
              refl,
              with_chain-Writes v q at _ (some x) _
                  (cons-Becomes _ _ _ _ _ q c (record { keys = keys; val = x }) kept sized refl same
                    missing)
                  (omega (
                    arith,
                    v.counted,
                    length-flatten-set tbl.nodes (home tbl q) c
                        (record { keys = keys; val = x } ∷ c) at,
                  )),
            ),
      )

module _ {ℓ} {V : Type ℓ} {tbl : Table V} (v : IsValid tbl) where
  -- In a valid table, for a key of the right size, insertion returns. It replaces and frees the
  -- value of a key that is there, adds and counts a key that is not, and with no memory for a new
  -- key it reports so and changes nothing. The table stays valid, and all other keys read as before.
  pub insert-Inserts :
      (k : Key) (x : V) (malloc : Option Key)
      → IsKey tbl.mem_key_len k
      → IsBlock tbl.mem_key_len malloc
      → (r : Status × List V × Table V) × (insert tbl k x malloc ≡ ok r)
        × Inserts tbl (key_bytes tbl k) x (view tbl (key_bytes tbl k)) malloc r
  insert-Inserts k x malloc ik room =
      let (c, at) = home_chain v (key_bytes tbl k) in
      elim (Option-cases (replace (node_bytes tbl.key_type (key_len tbl)) (key_bytes tbl k) x c)) [
        | inl e ↦ insert-absent v k ik x at malloc room e
        | inr ((old, c'), e) ↦ insert-present v k ik x at old c' malloc e
      ]
