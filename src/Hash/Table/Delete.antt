-- ===== src/Hash/Table/Delete.antt =====
-- The removal of a key.
use utils_c.Base.{
  ℕ, ◌≡◌, refl, arith, List, [], ◌∷◌, get_elem?, ok, Option, none, some, length-flatten-set, Status,
  done,
}
use utils_c.Hash.Key.{Key}
use utils_c.Hash.Key.Compare.{IsKey}
use utils_c.Hash.Table.{Table, Chain}
use utils_c.Hash.Table.Chains.{unlink, node_bytes}
use utils_c.Hash.Table.Invariant.{
  IsChain, key_len, home, view, key_bytes, IsValid, home_chain, home_chain-IsChain,
}
use utils_c.Hash.Table.Writes.{unlink-Outcome, unlink-Leaves}
use utils_c.Hash.Table.{decrement, delete, unlink_loop}
use utils_c.Hash.Table.Chains.{unlink_loop-unlink}
use utils_c.Hash.Table.Invariant.{locate-home, IsChain-keys}
use utils_c.Hash.Table.Effect.{with_chain, Writes, with_chain-Writes, view-lookup}

-- What deletion is to do, by the value that the key has before.
abbrev pub Deletes {ℓ} :
    {V : Type ℓ} → Table V → List ℕ → Option V → Status × List V × Table V → Type ℓ
Deletes tbl q (some old) (status, freed, tbl') =
    (status ≡ done)
    × (freed ≡ old ∷ [])
    × (tbl'.node_ttl ≡ decrement tbl.node_ttl)
    × Writes tbl q none tbl'
Deletes tbl q none (status, freed, tbl') = (status ≡ done) × (freed ≡ []) × (tbl' ≡ tbl)

module _ {ℓ} {V : Type ℓ} {tbl : Table V} (v : IsValid tbl) (k : Key) (ik : IsKey tbl.mem_key_len k)
    {c : Chain V} (at : get_elem? tbl.nodes (home tbl (key_bytes tbl k)) ≡ some c) where
  kept :
      IsChain tbl.key_type tbl.mem_key_len (key_len tbl) (home tbl) (home tbl (key_bytes tbl k)) c
  kept = home_chain-IsChain v (key_bytes tbl k) at

  loop :
      unlink_loop tbl.key_type (key_len tbl) c k
      ≡ ok (unlink (node_bytes tbl.key_type (key_len tbl)) (key_bytes tbl k) c)
  loop = unlink_loop-unlink tbl.key_type v.known ik c (
      IsChain-keys tbl.key_type tbl.mem_key_len (key_len tbl) (home tbl)
        (home tbl (key_bytes tbl k)) c kept)

  delete_chain :
      (u : Option (V × Chain V))
      → unlink (node_bytes tbl.key_type (key_len tbl)) (key_bytes tbl k) c ≡ u
      → (r : Status × List V × Table V) × (delete tbl k ≡ ok r)
        × Deletes tbl (key_bytes tbl k) (view tbl (key_bytes tbl k)) r
  unfolding delete
  delete_chain none e =
      let q = key_bytes tbl k in
      let outcome =
        unlink-Outcome tbl.key_type tbl.mem_key_len (key_len tbl) (home tbl) _ q c kept in
      let missing = rw e at outcome in
      (
        (done, [], tbl),
        rw (locate-home v k at, loop, e),
        rw (view-lookup v q at, missing) (refl, refl, refl),
      )
  delete_chain (some (old, c')) e =
      let q = key_bytes tbl k in
      let outcome =
        unlink-Outcome tbl.key_type tbl.mem_key_len (key_len tbl) (home tbl) _ q c kept in
      let found = rw e at outcome in
      let leaves = unlink-Leaves (node_bytes tbl.key_type (key_len tbl)) q c in
      let size = rw e at leaves in
      (
        (done, old ∷ [], with_chain tbl (decrement tbl.node_ttl) q c'),
        rw (locate-home v k at, loop, e),
        rw (view-lookup v q at, found.0)
            (
              refl,
              refl,
              refl,
              with_chain-Writes v q at _ none c' found.1 (
                  omega
                    (arith, v.counted, length-flatten-set tbl.nodes (home tbl q) c c' at, size)),
            ),
      )

module _ {ℓ} {V : Type ℓ} {tbl : Table V} (v : IsValid tbl) where
  -- In a valid table, for a key of the right size, deletion returns 0. It frees the value of a key
  -- that is there, takes the key out and counts one node less; if the key is not there it changes
  -- nothing. The table stays valid, and all other keys read as before.
  pub delete-Deletes :
      (k : Key)
      → IsKey tbl.mem_key_len k
      → (r : Status × List V × Table V) × (delete tbl k ≡ ok r)
        × Deletes tbl (key_bytes tbl k) (view tbl (key_bytes tbl k)) r
  delete-Deletes k ik =
      let (c, at) = home_chain v (key_bytes tbl k) in delete_chain v k ik at _ refl
