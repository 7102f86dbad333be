-- ===== src/Hash/Table/Chains.antt =====
-- One chain: its loops find, replace and unlink by the bytes that are hashed.
use utils_c.Base.{
  ℕ, ◌≡◌, refl, arith, List, [], ◌∷◌, bytes_eq, if◌then◌else◌, ok, Option, none, some, All,
}
use utils_c.Hash.Key.{KeyType, Key, cal_key_len}
use utils_c.Hash.Key.Compare.{hashed_bytes, IsKey, key_compare-bytes_eq}
use utils_c.Hash.Table.{Node, Chain, behind, find_loop, replace_loop, unlink_loop}

module _ {ℓ} {V : Type ℓ} (kb : Node V → List ℕ) (q : List ℕ) where
  unfoldable pub find_node : Chain V → Option (Node V)
  find_node [] = none
  find_node (n ∷ c) = if bytes_eq (kb n) q then some n else find_node c

  unfoldable pub lookup : Chain V → Option V
  lookup [] = none
  lookup (n ∷ c) = if bytes_eq (kb n) q then some n.val else lookup c

  unfoldable pub replace : V → Chain V → Option (V × Chain V)
  replace v [] = none
  replace v (n ∷ c) =
      if bytes_eq (kb n) q then some (n.val, record n { val = v } ∷ c) else behind n (replace v c)

  unfoldable pub unlink : Chain V → Option (V × Chain V)
  unlink [] = none
  unlink (n ∷ c) = if bytes_eq (kb n) q then some (n.val, c) else behind n (unlink c)

abbrev pub node_bytes {ℓ} : {V : Type ℓ} → KeyType → ℕ → Node V → List ℕ
node_bytes t len n = hashed_bytes t len n.keys

-- With keys of the right sizes the loops of the code are these functions, and return.
module _ {ℓ} {V : Type ℓ} (t : KeyType) {m len : ℕ} (e : cal_key_len t m ≡ ok len) {key : Key}
    (k : IsKey m key) where
  pub find_loop-find_node :
      (c : Chain V)
      → All (λ n. IsKey m n.keys) c
      → find_loop t len c key ≡ ok (find_node (node_bytes t len) (hashed_bytes t len key) c)
  unfolding find_loop find_node
  find_loop-find_node [] h = refl
  find_loop-find_node (n ∷ c) h =
      ground (arith, key_compare-bytes_eq h.0 k t len e, find_loop-find_node c h.1)

  pub replace_loop-replace :
      (v : V) (c : Chain V)
      → All (λ n. IsKey m n.keys) c
      → replace_loop t len c key v ≡ ok (replace (node_bytes t len) (hashed_bytes t len key) v c)
  unfolding replace_loop replace
  replace_loop-replace v [] h = refl
  replace_loop-replace v (n ∷ c) h =
      ground (arith, key_compare-bytes_eq h.0 k t len e, replace_loop-replace v c h.1)

  pub unlink_loop-unlink :
      (c : Chain V)
      → All (λ n. IsKey m n.keys) c
      → unlink_loop t len c key ≡ ok (unlink (node_bytes t len) (hashed_bytes t len key) c)
  unfolding unlink_loop unlink
  unlink_loop-unlink [] h = refl
  unlink_loop-unlink (n ∷ c) h =
      ground (arith, key_compare-bytes_eq h.0 k t len e, unlink_loop-unlink c h.1)
