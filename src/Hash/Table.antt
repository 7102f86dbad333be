-- ===== src/Hash/Table.antt =====
-- hash/uc_hash.c: the table and its operations.
pub mod Chains
pub mod Invariant
pub mod Writes
pub mod Effect
pub mod Insert
pub mod Delete
pub mod Find
pub mod Create
pub mod Reset
use utils_c.Base.{
  size_of_int, ℕ, zero, suc, ◌+◌, ◌-◌, ◌*◌, ◌/◌, ◌%◌, ◌^◌, ◌==◌, if◌then◌else◌, Bool, true, not,
  ◌&&◌, leb, Run, ok, fault, ◌>>=◌, Status, done, failed, List, [], ◌∷◌, ◌++◌, length, get_elem?,
  set, take, replicate, Option, none, some,
}
use utils_c.Hash.Key.{KeyType, mem, Key, key_compare, key_copy, cal_key_len, cal_key_addr}
use utils_c.Hash.Crc.{hash_cal}

-- A value is a pointer that the table owns.
pub record Node {ℓ} (V : Type ℓ) : Type ℓ where
  pub keys : Key
  pub val : V

-- The nodes behind one of the table's pointers, in the order of `next`.
abbrev pub Chain {ℓ} : Type ℓ → Type ℓ
Chain V = List (Node V)

-- The handler is a function of the `len` bytes at the address that it is called with.
pub record Table {ℓ} (V : Type ℓ) : Type ℓ where
  pub name : List ℕ
  pub key_type : KeyType
  pub mem_key_len : ℕ
  pub node_ttl : ℕ
  pub height : ℕ
  pub hash_cal_fun : List ℕ → ℕ
  pub nodes : List (Chain V)

-- `size_t` has 64 bits.
abbrev pub size_mod : ℕ
size_mod = 2 ^ 64

abbrev pub increment : ℕ → ℕ
increment n = (n + 1) % size_mod

abbrev pub decrement : ℕ → ℕ
decrement n = (n + size_mod - 1) % size_mod

-- `sizeof(struct uc_hash_table_s)`, and the size of the block that is asked of `calloc`
abbrev pub header_size : ℕ
header_size = 296

pub block_size : ℕ → ℕ
block_size height = (header_size + 8 * height) % size_mod

-- Where the fields that creation sets stand in the structure, and how long they are: `name[0]`,
-- `mem_key_len`, `key_type`, `node_ttl`, `height` and `hash_cal_fun`, in the order in which they are set.
abbrev pub fields : List (ℕ × ℕ)
fields = (0, 1) ∷ (264, 8) ∷ (260, 4) ∷ (272, 8) ∷ (280, 8) ∷ (288, 8) ∷ []

-- Whether these fields are inside a block of `size` bytes.
pub inside : ℕ → List (ℕ × ℕ) → Bool
inside size [] = true
inside size ((offset, len) ∷ more) = leb (offset + len) size && inside size more

-- `a % b` and `xs[i]`
abbrev pub remainder : ℕ → ℕ → Run ℕ
remainder a b = if b == 0 then fault else ok (a % b)

abbrev pub at {ℓ} : {A : Type ℓ} → List A → ℕ → Run A
at xs i = elim (get_elem? xs i) [ none ↦ fault | some x ↦ ok x ]

module _ {ℓ} {V : Type ℓ} where
  -- The fields as they are set, for a block with room for so many chains.
  abbrev pub new_table : ℕ → ℕ → KeyType → ℕ → Table V
  new_table slots height key_type mem_key_len = record {
    name = [];
    key_type = key_type;
    mem_key_len = elim key_type [ mem ↦ mem_key_len | _ ↦ 0 ];
    node_ttl = 0;
    height = height;
    hash_cal_fun = hash_cal;
    nodes = replicate slots [];
  }

  -- `calloc` tells of each size whether it has such a block.
  pub create_do : (ℕ → Bool) → ℕ → KeyType → ℕ → Run (Option (Table V))
  unfolding inside
  create_do calloc height key_type mem_key_len =
      if height == 0
      then ok none
      else if not (calloc (block_size height))
      then ok none
      else if inside (block_size height) fields
      then ok (some (new_table ((block_size height - header_size) / 8) height key_type mem_key_len))
      else fault

  pub create : (ℕ → Bool) → ℕ → KeyType → ℕ → Run (Option (Table V))
  unfolding create_do
  create calloc height key_type key_void_len =
      create_do calloc (size_of_int height) key_type key_void_len

  -- The length of the key, the index of its chain, and the chain.
  pub locate : Table V → Key → Run (ℕ × ℕ × Chain V)
  locate tbl key = do
    key_len ← cal_key_len tbl.key_type tbl.mem_key_len
    addr ← cal_key_addr tbl.key_type key
    h ← remainder (tbl.hash_cal_fun (take key_len addr)) tbl.height
    chain ← at tbl.nodes h
    ok (key_len, h, chain)

  -- A result of the loop on the rest of a chain, seen from the node before it.
  abbrev pub behind : Node V → Option (V × Chain V) → Option (V × Chain V)
  behind n none = none
  behind n (some (old, c)) = some (old, n ∷ c)

  -- The loop of `uc_hash_insert`: the old value, and the chain with the new one.
  pub replace_loop : KeyType → ℕ → Chain V → Key → V → Run (Option (V × Chain V))
  replace_loop t len [] key val = ok none
  replace_loop t len (n ∷ c) key val =
      let rest = replace_loop t len c key val >>= (λ r. ok (behind n r)) in
      do
        r ← key_compare t len n.keys key
        if r == 0 then ok (some (n.val, record n { val = val } ∷ c)) else rest

  -- `malloc` is the new node's union as it comes, or none. The result has the values freed.
  pub insert : Table V → Key → V → Option Key → Run (Status × List V × Table V)
  insert tbl key val malloc = do
    (key_len, h, chain) ← locate tbl key
    replaced ← replace_loop tbl.key_type key_len chain key val
    elim replaced [
      | some (old, c) ↦ ok (done, old ∷ [], record tbl { nodes = set tbl.nodes h c })
      | none ↦ elim malloc [
        | none ↦ ok (failed 0x6488e857, [], tbl)
        | some fresh ↦ do
          keys ← key_copy tbl.key_type key_len fresh key
          ok (
            done,
            [],
            record tbl {
              node_ttl = increment tbl.node_ttl;
              nodes = set tbl.nodes h (record { keys = keys; val = val } ∷ chain);
            },
          )
      ]
    ]

  pub find_loop : KeyType → ℕ → Chain V → Key → Run (Option (Node V))
  find_loop t len [] key = ok none
  find_loop t len (n ∷ c) key =
      let rest = find_loop t len c key in
      do r ← key_compare t len n.keys key; if r == 0 then ok (some n) else rest

  pub find : Table V → Key → Run (Option (Node V))
  find tbl key = do (key_len, h, chain) ← locate tbl key; find_loop tbl.key_type key_len chain key

  -- The loop of `uc_hash_delete`: the value of the node, and the chain without it.
  pub unlink_loop : KeyType → ℕ → Chain V → Key → Run (Option (V × Chain V))
  unlink_loop t len [] key = ok none
  unlink_loop t len (n ∷ c) key =
      let rest = unlink_loop t len c key >>= (λ r. ok (behind n r)) in
      do r ← key_compare t len n.keys key; if r == 0 then ok (some (n.val, c)) else rest

  pub delete : Table V → Key → Run (Status × List V × Table V)
  delete tbl key = do
    (key_len, h, chain) ← locate tbl key
    unlinked ← unlink_loop tbl.key_type key_len chain key
    elim unlinked [
      | some (old, c) ↦ ok (
        done,
        old ∷ [],
        record tbl { node_ttl = decrement tbl.node_ttl; nodes = set tbl.nodes h c },
      )
      | none ↦ ok (done, [], tbl)
    ]

  -- `node->val = val` through the pointer that `uc_hash_find` returned
  pub update : Table V → Key → V → Run (Option V × Table V)
  update tbl key val = do
    node ← find tbl key
    elim node [
      | none ↦ ok (none, tbl)
      | some n ↦ do
        (key_len, h, chain) ← locate tbl key
        written ← replace_loop tbl.key_type key_len chain key val
        elim written [
          | none ↦ fault
          | some (old, c) ↦ ok (some n.val, record tbl { nodes = set tbl.nodes h c })
        ]
    ]

  -- One chain of `uc_hash_reset`: what is left of `node_ttl`, and the values freed.
  pub free_chain : ℕ → Chain V → ℕ × List V
  free_chain ttl [] = (ttl, [])
  free_chain ttl (n ∷ c) = let (left, freed) = free_chain (decrement ttl) c in (left, n.val ∷ freed)

  pub reset_loop : ℕ → ℕ → Table V → Run (List V × Table V)
  unfolding free_chain
  reset_loop zero h tbl = ok ([], tbl)
  reset_loop (suc m) h tbl = do
    chain ← at tbl.nodes h
    let (left, freed) = free_chain tbl.node_ttl chain
    (more, tbl') ← reset_loop m (h + 1) (record tbl { node_ttl = left; nodes = set tbl.nodes h [] })
    ok (freed ++ more, tbl')

  pub reset : Table V → Run (Status × List V × Table V)
  unfolding reset_loop
  reset tbl = do
    (freed, tbl') ← reset_loop tbl.height 0 tbl
    ok ((if tbl'.node_ttl == 0 then done else failed 0x58a6823d), freed, tbl')

  -- The values that are freed with the table.
  pub free : Table V → Run (List V)
  unfolding reset
  free tbl = do (status, freed, tbl') ← reset tbl; ok freed

  pub set_cal_hash_handler : Table V → (List ℕ → ℕ) → Table V
  set_cal_hash_handler tbl handler = record tbl { hash_cal_fun = handler }

  -- `snprintf` into 257 bytes, the last of which is the end of the string
  pub set_name : Table V → List ℕ → Table V
  set_name tbl name = record tbl { name = take 256 name }
