-- ===== src/Hash/Tests.antt =====
-- Tests of the hash table, and its theorems at concrete tables.
use utils_c.Base.{
  ◌+◌, ◌-◌, ℕ, ◌^◌, ◌<◌, ◌≤◌, ◌≡◌, ◌↔◌, refl, Bool, true, false, arith, List, [], ◌∷◌, flatten,
  replicate, bytes_eq, ok, fault, Option, none, some, Status, done,
}
use utils_c.Hash.Key.{uint16, Key, key_compare, cal_key_len, zero_if}
use utils_c.Hash.Key.Compare.{hashed_bytes, IsKey, key_compare-bytes_eq}
use utils_c.Hash.Crc.{crc64}
use utils_c.Hash.Table.{Table, Node, create, insert, delete, find, update, reset}
use utils_c.Hash.Table.Invariant.{IsValid, view, key_bytes, key_len}
use utils_c.Hash.Table.Insert.{Inserts, insert-Inserts}
use utils_c.Hash.Table.Delete.{Deletes, delete-Deletes}
use utils_c.Hash.Table.Find.{value, find-view, Updates, update-Updates}
use utils_c.Hash.Table.Create.{create-IsValid, create-fault}
use utils_c.Hash.Table.Reset.{reset-values}
use utils_c.Hash.History.{Call, inserts, deletes, updates, run, apply_all, run-apply_all}
use utils_c.Hash.Walk.{random_node, visit}
use utils_c.Hash.Walk.Random.{Picks, random_node-Picks}
use utils_c.Hash.Walk.Next.{visit-flatten}
use utils_c.Hash.Table.Chains.{lookup}

-- The check value of the checksum.
crc64_check :
    crc64 0 (0x31 ∷ 0x32 ∷ 0x33 ∷ 0x34 ∷ 0x35 ∷ 0x36 ∷ 0x37 ∷ 0x38 ∷ 0x39 ∷ []) ≡ 0xe9c6d914c4b8d9ca
unfolding crc64
crc64_check = refl

abbrev short_key : ℕ → Key
short_key low = record { bytes = low ∷ replicate 71 0; mem = [] }

short_key-IsKey : (low : ℕ) → low < 256 → IsKey 0 (short_key low)
short_key-IsKey low h = record { size = refl; octets = omega arith; mem_size = omega arith }

abbrev first_byte : List ℕ → ℕ
first_byte [] = 0
first_byte (b ∷ bs) = b

abbrev pair_table : Table ℕ
pair_table = record {
  name = [];
  key_type = uint16;
  mem_key_len = 0;
  node_ttl = 2;
  height = 3;
  hash_cal_fun = first_byte;
  nodes =
      []
      ∷ (record { keys = short_key 4; val = 40 } ∷ record { keys = short_key 1; val = 10 } ∷ [])
      ∷ []
      ∷ [];
}

pair_table-IsValid : IsValid pair_table
unfolding key_len cal_key_len hashed_bytes lookup
pair_table-IsValid = record {
  known = refl;
  room = omega arith;
  width = refl;
  placed = (
    tt,
    (
      (
        short_key-IsKey 4 (omega arith),
        refl,
        refl,
        (short_key-IsKey 1 (omega arith), refl, refl, tt),
      ),
      (tt, tt),
    ),
  );
  counted = refl;
}

key_compare-bytes_eq_example :
    key_compare uint16 2 (short_key 4) (short_key 1)
    ≡ ok (
        zero_if
          (bytes_eq (hashed_bytes uint16 2 (short_key 4)) (hashed_bytes uint16 2 (short_key 1))))
unfolding cal_key_len
key_compare-bytes_eq_example =
    key_compare-bytes_eq (short_key-IsKey 4 (omega arith)) (short_key-IsKey 1 (omega arith)) uint16
      2 refl

create-IsValid_example :
    (true ≡ false → create {V = ℕ} (λ n. true) 2 uint16 0 ≡ ok none)
    × (true ≡ true
        → (tbl : Table ℕ) × (create (λ n. true) 2 uint16 0 ≡ ok (some tbl))
          × IsValid tbl
          × ((p : List ℕ) → view tbl p ≡ none)
          × (tbl.node_ttl ≡ 0)
          × (tbl.height ≡ 2))
create-IsValid_example =
    create-IsValid {V = ℕ} (λ n. true) 2 uint16 0 (omega arith) (omega arith) tt

insert-Inserts_example :
    (r : Status × List ℕ × Table ℕ) × (insert pair_table (short_key 7) 70 (some (short_key 0))
      ≡ ok r)
    × Inserts pair_table
        (key_bytes pair_table (short_key 7))
        70
        (view pair_table (key_bytes pair_table (short_key 7)))
        (some (short_key 0))
        r
insert-Inserts_example =
    insert-Inserts pair_table-IsValid (short_key 7) 70 (some (short_key 0))
      (short_key-IsKey 7 (omega arith)) (short_key-IsKey 0 (omega arith))

delete-Deletes_example :
    (r : Status × List ℕ × Table ℕ) × (delete pair_table (short_key 1) ≡ ok r)
    × Deletes pair_table
        (key_bytes pair_table (short_key 1))
        (view pair_table (key_bytes pair_table (short_key 1)))
        r
delete-Deletes_example =
    delete-Deletes pair_table-IsValid (short_key 1) (short_key-IsKey 1 (omega arith))

find-view_example :
    (n : Option (Node ℕ)) × (find pair_table (short_key 1) ≡ ok n)
    × (value n ≡ view pair_table (key_bytes pair_table (short_key 1)))
find-view_example = find-view pair_table-IsValid (short_key 1) (short_key-IsKey 1 (omega arith))

update-Updates_example :
    (r : Option ℕ × Table ℕ) × (update pair_table (short_key 1) 11 ≡ ok r)
    × Updates pair_table
        (key_bytes pair_table (short_key 1))
        11
        (view pair_table (key_bytes pair_table (short_key 1)))
        r
update-Updates_example =
    update-Updates pair_table-IsValid (short_key 1) (short_key-IsKey 1 (omega arith)) 11

reset-values_example :
    (tbl' : Table ℕ) × (reset pair_table ≡ ok (done, 40 ∷ 10 ∷ [], tbl'))
    × IsValid tbl'
    × ((p : List ℕ) → view tbl' p ≡ none)
    × (tbl'.node_ttl ≡ 0)
reset-values_example = reset-values pair_table-IsValid

visit-flatten_example : visit 2 pair_table ≡ ok (some (flatten pair_table.nodes))
visit-flatten_example = visit-flatten pair_table-IsValid 2 (omega arith)

create-fault_example :
    (create {V = ℕ} (λ n. true) (2 ^ 32 - 1) uint16 0 ≡ fault)
    ↔ ((2 ^ 32 ≤ 2 ^ 32 - 1 + 37) × (◌≡◌ {A = Bool} true true))
create-fault_example = create-fault {V = ℕ} (λ n. true) (2 ^ 32 - 1) uint16 0 (omega arith)

abbrev calls : List (Call ℕ)
calls =
    inserts (short_key 7) 70 (some (short_key 0))
    ∷ deletes (short_key 1)
    ∷ updates (short_key 4) 44
    ∷ inserts (short_key 2) 20 none
    ∷ []

run-apply_all_example :
    (tbl' : Table ℕ) × (run pair_table calls ≡ ok tbl')
    × IsValid tbl'
    × ((p : List ℕ) → view tbl' p ≡ apply_all uint16 (key_len pair_table) (view pair_table) calls p)
run-apply_all_example = run-apply_all pair_table calls pair_table-IsValid (
  (short_key-IsKey 7 (omega arith), short_key-IsKey 0 (omega arith)),
  (
    short_key-IsKey 1 (omega arith),
    (short_key-IsKey 4 (omega arith), ((short_key-IsKey 2 (omega arith), tt), tt)),
  ),
)

random_node-Picks_example : Picks 5 pair_table.nodes (random_node pair_table 5)
random_node-Picks_example = random_node-Picks pair_table-IsValid 5 (omega arith)
