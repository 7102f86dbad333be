-- ===== src/Hash/Table/Create.antt =====
-- The creation of a table.
use utils_c.Base.{
  size_of_int, ℕ, zero, suc, ◌+◌, ◌-◌, ◌%◌, ◌<◌, ◌≤◌, ◌≡◌, ◌↔◌, refl, ◌∙◌, true, false, arith, ok,
  Bool-cases, leb, inl, inr, List, [], get_elem?, ◌==◌, Bool, none, some,
}
use native.Mathlib.Decide.{dec_lt}
use utils_c.Hash.Key.{KeyType}
use utils_c.Hash.Key.Compare.{IsMember, member-known}
use utils_c.Hash.Table.{Table, Node, Chain, size_mod}
use utils_c.Hash.Table.Chains.{lookup}
use utils_c.Hash.Table.Invariant.{IsPlaced, key_len, home, view, chain_or_nil, IsValid}
use utils_c.Base.{◌*◌, ◌^◌, ◌/◌, replicate, length-replicate, flatten-replicate, fault}
use utils_c.Hash.Table.{new_table, create, create_do, block_size, header_size, inside, fields}

chain_of-replicate {ℓ} :
    {V : Type ℓ} (n i : ℕ) → chain_or_nil {V = V} (get_elem? (replicate n []) i) ≡ []
chain_of-replicate zero i = refl
chain_of-replicate (suc n) zero = refl
chain_of-replicate (suc n) (suc i) = chain_of-replicate n i

module _ {ℓ} (V : Type ℓ) (t : KeyType) (m len : ℕ) (h : List ℕ → ℕ) where
  replicate-IsPlaced : (n i : ℕ) → IsPlaced {V = V} t m len h i (replicate n [])
  replicate-IsPlaced zero i = tt
  replicate-IsPlaced (suc n) i = (tt, replicate-IsPlaced n (i + 1))

-- A table of as many empty chains as its height.
pub empty-IsValid {ℓ} :
    {V : Type ℓ} {tbl : Table V}
    → IsMember tbl.key_type
    → 0 < tbl.height
    → tbl.nodes ≡ replicate tbl.height []
    → tbl.node_ttl ≡ 0
    → IsValid tbl × ((p : List ℕ) → view tbl p ≡ none)
unfolding key_len view lookup
empty-IsValid {V} {tbl} known room nodes ttl =
    let (n, e) = member-known tbl.key_type tbl.mem_key_len known in
    (
      record {
        known = ground (arith, e);
        room = room;
        width = rw (nodes, length-replicate {A = Chain V} tbl.height []);
        placed = rw nodes (
            replicate-IsPlaced V tbl.key_type tbl.mem_key_len (key_len tbl) (home tbl) tbl.height
              0);
        counted = rw (nodes, flatten-replicate {A = Node V} tbl.height) ttl;
      },
      λ p. rw (nodes, chain_of-replicate tbl.height (home tbl p)),
    )

-- Creation with a positive height and a member of the enumeration: with no memory there is no
-- table; else the table is valid, stands for the empty map, and counts no node.
pub create-IsValid {ℓ} :
    {V : Type ℓ} (calloc : ℕ → Bool) (height : ℕ) (t : KeyType) (m : ℕ)
    → 0 < height
    → height < 2 ^ 31
    → IsMember t
    → (calloc (header_size + 8 * height) ≡ false → create {V = V} calloc height t m ≡ ok none)
      × (calloc (header_size + 8 * height) ≡ true
          → (tbl : Table V) × (create calloc height t m ≡ ok (some tbl))
            × IsValid tbl
            × ((p : List ℕ) → view tbl p ≡ none)
            × (tbl.node_ttl ≡ 0)
            × (tbl.height ≡ height))
unfolding create create_do block_size inside
create-IsValid {V} calloc height t m pos small known =
    let size : size_of_int height ≡ height = ground arith in
    let block : (header_size + 8 * height) % size_mod ≡ header_size + 8 * height = omega arith in
    let slots : (header_size + 8 * height - header_size) / 8 ≡ height = omega arith in
    let nonzero : (height == 0) ≡ false = ground arith in
    let room : inside (header_size + 8 * height) fields ≡ true = ground arith in
    (
      λ refused. rw (size, block, nonzero, refused),
      λ granted.
          let (v, none_there) =
            empty-IsValid {tbl = new_table height height t m} known pos refl refl in
          (
            new_table height height t m,
            rw (size, block, nonzero, granted, room, slots),
            v,
            none_there,
            refl,
            refl,
          ),
    )

inside_header : (size : ℕ) → inside size fields ≡ leb header_size size
unfolding inside
inside_header size = ground arith

-- The block for a height near 0 that is negative, and for all others
near_block :
    (height : ℕ)
    → height < 2 ^ 32
    → 2 ^ 32 ≤ height + 37
    → block_size (size_of_int height) ≡ header_size - 8 * (2 ^ 32 - height)
unfolding block_size
near_block height small near =
    let size : size_of_int height ≡ height + 2 ^ 64 - 2 ^ 32 = ground arith in rw size (omega arith)

far_block :
    (height : ℕ)
    → height < 2 ^ 32
    → height + 37 < 2 ^ 32
    → header_size ≤ block_size (size_of_int height)
unfolding block_size
far_block height small far = elim (dec_lt height (2 ^ 31)) [
  | yes k ↦ let size : size_of_int height ≡ height = ground arith in rw size (omega arith)
  | no n ↦
      let size : size_of_int height ≡ height + 2 ^ 64 - 2 ^ 32 = ground arith in
      rw size (omega arith)
]

no_fault {ℓ} :
    {V : Type ℓ} (calloc : ℕ → Bool) (height : ℕ) (t : KeyType) (m : ℕ)
    → inside (block_size height) fields ≡ true
    → ¬ (create_do {V = V} calloc height t m ≡ fault)
unfolding create_do
no_fault calloc height t m room e = elim (Bool-cases (height == 0)) [
  | inl none_asked ↦ let z = rw none_asked at e in cc
  | inr nonzero ↦ elim (Bool-cases (calloc (block_size height))) [
    | inl granted ↦ let z = rw (nonzero, granted, room) at e in cc
    | inr refused ↦ let z = rw (nonzero, refused) at e in cc
  ]
]

-- Creation writes outside its block exactly when the height is an `int` between -37 and -1, for which the
-- size of the block wraps round to less than the table's own fields, and `calloc` has a block of that
-- size.
pub create-fault {ℓ} :
    {V : Type ℓ} (calloc : ℕ → Bool) (height : ℕ) (t : KeyType) (m : ℕ)
    → height < 2 ^ 32
    → (create {V = V} calloc height t m ≡ fault)
      ↔ ((2 ^ 32 ≤ height + 37) × (calloc (header_size - 8 * (2 ^ 32 - height)) ≡ true))
unfolding create create_do
create-fault {V} calloc height t m small = elim (dec_lt (height + 37) (2 ^ 32)) [
  | yes far ↦
      let room : inside (block_size (size_of_int height)) fields ≡ true =
        inside_header (block_size (size_of_int height))
        ∙ (let b = far_block height small far in ground arith) in
      (
        (λ e. absurd (no_fault calloc (size_of_int height) t m room e)),
        (λ h. absurd (let n = h.0 in omega arith)),
      )
  | no near ↦
      let b = near_block height small (omega arith) in
      let room : inside (block_size (size_of_int height)) fields ≡ false =
        inside_header (block_size (size_of_int height)) ∙ rw b (ground arith) in
      let nonzero : (size_of_int height == 0) ≡ false = ground arith in
      (
        (λ e. (
          omega arith,
          elim (Bool-cases (calloc (header_size - 8 * (2 ^ 32 - height)))) [
            | inl granted ↦ granted
            | inr refused ↦ let z = rw (nonzero, b, refused) at e in cc
          ],
        )),
        (λ h. rw (nonzero, b, h.1) (rw (← b, room) refl)),
      )
]
