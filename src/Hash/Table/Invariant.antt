-- ===== src/Hash/Table/Invariant.antt =====
-- The invariant of the table, and the map that it stands for.
use utils_c.Base.{
  ℕ, zero, suc, ◌+◌, ◌%◌, ◌<◌, ◌≡◌, ◌≢◌, refl, sym, ap, subst, ◌∙◌, inl, inr, arith, List, [], ◌∷◌,
  length, get_elem?, set, flatten, bytes_eq, bytes_eq→eq, Bool-cases, ok, some_injective, Option,
  none, some, All, get_elem?-in_range,
}
use native.Mathlib.Nat.{add-zero, zero-add}
use utils_c.Hash.Key.{Key, cal_key_len, KeyType}
use utils_c.Hash.Key.Compare.{hashed_bytes, IsKey, cal_key_addr-hashed_bytes}
use utils_c.Hash.Table.{Table, Chain, size_mod, locate}
use utils_c.Hash.Table.Chains.{lookup, node_bytes}

-- The chain `i`: the keys have their sizes, belong there, and are distinct.
module _ {ℓ} {V : Type ℓ} (t : KeyType) (m len : ℕ) (home : List ℕ → ℕ) where
  abbrev pub IsChain : ℕ → Chain V → Type ℓ
  IsChain i [] = Unit
  IsChain i (n ∷ c) =
      IsKey m n.keys
      × (home (node_bytes t len n) ≡ i)
      × (lookup (node_bytes t len) (node_bytes t len n) c ≡ none)
      × IsChain i c

  abbrev pub IsPlaced : ℕ → List (Chain V) → Type ℓ
  IsPlaced i [] = Unit
  IsPlaced i (c ∷ cs) = IsChain i c × IsPlaced (i + 1) cs

  pub IsChain-keys : (i : ℕ) (c : Chain V) → IsChain i c → All (λ n. IsKey m n.keys) c
  IsChain-keys i [] h = tt
  IsChain-keys i (n ∷ c) h = (h.0, IsChain-keys i c h.3)

  -- No other chain has the key.
  pub lookup-foreign :
      (i : ℕ) (c : Chain V) (p : List ℕ)
      → IsChain i c
      → home p ≢ i
      → lookup (node_bytes t len) p c ≡ none
  unfolding lookup
  lookup-foreign i [] p h far = refl
  lookup-foreign i (n ∷ c) p h far = elim (Bool-cases (bytes_eq (node_bytes t len n) p)) [
    | inl same ↦ absurd (far (ap home (sym (bytes_eq→eq _ _ same)) ∙ h.1))
    | inr apart ↦ rw apart (lookup-foreign i c p h.3 far)
  ]

  pub IsPlaced-get :
      (i j : ℕ) (cs : List (Chain V)) {c : Chain V}
      → IsPlaced i cs
      → get_elem? cs j ≡ some c
      → IsChain (i + j) c
  IsPlaced-get i j [] h e = absurd (cc)
  IsPlaced-get i zero (c ∷ cs) h e = subst (IsChain (i + 0)) (some_injective e) (rw add-zero h.0)
  IsPlaced-get i (suc j) (c ∷ cs) h e =
      let shift : i + suc j ≡ i + 1 + j = omega arith in rw shift (IsPlaced-get (i + 1) j cs h.1 e)

  pub IsPlaced-set :
      (i j : ℕ) (cs : List (Chain V)) (c : Chain V)
      → IsPlaced i cs
      → IsChain (i + j) c
      → IsPlaced i (set cs j c)
  IsPlaced-set i j [] d h k = tt
  IsPlaced-set i zero (c ∷ cs) d h k = (rw add-zero at k, h.1)
  IsPlaced-set i (suc j) (c ∷ cs) d h k =
      let shift : i + suc j ≡ i + 1 + j = omega arith in
      (h.0, IsPlaced-set (i + 1) j cs d h.1 (rw shift at k))

-- The length of a key, or 0 for a type that is no member of the enumeration.
unfoldable pub key_len {ℓ} : {V : Type ℓ} → Table V → ℕ
key_len tbl = elim (cal_key_len tbl.key_type tbl.mem_key_len) [ ok n ↦ n | _ ↦ 0 ]

abbrev pub home {ℓ} : {V : Type ℓ} → Table V → List ℕ → ℕ
home tbl p = tbl.hash_cal_fun p % tbl.height

abbrev pub chain_or_nil {ℓ} : {V : Type ℓ} → Option (Chain V) → Chain V
chain_or_nil none = []
chain_or_nil (some c) = c

-- The bytes that stand for a key of the table.
abbrev pub key_bytes {ℓ} : {V : Type ℓ} → Table V → Key → List ℕ
key_bytes tbl k = hashed_bytes tbl.key_type (key_len tbl) k

-- The map from the bytes of keys to values.
unfoldable pub view {ℓ} : {V : Type ℓ} → Table V → List ℕ → Option V
view tbl p =
    lookup (node_bytes tbl.key_type (key_len tbl)) p
      (chain_or_nil (get_elem? tbl.nodes (home tbl p)))

pub record IsValid {ℓ} {V : Type ℓ} (tbl : Table V) : Type ℓ where
  pub known : cal_key_len tbl.key_type tbl.mem_key_len ≡ ok (key_len tbl)
  pub room : 0 < tbl.height
  pub width : length tbl.nodes ≡ tbl.height
  pub placed : IsPlaced tbl.key_type tbl.mem_key_len (key_len tbl) (home tbl) 0 tbl.nodes
  pub counted : tbl.node_ttl ≡ length (flatten tbl.nodes) % size_mod

module _ {ℓ} {V : Type ℓ} {tbl : Table V} (v : IsValid tbl) where
  pub home-lt : (p : List ℕ) → home tbl p < length tbl.nodes
  home-lt p = omega (arith, v.room, v.width)

  pub home_chain : (p : List ℕ) → (c : Chain V) × (get_elem? tbl.nodes (home tbl p) ≡ some c)
  home_chain p = get_elem?-in_range tbl.nodes (home tbl p) (home-lt p)

  pub home_chain-IsChain :
      (p : List ℕ) {c : Chain V}
      → get_elem? tbl.nodes (home tbl p) ≡ some c
      → IsChain tbl.key_type tbl.mem_key_len (key_len tbl) (home tbl) (home tbl p) c
  home_chain-IsChain p e =
      let placed = IsPlaced-get _ _ _ (home tbl) 0 (home tbl p) tbl.nodes v.placed e in
      rw zero-add at placed

  -- Every operation finds the chain of its key.
  pub locate-home :
      (k : Key) {c : Chain V}
      → get_elem? tbl.nodes (home tbl (key_bytes tbl k)) ≡ some c
      → locate tbl k ≡ ok (key_len tbl, home tbl (key_bytes tbl k), c)
  unfolding locate
  locate-home k e =
      let (bs, addr, same) =
        cal_key_addr-hashed_bytes tbl.key_type tbl.mem_key_len (key_len tbl) k v.known in
      rw (v.known, addr, same) (ground (arith, v.room))
