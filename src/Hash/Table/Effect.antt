-- ===== src/Hash/Table/Effect.antt =====
-- What a new chain does to the table, and the map that the table stands for.
use native.Mathlib.Nat.{zero-add}
use utils_c.Base.{
  ℕ, ◌%◌, ◌≡◌, refl, ap, ◌∙◌, inl, inr, false, List, length, get_elem?, set, flatten, bytes_eq,
  bytes_eq→eq, ◌==◌, ==_iff, if◌then◌else◌, Bool-cases, Option, some, length-set, get_elem?-set,
}
use utils_c.Hash.Table.{Table, Chain, size_mod}
use utils_c.Hash.Table.Chains.{lookup, node_bytes}
use utils_c.Hash.Table.Invariant.{IsPlaced-set, key_len, home, view, IsValid, home-lt}
use utils_c.Hash.Table.Writes.{Becomes}

-- The table with another chain in place of the one of the key `k`.
abbrev pub with_chain {ℓ} : {V : Type ℓ} → Table V → ℕ → List ℕ → Chain V → Table V
with_chain tbl ttl q c = record tbl { node_ttl = ttl; nodes = set tbl.nodes (home tbl q) c }

-- `tbl'` is a valid table that reads as `tbl` but for `v` at `q`.
pub record Writes {ℓ} {V : Type ℓ} (tbl : Table V) (q : List ℕ) (v : Option V) (tbl' : Table V)
    : Type ℓ where
  pub valid : IsValid tbl'
  pub reads : (p : List ℕ) → view tbl' p ≡ (if bytes_eq q p then v else view tbl p)
  pub same_key_type : tbl'.key_type ≡ tbl.key_type
  pub same_mem_key_len : tbl'.mem_key_len ≡ tbl.mem_key_len

module _ {ℓ} {V : Type ℓ} {tbl : Table V} (v : IsValid tbl) (q : List ℕ) {c : Chain V}
    (at : get_elem? tbl.nodes (home tbl q) ≡ some c) where
  elsewhere : (p : List ℕ) → (home tbl q == home tbl p) ≡ false → bytes_eq q p ≡ false
  elsewhere p far = elim (Bool-cases (bytes_eq q p)) [
    | inl same ↦
        let near : home tbl q ≡ home tbl p = ap (home tbl) (bytes_eq→eq q p same) in
        cc ((==_iff _ _).1 near)
    | inr apart ↦ apart
  ]

  view-with_chain :
      (ttl : ℕ) (x : Option V) (c' : Chain V)
      → Becomes tbl.key_type tbl.mem_key_len (key_len tbl) (home tbl) (home tbl q) q c x c'
      → (p : List ℕ) → view (with_chain tbl ttl q c') p ≡ (if bytes_eq q p then x else view tbl p)
  unfolding view key_len
  view-with_chain ttl x c' b p = elim (Bool-cases (home tbl q == home tbl p)) [
    | inl near ↦
        rw
          (
            get_elem?-set tbl.nodes (home tbl q) (home tbl p) c' (home-lt v q),
            near,
            ← (==_iff _ _).0 near,
            at,
          )
          (b.reads p)
    | inr far ↦
        rw
          (get_elem?-set tbl.nodes (home tbl q) (home tbl p) c' (home-lt v q), far, elsewhere p far)
          refl
  ]

  pub with_chain-Writes :
      (ttl : ℕ) (x : Option V) (c' : Chain V)
      → Becomes tbl.key_type tbl.mem_key_len (key_len tbl) (home tbl) (home tbl q) q c x c'
      → ttl ≡ length (flatten (set tbl.nodes (home tbl q) c')) % size_mod
      → Writes tbl q x (with_chain tbl ttl q c')
  unfolding key_len
  with_chain-Writes ttl x c' b count = record {
    valid = record {
      known = v.known;
      room = v.room;
      width = length-set tbl.nodes (home tbl q) c' ∙ v.width;
      placed =
          IsPlaced-set _ _ _ (home tbl) 0 (home tbl q) tbl.nodes c' v.placed (rw zero-add b.chain);
      counted = count;
    };
    reads = view-with_chain ttl x c' b;
    same_key_type = refl;
    same_mem_key_len = refl;
  }

  pub view-lookup : view tbl q ≡ lookup (node_bytes tbl.key_type (key_len tbl)) q c
  unfolding view
  view-lookup = rw at
