-- ===== src/Hash/Table/Writes.antt =====
-- What replacing, unlinking and adding a node does to a chain, and a new chain to the table.
use utils_c.Base.{
  ℕ, suc, ◌+◌, ◌≡◌, refl, sym, ap, ◌∙◌, inl, inr, false, arith, List, [], ◌∷◌, length, bytes_eq,
  bytes_eq→eq, bytes_eq_comm, subst, if◌then◌else◌, Bool-cases, Option, none, some,
}
use utils_c.Hash.Key.{KeyType}
use utils_c.Hash.Key.Compare.{IsKey}
use utils_c.Hash.Table.{Node, Chain, behind}
use utils_c.Hash.Table.Chains.{lookup, replace, unlink, node_bytes}
use utils_c.Hash.Table.Invariant.{IsChain}

module _ {ℓ} {V : Type ℓ} (t : KeyType) (m len : ℕ) (home : List ℕ → ℕ) (i : ℕ) (q : List ℕ) where
  -- `c'` is a chain that reads as `c` but for `v` at `q`.
  pub record Becomes (c : Chain V) (v : Option V) (c' : Chain V) : Type ℓ where
    pub chain : IsChain t m len home i c'
    pub reads :
        (p : List ℕ)
        → lookup (node_bytes t len) p c'
          ≡ (if bytes_eq q p then v else lookup (node_bytes t len) p c)

  -- The same holds behind a node with another key.
  behind-Becomes :
      (n : Node V) (c : Chain V) (v : Option V) (c' : Chain V)
      → bytes_eq (node_bytes t len n) q ≡ false
      → IsChain t m len home i (n ∷ c)
      → Becomes c v c'
      → Becomes (n ∷ c) v (n ∷ c')
  unfolding lookup
  behind-Becomes n c v c' apart h b = record {
    chain = (
      h.0,
      h.1,
      b.reads (node_bytes t len n) ∙ rw (bytes_eq_comm q (node_bytes t len n), apart) h.2,
      b.chain,
    );
    reads = λ p. elim (Bool-cases (bytes_eq q p)) [
      | inl same ↦
          let far =
            subst (λ r. bytes_eq (node_bytes t len n) r ≡ false) (bytes_eq→eq q p same) apart in
          rw (far, b.reads p)
      | inr other ↦ rw (other, b.reads p, other)
    ];
  }

  abbrev pub Outcome : Chain V → Option V → Option (V × Chain V) → Type ℓ
  Outcome c v none = lookup (node_bytes t len) q c ≡ none
  Outcome c v (some (x, c')) = (lookup (node_bytes t len) q c ≡ some x) × Becomes c v c'

  behind-Outcome :
      (n : Node V) (c : Chain V) (v : Option V) (r : Option (V × Chain V))
      → bytes_eq (node_bytes t len n) q ≡ false
      → IsChain t m len home i (n ∷ c)
      → Outcome c v r
      → Outcome (n ∷ c) v (behind n r)
  unfolding lookup
  behind-Outcome n c v none apart h o = rw (apart, o)
  behind-Outcome n c v (some (x, c')) apart h o =
      (rw (apart, o.0), behind-Becomes n c v c' apart h o.1)

  -- Replacing tells whether the key was there, and then writes the value at it.
  pub replace-Outcome :
      (c : Chain V) (v : V)
      → IsChain t m len home i c
      → Outcome c (some v) (replace (node_bytes t len) q v c)
  unfolding replace lookup
  replace-Outcome [] v h = refl
  replace-Outcome (n ∷ c) v h = elim (Bool-cases (bytes_eq (node_bytes t len n) q)) [
    | inl same ↦ rw same (
      rw same,
      record {
        chain = h;
        reads =
            λ p. ground (arith, ap (λ r. bytes_eq r p) (bytes_eq→eq (node_bytes t len n) q same));
      },
    )
    | inr apart ↦ rw apart (behind-Outcome n c (some v) _ apart h (replace-Outcome c v h.3))
  ]

  unlinked_reads :
      (p : List ℕ) (n : Node V) (c : Chain V)
      → lookup (node_bytes t len) (node_bytes t len n) c ≡ none
      → lookup (node_bytes t len) p c
        ≡ (if bytes_eq (node_bytes t len n) p then none else lookup (node_bytes t len) p (n ∷ c))
  unfolding lookup
  unlinked_reads p n c fresh = elim (Bool-cases (bytes_eq (node_bytes t len n) p)) [
    | inl hit ↦ rw hit (
        subst (λ r. lookup (node_bytes t len) r c ≡ none) (bytes_eq→eq (node_bytes t len n) p hit)
          fresh)
    | inr miss ↦ rw miss
  ]

  -- Unlinking tells whether the key was there, and then takes it out.
  pub unlink-Outcome :
      (c : Chain V) → IsChain t m len home i c → Outcome c none (unlink (node_bytes t len) q c)
  unfolding unlink lookup
  unlink-Outcome [] h = refl
  unlink-Outcome (n ∷ c) h = elim (Bool-cases (bytes_eq (node_bytes t len n) q)) [
    | inl same ↦ rw same (
      rw same,
      record {
        chain = h.3;
        reads = λ p.
            rw (ap (λ r. bytes_eq r p) (sym (bytes_eq→eq (node_bytes t len n) q same)))
              (unlinked_reads p n c h.2);
      },
    )
    | inr apart ↦ rw apart (behind-Outcome n c none _ apart h (unlink-Outcome c h.3))
  ]

  -- A new node at the head of a chain that does not have its key.
  pub cons-Becomes :
      (c : Chain V) (n : Node V)
      → IsChain t m len home i c
      → IsKey m n.keys
      → home q ≡ i
      → node_bytes t len n ≡ q
      → lookup (node_bytes t len) q c ≡ none
      → Becomes c (some n.val) (n ∷ c)
  unfolding lookup
  cons-Becomes c n h k at e fresh = record {
    chain = (k, rw e at, rw e fresh, h);
    reads = λ p. rw e;
  }

-- How many nodes the loops leave.
module _ {ℓ} {V : Type ℓ} where
  abbrev pub Leaves : ℕ → ℕ → Option (V × Chain V) → Type 0
  Leaves gone total none = Unit
  Leaves gone total (some (x, c)) = length c + gone ≡ total

  behind-Leaves :
      (n : Node V) (gone total : ℕ) (r : Option (V × Chain V))
      → Leaves gone total r
      → Leaves gone (suc total) (behind n r)
  behind-Leaves n gone total none h = tt
  behind-Leaves n gone total (some (x, c)) h = omega arith

  module _ (kb : Node V → List ℕ) (q : List ℕ) where
    pub replace-Leaves : (c : Chain V) (v : V) → Leaves 0 (length c) (replace kb q v c)
    unfolding replace
    replace-Leaves [] v = tt
    replace-Leaves (n ∷ c) v = elim (Bool-cases (bytes_eq (kb n) q)) [
      | inl same ↦ rw same (omega arith)
      | inr apart ↦ rw apart (behind-Leaves n 0 (length c) _ (replace-Leaves c v))
    ]

    pub unlink-Leaves : (c : Chain V) → Leaves 1 (length c) (unlink kb q c)
    unfolding unlink
    unlink-Leaves [] = tt
    unlink-Leaves (n ∷ c) = elim (Bool-cases (bytes_eq (kb n) q)) [
      | inl same ↦ rw same (omega arith)
      | inr apart ↦ rw apart (behind-Leaves n 1 (length c) _ (unlink-Leaves c))
    ]
