-- ===== src/Hash/Walk/Random.antt =====
-- The node that `uc_hash_random_node` picks.
use native.Mathlib.Decide.{dec_lt}
use utils_c.Base.{
  ℕ, zero, suc, ◌+◌, ◌-◌, ◌%◌, ◌<◌, ◌≤◌, ◌≡◌, ◌≢◌, refl, ◌∙◌, ◌⊎◌, inl, inr, false, arith, List, [],
  ◌∷◌, length, get_elem?, flatten, Bool-cases, ==_iff, some_injective, ◌==◌, Run, ok, Option, none,
  some, get_elem?-in_range,
}
use utils_c.Hash.Table.{Table, Node, Chain, at}
use utils_c.Hash.Table.Invariant.{IsValid}
use utils_c.Hash.Walk.{walk, pick, random_up, random_down, random_node}

module _ {ℓ} {V : Type ℓ} where
  walk-get_elem? :
      (c : Chain V) (i : ℕ)
      → i < length c
      → (n : Node V) × (walk i c ≡ ok n) × (get_elem? c i ≡ some n)
  unfolding walk
  walk-get_elem? [] i h = absurd (omega arith)
  walk-get_elem? (n ∷ c) zero h = (n, refl, refl)
  walk-get_elem? (n ∷ c) (suc i) h = walk-get_elem? c i (omega arith)

  -- A node of the chain `i`, at the place that the random number has in its length.
  pub record Picks (r : ℕ) (nodes : List (Chain V)) (result : Run (Option (Node V))) : Type ℓ where
    pub index : ℕ
    pub chain : Chain V
    pub node : Node V
    pub stands : get_elem? nodes index ≡ some chain
    pub place : get_elem? chain (r % length chain) ≡ some node
    pub returned : result ≡ ok (some node)

  module _ (r : ℕ) (nodes : List (Chain V)) where
    pick-Picks :
        (i : ℕ) (n : Node V) (c : Chain V)
        → get_elem? nodes i ≡ some (n ∷ c)
        → Picks r nodes (pick r (n ∷ c))
    unfolding pick
    pick-Picks i n c e =
        let (x, walked, here) = walk-get_elem? (n ∷ c) (r % length (n ∷ c)) (omega arith) in
        record {
          index = i;
          chain = n ∷ c;
          node = x;
          stands = e;
          place = here;
          returned = ground (arith, walked);
        }

    IsNil : ℕ → ℕ → Type ℓ
    IsNil from to = (i : ℕ) → from ≤ i → i < to → get_elem? nodes i ≡ some []

    -- One more empty chain, below or above a range of them.
    IsNil-add :
        (from to k : ℕ)
        → get_elem? nodes k ≡ some []
        → IsNil from to
        → (j : ℕ) → (j ≢ k → (from ≤ j) × (j < to))
        → get_elem? nodes j ≡ some []
    unfolding IsNil
    IsNil-add from to k e nil j inside = elim (Bool-cases (j == k)) [
      | inl s ↦ let same : j ≡ k = (==_iff j k).0 s in rw same e
      | inr a ↦
          let apart : j ≢ k = λ s. cc ((==_iff j k).1 s) in nil j (inside apart).0 (inside apart).1
    ]

    abbrev Tries : Run (Option (Node V)) → ℕ → ℕ → Type ℓ
    Tries result from to = Picks r nodes result ⊎ ((result ≡ ok none) × IsNil from to)

    random_up_step :
        (m i : ℕ) (c : Chain V)
        → get_elem? nodes i ≡ some c
        → Tries (random_up r m (i + 1) nodes) (i + 1) (i + 1 + m)
        → Tries (random_up r (suc m) i nodes) i (i + suc m)
    unfolding random_up IsNil
    random_up_step m i (n ∷ c) e tries = inl (rw (at, e) (pick-Picks i n c e))
    random_up_step m i [] e (inl found) = inl (rw (at, e) found)
    random_up_step m i [] e (inr (missed, nil)) =
        inr (rw (at, e) missed, λ j p q. IsNil-add (i + 1) (i + 1 + m) i e nil j (λ a. omega arith))

    random_up-Picks : (m i : ℕ) → i + m ≤ length nodes → Tries (random_up r m i nodes) i (i + m)
    unfolding random_up IsNil
    random_up-Picks zero i h = inr (refl, λ j p q. absurd (omega arith))
    random_up-Picks (suc m) i h =
        let (c, e) = get_elem?-in_range nodes i (omega arith) in
        random_up_step m i c e (random_up-Picks m (i + 1) (omega arith))

    random_down_step :
        (i : ℕ) (c : Chain V)
        → get_elem? nodes i ≡ some c
        → Tries (random_down r i nodes) 0 i
        → Tries (random_down r (suc i) nodes) 0 (suc i)
    unfolding random_down IsNil
    random_down_step i (n ∷ c) e tries = inl (rw (at, e) (pick-Picks i n c e))
    random_down_step i [] e (inl found) = inl (rw (at, e) found)
    random_down_step i [] e (inr (missed, nil)) =
        inr (rw (at, e) missed, λ j p q. IsNil-add 0 i i e nil j (λ a. omega arith))

    random_down-Picks : (i : ℕ) → i ≤ length nodes → Tries (random_down r i nodes) 0 i
    unfolding random_down IsNil
    random_down-Picks zero h = inr (refl, λ j p q. absurd (omega arith))
    random_down-Picks (suc i) h =
        let (c, e) = get_elem?-in_range nodes i (omega arith) in
        random_down_step i c e (random_down-Picks i (omega arith))

  flatten-nil :
      (nodes : List (Chain V))
      → ((i : ℕ) → i < length nodes → get_elem? nodes i ≡ some [])
      → flatten nodes ≡ []
  flatten-nil [] h = refl
  flatten-nil (c ∷ cs) h =
      let first : c ≡ [] = some_injective (h 0 (omega arith)) in
      rw first (flatten-nil cs (λ i p. h (suc i) (omega arith)))

  module _ {tbl : Table V} (v : IsValid tbl) (r : ℕ) where
    random_filled :
        tbl.node_ttl ≢ 0
        → (up : Tries r tbl.nodes
            (random_up r (tbl.height - r % tbl.height) (r % tbl.height) tbl.nodes)
            (r % tbl.height)
            (r % tbl.height + (tbl.height - r % tbl.height)))
        → (down : Tries r tbl.nodes (random_down r (r % tbl.height) tbl.nodes) 0 (r % tbl.height))
        → Picks r tbl.nodes (random_node tbl r)
    unfolding random_node IsNil
    random_filled filled (inl p) down =
        let room : (tbl.height == 0) ≡ false = ground (arith, v.room) in
        let some_there : (tbl.node_ttl == 0) ≡ false = ground arith in
        record {
          index = p.index;
          chain = p.chain;
          node = p.node;
          stands = p.stands;
          place = p.place;
          returned = rw (some_there, room, p.returned);
        }
    random_filled filled (inr (missed, above)) (inl p) =
        let room : (tbl.height == 0) ≡ false = ground (arith, v.room) in
        let some_there : (tbl.node_ttl == 0) ≡ false = ground arith in
        record {
          index = p.index;
          chain = p.chain;
          node = p.node;
          stands = p.stands;
          place = p.place;
          returned = rw (some_there, room, missed) p.returned;
        }
    random_filled filled (inr (missed, above)) (inr (nowhere, below)) =
        let empty = flatten-nil tbl.nodes (λ i p. elim (dec_lt i (r % tbl.height)) [
          | yes low ↦ below i (omega arith) low
          | no high ↦ above i (omega arith) (omega (arith, v.width))
        ]) in
        absurd (filled (v.counted ∙ rw empty))

    -- In a valid table that counts some node, a random number picks a node that is in the table:
    -- that at its remainder by the length of some chain.
    pub random_node-Picks : tbl.node_ttl ≢ 0 → Picks r tbl.nodes (random_node tbl r)
    random_node-Picks filled =
        let inside : r % tbl.height < tbl.height = omega (arith, v.room) in
        random_filled filled (random_up-Picks r tbl.nodes _ _ (omega (arith, v.width)))
          (random_down-Picks r tbl.nodes _ (omega (arith, v.width)))
