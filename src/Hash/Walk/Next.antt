-- ===== src/Hash/Walk/Next.antt =====
-- The order in which `next` goes through a table.
use native.Mathlib.Nat.{zero-add}
use utils_c.Base.{
  ℕ, zero, suc, ◌+◌, ◌-◌, ◌≤◌, ◌≡◌, refl, ap, ◌⊎◌, inl, inr, false, arith, List, [], ◌∷◌, length,
  get_elem?, flatten, bytes_eq, bytes_eq_self, bytes_eq_comm, ok, ◌>>=◌, Option, none, some, ◌++◌,
}
use utils_c.Hash.Key.{KeyType, Key, cal_key_len}
use utils_c.Hash.Key.Compare.{IsKey, hashed_bytes, key_compare-bytes_eq}
use utils_c.Hash.Table.{Table, Node, Chain}
use utils_c.Hash.Table.Chains.{lookup, node_bytes}
use utils_c.Hash.Table.Invariant.{IsChain, key_len, home, key_bytes, IsValid}
use mathlib.Core.List.{append_assoc}
use utils_c.Base.{if◌then◌else◌, All, length-append, get_elem?-append_here}
use utils_c.Hash.Table.{at}
use utils_c.Hash.Walk.{next, next_node, first_node, follow, visit, visit_loop, after_loop}
use utils_c.Hash.Table.Invariant.{locate-home, IsChain-keys, IsPlaced-get}

abbrev pub head? {ℓ} : {A : Type ℓ} → List A → Option A
head? [] = none
head? (x ∷ xs) = some x

module _ {ℓ} {V : Type ℓ} (kb : Node V → List ℕ) (q : List ℕ) where
  after : Chain V → Option (Chain V)
  after [] = none
  after (n ∷ c) = if bytes_eq (kb n) q then some c else after c

module _ {ℓ} {V : Type ℓ} (t : KeyType) {m len : ℕ} (e : cal_key_len t m ≡ ok len) {key : Key}
    (k : IsKey m key) where
  after_loop-after :
      (c : Chain V)
      → All (λ n. IsKey m n.keys) c
      → after_loop t len c key ≡ ok (after (node_bytes t len) (hashed_bytes t len key) c)
  unfolding after_loop after
  after_loop-after [] h = refl
  after_loop-after (n ∷ c) h =
      ground (arith, key_compare-bytes_eq h.0 k t len e, after_loop-after c h.1)

module _ {ℓ} {A : Type ℓ} where
  append_split :
      (xs ys zs : List A) (x : A) (ws : List A)
      → xs ++ ys ≡ zs ++ x ∷ ws
      → ((b : List A) × (xs ≡ zs ++ x ∷ b) × (ws ≡ b ++ ys))
        ⊎ ((b : List A) × (zs ≡ xs ++ b) × (ys ≡ b ++ x ∷ ws))
  append_split [] ys zs x ws e = inr (zs, refl, e)
  append_split (y ∷ xs) ys [] x ws e = inl (xs, cc, cc)
  append_split (y ∷ xs) ys (z ∷ zs) x ws e =
      let tails : xs ++ ys ≡ zs ++ x ∷ ws = cc in
      let heads : y ≡ z = cc in
      elim (append_split xs ys zs x ws tails) [
        | inl (b, p, q) ↦ inl (b, cc, q)
        | inr (b, p, q) ↦ inr (b, cc, q)
      ]

  -- Where a node of the flattened table stands.
  abbrev Stands : List (List A) → A → List A → Type ℓ
  Stands xss x ws =
      (pre : List (List A)) × (a b : List A) × (post : List (List A)) × (xss
        ≡ pre ++ (a ++ x ∷ b) ∷ post)
      × (ws ≡ b ++ flatten post)

  flatten_split :
      (xss : List (List A)) (zs : List A) (x : A) (ws : List A)
      → flatten xss ≡ zs ++ x ∷ ws
      → Stands xss x ws
  flatten_split [] [] x ws e = cc
  flatten_split [] (z ∷ zs) x ws e = cc
  flatten_split (xs ∷ xss) zs x ws e = elim (append_split xs (flatten xss) zs x ws e) [
    | inl (b, p, q) ↦ ([], zs, b, xss, rw p, q)
    | inr (b, p, q) ↦
        let (pre, a, b', post, stands, rest) = flatten_split xss b x ws q in
        (xs ∷ pre, a, b', post, rw stands, rest)
  ]

module _ {ℓ} {V : Type ℓ} where
  first_node-head? :
      (pre rest : List (Chain V))
      → first_node (length rest) (length pre) (pre ++ rest) ≡ ok (head? (flatten rest))
  unfolding first_node
  first_node-head? pre [] = refl
  first_node-head? pre ([] ∷ rest) =
      let ih = first_node-head? (pre ++ [] ∷ []) rest in
      let next = rw (length-append pre ([] ∷ []), append_assoc) at ih in
      rw (at, get_elem?-append_here pre [] rest) next
  first_node-head? pre ((n ∷ c) ∷ rest) = rw (at, get_elem?-append_here pre (n ∷ c) rest)

  module _ (t : KeyType) (m len : ℕ) (home : List ℕ → ℕ) (i : ℕ) (n : Node V) (b : Chain V) where
    lookup-split :
        (a : Chain V) (q : List ℕ)
        → lookup (node_bytes t len) q (a ++ n ∷ b) ≡ none
        → bytes_eq (node_bytes t len n) q ≡ false
    unfolding lookup
    lookup-split [] q h = ground arith
    lookup-split (x ∷ a) q h = ground (arith, lookup-split a q)

    after-split :
        (a : Chain V)
        → IsChain t m len home i (a ++ n ∷ b)
        → (after (node_bytes t len) (node_bytes t len n) (a ++ n ∷ b) ≡ some b)
          × (home (node_bytes t len n) ≡ i)
          × IsKey m n.keys
    unfolding after
    after-split [] h = (rw bytes_eq_self, h.1, h.0)
    after-split (x ∷ a) h =
        let apart = lookup-split a (node_bytes t len x) h.2 in
        let (follows, at_home, sized) = after-split a h.3 in
        (rw (bytes_eq_comm (node_bytes t len x), apart) follows, at_home, sized)

module _ {ℓ} {V : Type ℓ} {tbl : Table V} (v : IsValid tbl) where
  follow-stands :
      (pre : List (Chain V)) (c : Chain V) (post : List (Chain V)) (b : Chain V)
      → tbl.nodes ≡ pre ++ c ∷ post
      → follow tbl (length pre) b ≡ ok (head? (b ++ flatten post))
  unfolding follow
  follow-stands pre c post (x ∷ b) e = refl
  follow-stands pre c post [] e =
      let total = length-append pre (c ∷ post) in
      let left : tbl.height - (length pre + 1) ≡ length post =
        omega (arith, v.width, ap length e, total) in
      let rest = first_node-head? (pre ++ c ∷ []) post in
      let run = rw (length-append pre (c ∷ []), append_assoc) at rest in rw (left, e) run

  next-stands :
      (pre : List (Chain V)) (a : Chain V) (n : Node V) (b : Chain V) (post : List (Chain V))
      → tbl.nodes ≡ pre ++ (a ++ n ∷ b) ∷ post
      → next tbl (some n.keys) ≡ ok (head? (b ++ flatten post))
  unfolding next next_node
  next-stands pre a n b post e =
      let here : get_elem? tbl.nodes (length pre) ≡ some (a ++ n ∷ b) =
        rw e (get_elem?-append_here pre (a ++ n ∷ b) post) in
      let chain =
        IsPlaced-get tbl.key_type tbl.mem_key_len (key_len tbl) (home tbl) 0 (length pre) tbl.nodes
          v.placed here in
      let kept = rw zero-add at chain in
      let (follows, at_home, sized) =
        after-split tbl.key_type tbl.mem_key_len (key_len tbl) (home tbl) (length pre) n b a kept in
      let there : get_elem? tbl.nodes (home tbl (key_bytes tbl n.keys)) ≡ some (a ++ n ∷ b) =
        rw at_home here in
      let loop =
        after_loop-after tbl.key_type v.known sized (a ++ n ∷ b) (
          IsChain-keys tbl.key_type tbl.mem_key_len (key_len tbl) (home tbl) (length pre) _ kept) in
      rw (locate-home v n.keys there, ◌>>=◌, loop, follows, at_home)
        (follow-stands pre (a ++ n ∷ b) post b e)

  -- In a valid table, `next` at the key of a node returns the node behind it in the order of the
  -- chains, and the null pointer at the last one.
  pub next-flatten :
      (zs : List (Node V)) (n : Node V) (ws : List (Node V))
      → flatten tbl.nodes ≡ zs ++ n ∷ ws
      → next tbl (some n.keys) ≡ ok (head? ws)
  next-flatten zs n ws e =
      let (pre, a, b, post, stands, rest) = flatten_split tbl.nodes zs n ws e in
      rw rest (next-stands pre a n b post stands)

  pub next-first : next tbl none ≡ ok (head? (flatten tbl.nodes))
  unfolding next
  next-first = rw (← v.width) (first_node-head? [] tbl.nodes)

  visit_loop-flatten :
      (zs ws : List (Node V)) (fuel : ℕ)
      → flatten tbl.nodes ≡ zs ++ ws
      → length ws ≤ fuel
      → visit_loop fuel tbl (head? ws) ≡ ok (some ws)
  unfolding visit_loop
  visit_loop-flatten zs [] zero e h = refl
  visit_loop-flatten zs [] (suc fuel) e h = refl
  visit_loop-flatten zs (n ∷ ws) zero e h = absurd (omega arith)
  visit_loop-flatten zs (n ∷ ws) (suc fuel) e h = rw (
    next-flatten zs n ws e,
    ◌>>=◌,
    visit_loop-flatten (zs ++ n ∷ []) ws fuel (rw append_assoc e) (omega arith),
  )

  -- In a valid table, with as much fuel as there are nodes, going from node to node by `next` ends
  -- and meets every node exactly once, in the order of the chains.
  pub visit-flatten :
      (fuel : ℕ)
      → length (flatten tbl.nodes) ≤ fuel
      → visit fuel tbl ≡ ok (some (flatten tbl.nodes))
  unfolding visit
  visit-flatten fuel h = rw next-first (visit_loop-flatten [] (flatten tbl.nodes) fuel refl h)
