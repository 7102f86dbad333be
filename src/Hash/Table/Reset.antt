-- ===== src/Hash/Table/Reset.antt =====
-- Emptying a table, and freeing it.
use utils_c.Base.{
  ℕ, ◌+◌, ◌%◌, ◌≡◌, refl, ap, arith, List, [], ◌∷◌, length, flatten, ok, none, done, map, ◌++◌,
}
use utils_c.Hash.Table.{Table, Chain, size_mod}
use utils_c.Hash.Table.Invariant.{view, IsValid}
use utils_c.Base.{replicate, get_elem?-append_here, set-append_here, append_assoc, length-append}
use mathlib.Core.List.{map-append}
use utils_c.Hash.Key.Compare.{known-member}
use utils_c.Hash.Table.{at, reset, reset_loop, free, free_chain, decrement}
use utils_c.Hash.Table.Create.{empty-IsValid}

abbrev pub values {ℓ} : {V : Type ℓ} → Chain V → List V
values = map (λ n. n.val)

module _ {ℓ} {V : Type ℓ} where
  free_chain-left :
      (c : Chain V) (ttl rest : ℕ)
      → ttl ≡ (length c + rest) % size_mod
      → ((free_chain ttl c).0 ≡ rest % size_mod) × ((free_chain ttl c).1 ≡ values c)
  unfolding free_chain
  free_chain-left [] ttl rest h = (omega arith, refl)
  free_chain-left (n ∷ c) ttl rest h =
      let (left, freed) = free_chain-left c (decrement ttl) rest (omega arith) in
      (left, ap (◌∷◌ n.val) freed)

  -- The table with these chains, and its count.
  abbrev holding : Table V → ℕ → List (Chain V) → Table V
  holding tbl ttl nodes = record tbl { node_ttl = ttl; nodes = nodes }

  reset_loop-values :
      (before rest : List (Chain V)) (more ttl : ℕ) (tbl : Table V)
      → ttl ≡ (length (flatten rest) + more) % size_mod
      → reset_loop (length rest) (length before) (holding tbl ttl (before ++ rest))
        ≡ ok (
          values (flatten rest),
          holding tbl (more % size_mod) (before ++ replicate (length rest) []),
        )
  unfolding reset_loop
  reset_loop-values before [] more ttl tbl h =
      let none_left : ttl ≡ more % size_mod = omega arith in rw none_left
  reset_loop-values before (c ∷ rest) more ttl tbl h =
      let counts : ttl ≡ (length c + (length (flatten rest) + more)) % size_mod =
        omega (arith, length-append c (flatten rest)) in
      let (left, freed) = free_chain-left c ttl (length (flatten rest) + more) counts in
      let ih = reset_loop-values (before ++ [] ∷ []) rest more _ tbl refl in
      let next = rw (length-append before ([] ∷ []), append_assoc, append_assoc) at ih in
      rw (
        at,
        get_elem?-append_here before c rest,
        set-append_here before c [] rest,
        left,
        freed,
        next,
        map-append,
      )

module _ {ℓ} {V : Type ℓ} {tbl : Table V} (v : IsValid tbl) where
  emptied : Table V
  emptied = holding tbl 0 (replicate tbl.height [])

  reset_loop-emptied : reset_loop tbl.height 0 tbl ≡ ok (values (flatten tbl.nodes), emptied)
  unfolding emptied
  reset_loop-emptied =
      let run = reset_loop-values [] tbl.nodes 0 tbl.node_ttl tbl (omega (arith, v.counted)) in
      rw v.width at run

  -- Resetting a valid table succeeds: it frees the value of each node once, in the order of the
  -- chains, and leaves a valid table with no node, which stands for the empty map.
  pub reset-values :
      (tbl' : Table V) × (reset tbl ≡ ok (done, values (flatten tbl.nodes), tbl'))
      × IsValid tbl'
      × ((p : List ℕ) → view tbl' p ≡ none)
      × (tbl'.node_ttl ≡ 0)
  unfolding reset emptied
  reset-values =
      let (valid, none_left) =
        empty-IsValid {tbl = holding tbl 0 (replicate tbl.height [])}
          (known-member tbl.key_type _ _ v.known) v.room refl refl in
      (emptied, rw (reset_loop-emptied), valid, none_left, refl)

  -- Freeing a valid table frees the same values.
  free-values : free tbl ≡ ok (values (flatten tbl.nodes))
  unfolding free
  free-values = rw reset-values.1
