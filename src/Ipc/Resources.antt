-- ===== src/Ipc/Resources.antt =====
-- ipc/: what a function that sets up a handler takes and gives back, in order.
use utils_c.Ipc.Proto.{seq_id_min}
use utils_c.Base.{ℕ, ltb, Bool, true, false, if◌then◌else◌, Option, none, some, List, [], ◌∷◌}

-- A descriptor, a block, a lock or a pool that is taken, or given back.
pub data Event (R : Type 0) : Type 0 where
  gets gives : R → Event R

-- What is given back when it is held.
abbrev pub back : {R : Type 0} → Bool → R → List (Event R)
back held r = if held then gives r ∷ [] else []

abbrev pub is_some : Option ℕ → Bool
is_some none = false
is_some (some n) = true

-- The first number of a handler, from a random one.
abbrev pub first_seq : ℕ → ℕ
first_seq random = if ltb random seq_id_min then seq_id_min else random

-- What becomes of one resource, which is held or not: none when it is taken a second time, or given back
-- without being held.
module _ {R : Type 0} (same : R → R → Bool) (r : R) where
  abbrev pub track : List (Event R) → Bool → Option Bool
  track [] held = some held
  track (gets s ∷ es) held =
      let later = track es true in
      let other = track es held in if same s r then (if held then none else later) else other
  track (gives s ∷ es) held =
      let later = track es false in
      let other = track es held in if same s r then (if held then later else none) else other
