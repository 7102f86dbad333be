-- ===== src/Ipc/Client/Start.antt =====
-- ipc/uc_ipc_client.c: `uc_ipc_init_client`, with what it takes and gives back.
use utils_c.Base.{
  ℕ, ◌≡◌, refl, arith, inl, inr, ◌==◌, if◌then◌else◌, Bool, true, false, ◌&&◌, Bool-cases, Option,
  none, some, List, [], ◌∷◌, ◌++◌, ◌||◌,
}
use utils_c.Ipc.Resources.{Event, gets, gives, track, back, is_some, first_seq}

-- The handler itself, its locks and its condition, and what its members stand for.
pub data Part : Type 0 where
  handler io_mtx seq_mtx ack_mtx ack_cond io_sockfd ack_hash pool : Part

abbrev pub number : Part → ℕ
number handler = 0
number io_mtx = 1
number seq_mtx = 2
number ack_mtx = 3
number ack_cond = 4
number io_sockfd = 5
number ack_hash = 6
number pool = 7

abbrev pub equal : Part → Part → Bool
equal r s = number r == number s

-- Which of the calls succeed, and the random number.
pub record Attempts : Type 0 where
  pub calloc : Bool
  pub init_io : Bool
  pub init_seq : Bool
  pub init_ack : Bool
  pub init_cond : Bool
  pub urandom : Option ℕ
  pub socket : Bool
  pub connect : Bool
  pub create_hash : Bool
  pub create_pool : Bool

abbrev pub Opened : Type 0
Opened = Option ℕ × List (Event Part)

-- The part behind the label `err_uninit`, by the members that tell what there is to give back.
abbrev pub undo : Bool → Bool → Bool → List (Event Part)
undo thread hash sockfd =
    back thread pool
    ++ (back hash ack_hash
        ++ (back sockfd io_sockfd
            ++ (gives ack_cond
                ∷ gives ack_mtx
                ∷ gives seq_mtx
                ∷ gives io_mtx
                ∷ gives handler
                ∷ [])))

abbrev pub prepared : List (Event Part)
prepared = gets handler ∷ gets io_mtx ∷ gets seq_mtx ∷ gets ack_mtx ∷ gets ack_cond ∷ []

-- From the random number on.
pub open_client : Attempts → ℕ → Opened
open_client c seq_id =
    if c.socket
    then (if c.connect
        then (if c.create_hash
            then (if c.create_pool
                then (some seq_id, prepared ++ (gets io_sockfd ∷ gets ack_hash ∷ gets pool ∷ []))
                else (none, prepared ++ (gets io_sockfd ∷ gets ack_hash ∷ undo false true true)))
            else (none, prepared ++ (gets io_sockfd ∷ undo false false true)))
        else (none, prepared ++ (gets io_sockfd ∷ undo false false true)))
    else (none, prepared ++ undo false false false)

-- The locks and the condition one after the other, with what each failure gives back.
pub init_client : Attempts → Opened
unfolding open_client
init_client c =
    if c.calloc
    then (if c.init_io
        then (if c.init_seq
            then (if c.init_ack
                then (if c.init_cond
                    then elim c.urandom [
                      | none ↦ (none, prepared ++ undo false false false)
                      | some random ↦ open_client c (first_seq random)
                    ]
                    else (
                      none,
                      gets handler
                          ∷ gets io_mtx
                          ∷ gets seq_mtx
                          ∷ gets ack_mtx
                          ∷ gives ack_mtx
                          ∷ gives handler
                          ∷ [],
                    ))
                else (none, gets handler ∷ gets io_mtx ∷ gets seq_mtx ∷ gives handler ∷ []))
            else (none, gets handler ∷ gets io_mtx ∷ gives handler ∷ []))
        else (none, gets handler ∷ gives handler ∷ []))
    else (none, [])

-- Every call behind the locks succeeds.
abbrev pub all_open : Attempts → Bool
all_open c = c.socket && (c.connect && (c.create_hash && c.create_pool))

-- Every call succeeds.
abbrev pub all_attempts : Attempts → Bool
all_attempts c =
    c.calloc
    && (c.init_io
        && (c.init_seq && (c.init_ack && (c.init_cond && (is_some c.urandom && all_open c)))))

-- What is held at the end: all of it, when every call succeeds; and the locks that were made before the
-- first one that could not be made.
abbrev pub stays : Attempts → Part → Bool
stays c r =
    if c.calloc && c.init_io
    then (if c.init_seq
        then (if c.init_ack && c.init_cond
            then is_some c.urandom && all_open c
            else equal r io_mtx || equal r seq_mtx)
        else equal r io_mtx)
    else false

open_client-track :
    (c : Attempts) (seq_id : ℕ) (r : Part)
    → track equal r (open_client c seq_id).1 false ≡ some (all_open c)
unfolding open_client
open_client-track c seq_id handler = ground arith
open_client-track c seq_id io_mtx = ground arith
open_client-track c seq_id seq_mtx = ground arith
open_client-track c seq_id ack_mtx = ground arith
open_client-track c seq_id ack_cond = ground arith
open_client-track c seq_id io_sockfd = ground arith
open_client-track c seq_id ack_hash = ground arith
open_client-track c seq_id pool = ground arith

open_client-is_some : (c : Attempts) (seq_id : ℕ) → is_some (open_client c seq_id).0 ≡ all_open c
unfolding open_client
open_client-is_some c seq_id = ground arith

-- What the failure of each lock leaves.
none_made : (r : Part) → track equal r (gets handler ∷ gives handler ∷ []) false ≡ some false
none_made handler = refl
none_made io_mtx = refl
none_made seq_mtx = refl
none_made ack_mtx = refl
none_made ack_cond = refl
none_made io_sockfd = refl
none_made ack_hash = refl
none_made pool = refl

one_made :
    (r : Part)
    → track equal r (gets handler ∷ gets io_mtx ∷ gives handler ∷ []) false ≡ some (equal r io_mtx)
one_made handler = refl
one_made io_mtx = refl
one_made seq_mtx = refl
one_made ack_mtx = refl
one_made ack_cond = refl
one_made io_sockfd = refl
one_made ack_hash = refl
one_made pool = refl

two_made :
    (r : Part)
    → track equal r (gets handler ∷ gets io_mtx ∷ gets seq_mtx ∷ gives handler ∷ []) false
      ≡ some (equal r io_mtx || equal r seq_mtx)
two_made handler = refl
two_made io_mtx = refl
two_made seq_mtx = refl
two_made ack_mtx = refl
two_made ack_cond = refl
two_made io_sockfd = refl
two_made ack_hash = refl
two_made pool = refl

three_made :
    (r : Part)
    → track equal r
        (gets handler
          ∷ gets io_mtx
          ∷ gets seq_mtx
          ∷ gets ack_mtx
          ∷ gives ack_mtx
          ∷ gives handler
          ∷ [])
        false
      ≡ some (equal r io_mtx || equal r seq_mtx)
three_made handler = refl
three_made io_mtx = refl
three_made seq_mtx = refl
three_made ack_mtx = refl
three_made ack_cond = refl
three_made io_sockfd = refl
three_made ack_hash = refl
three_made pool = refl

all_undone : (r : Part) → track equal r (prepared ++ undo false false false) false ≡ some false
all_undone handler = refl
all_undone io_mtx = refl
all_undone seq_mtx = refl
all_undone ack_mtx = refl
all_undone ack_cond = refl
all_undone io_sockfd = refl
all_undone ack_hash = refl
all_undone pool = refl

module _ (c : Attempts) where
  abbrev opened : Option ℕ → Opened
  opened none = (none, prepared ++ undo false false false)
  opened (some random) = open_client c (first_seq random)

  opened-track :
      (r : Part) (random : Option ℕ)
      → (track equal r (opened random).1 false ≡ some (is_some random && all_open c))
        × (is_some (opened random).0 ≡ (is_some random && all_open c))
  opened-track r none = (all_undone r, refl)
  opened-track r (some n) =
      (open_client-track c (first_seq n) r, open_client-is_some c (first_seq n))

-- Whichever calls fail, nothing is taken twice, and nothing is given back that is not held or that was
-- given back already. A handler is returned exactly when every call succeeds, and then all is held at
-- the end. Else nothing is, but for the locks that were made before another lock or the condition could
-- not be made: they stay, except for the lock of the pending answers.
pub init_client-track :
    (c : Attempts) (r : Part)
    → (track equal r (init_client c).1 false ≡ some (stays c r))
      × (is_some (init_client c).0 ≡ all_attempts c)
unfolding init_client
init_client-track c r = elim (Bool-cases c.calloc) [
  | inl a ↦ elim (Bool-cases c.init_io) [
    | inl b ↦ elim (Bool-cases c.init_seq) [
      | inl d ↦ elim (Bool-cases c.init_ack) [
        | inl e ↦ elim (Bool-cases c.init_cond) [
          | inl f ↦ simp (a, b, d, e, f) (opened-track c r c.urandom)
          | inr f ↦ simp (a, b, d, e, f) (three_made r, refl)
        ]
        | inr e ↦ simp (a, b, d, e) (two_made r, refl)
      ]
      | inr d ↦ simp (a, b, d) (one_made r, refl)
    ]
    | inr b ↦ simp (a, b) (none_made r, refl)
  ]
  | inr a ↦ simp a (refl, refl)
]
