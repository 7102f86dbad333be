-- ===== src/Ipc/Server/Start.antt =====
-- ipc/uc_ipc_server.c: `uc_ipc_init_server`, with what it takes and gives back.
use utils_c.Base.{
  ℕ, ◌≡◌, arith, ◌==◌, if◌then◌else◌, Bool, true, false, ◌&&◌, Option, none, some, List, [], ◌∷◌,
  ◌++◌, inl, inr, refl, Bool-cases,
}
use utils_c.Ipc.Resources.{Event, gets, gives, track, back, is_some, first_seq}

-- The handler itself, its two locks, and what its members stand for.
pub data Resource : Type 0 where
  handler cli_fd_mutex seq_mutex pipe epoll cli_info_hash cli_fd_hash sockfd sock_cli pool :
      Resource

abbrev pub code : Resource → ℕ
code handler = 0
code cli_fd_mutex = 1
code seq_mutex = 2
code pipe = 3
code epoll = 4
code cli_info_hash = 5
code cli_fd_hash = 6
code sockfd = 7
code sock_cli = 8
code pool = 9

abbrev pub same : Resource → Resource → Bool
same r s = code r == code s

-- Which of the calls succeed, and the random number.
pub record Calls : Type 0 where
  pub calloc : Bool
  pub mutex_init_fd : Bool
  pub mutex_init_seq : Bool
  pub random : Option ℕ
  pub pipe : Bool
  pub epoll_create : Bool
  pub create_info : Bool
  pub create_fd : Bool
  pub socket : Bool
  pub bind : Bool
  pub listen : Bool
  pub calloc_cli : Bool
  pub epoll_add : Bool
  pub create_pool : Bool

-- The members that tell whether there is something to give back.
pub record Members : Type 0 where
  pub thread : Bool
  pub sock_cli : Bool
  pub sockfd : Bool
  pub cli_fd_hash : Bool
  pub cli_info_hash : Bool
  pub epoll : Bool
  pub pipe : Bool

-- The part behind the label `err_uninit`.
abbrev pub err_uninit : Members → List (Event Resource)
err_uninit h =
    back h.thread pool
    ++ (back h.sock_cli sock_cli
        ++ (back h.sockfd sockfd
            ++ (back h.cli_fd_hash cli_fd_hash
                ++ (back h.cli_info_hash cli_info_hash
                    ++ (back h.epoll epoll
                        ++ (back h.pipe pipe
                            ++ (gives cli_fd_mutex ∷ gives seq_mutex ∷ gives handler ∷ [])))))))

-- The number that the handler starts with, or NULL; and what has been taken and given back.
abbrev pub Start : Type 0
Start = Option ℕ × List (Event Resource)

abbrev pub fails : Members → List (Event Resource) → Start
fails h taken = (none, taken ++ err_uninit h)

-- What the handler holds before each call, from the random number on.
abbrev pub no_members : Members
no_members = record {
  thread = false;
  sock_cli = false;
  sockfd = false;
  cli_fd_hash = false;
  cli_info_hash = false;
  epoll = false;
  pipe = false;
}

abbrev pub locked : List (Event Resource)
locked = gets handler ∷ gets cli_fd_mutex ∷ gets seq_mutex ∷ []

-- Each step takes the members and what has been taken until then.
module _ (c : Calls) (seq_id : ℕ) where
  abbrev start_pool : Members → List (Event Resource) → Start
  start_pool h taken =
      if c.create_pool then (some seq_id, taken ++ gets pool ∷ []) else fails h taken

  abbrev start_client : Members → List (Event Resource) → Start
  start_client h taken =
      if c.calloc_cli
      then (if c.epoll_add
          then start_pool (record h { sock_cli = true }) (taken ++ gets sock_cli ∷ [])
          else fails (record h { sock_cli = true }) (taken ++ gets sock_cli ∷ []))
      else fails h taken

  abbrev start_listen : Members → List (Event Resource) → Start
  start_listen h taken =
      if c.bind then (if c.listen then start_client h taken else fails h taken) else fails h taken

  abbrev start_socket : Members → List (Event Resource) → Start
  start_socket h taken =
      if c.socket
      then start_listen (record h { sockfd = true }) (taken ++ gets sockfd ∷ [])
      else fails h taken

  abbrev start_fd : Members → List (Event Resource) → Start
  start_fd h taken =
      if c.create_fd
      then start_socket (record h { cli_fd_hash = true }) (taken ++ gets cli_fd_hash ∷ [])
      else fails h taken

  abbrev start_info : Members → List (Event Resource) → Start
  start_info h taken =
      if c.create_info
      then start_fd (record h { cli_info_hash = true }) (taken ++ gets cli_info_hash ∷ [])
      else fails h taken

  abbrev start_epoll : Members → List (Event Resource) → Start
  start_epoll h taken =
      if c.epoll_create
      then start_info (record h { epoll = true }) (taken ++ gets epoll ∷ [])
      else fails h taken

  pub start_pipe : Members → List (Event Resource) → Start
  start_pipe h taken =
      if c.pipe
      then start_epoll (record h { pipe = true }) (taken ++ gets pipe ∷ [])
      else fails h taken

pub init_server : Calls → Start
unfolding start_pipe
init_server c =
    if c.calloc
    then (if c.mutex_init_fd
        then (if c.mutex_init_seq
            then elim c.random [
              | none ↦ fails no_members locked
              | some random ↦ start_pipe c (first_seq random) no_members locked
            ]
            else (none, gets handler ∷ gets cli_fd_mutex ∷ gives handler ∷ []))
        else (none, gets handler ∷ gives handler ∷ []))
    else (none, [])

-- Every call behind the locks succeeds.
abbrev pub all_start : Calls → Bool
all_start c =
    c.pipe
    && (c.epoll_create
        && (c.create_info
            && (c.create_fd
                && (c.socket
                    && (c.bind
                        && (c.listen && (c.calloc_cli && (c.epoll_add && c.create_pool))))))))

-- With the locks taken, and so on as far as the calls succeed: all is held at the end, or nothing.
start_pipe-track :
    (c : Calls) (seq_id : ℕ) (r : Resource)
    → track same r (start_pipe c seq_id no_members locked).1 false ≡ some (all_start c)
unfolding start_pipe
start_pipe-track c seq_id handler = ground arith
start_pipe-track c seq_id cli_fd_mutex = ground arith
start_pipe-track c seq_id seq_mutex = ground arith
start_pipe-track c seq_id pipe = ground arith
start_pipe-track c seq_id epoll = ground arith
start_pipe-track c seq_id cli_info_hash = ground arith
start_pipe-track c seq_id cli_fd_hash = ground arith
start_pipe-track c seq_id sockfd = ground arith
start_pipe-track c seq_id sock_cli = ground arith
start_pipe-track c seq_id pool = ground arith

-- What is held at the end: all of it, when every call succeeds; and only the first lock, when the second
-- cannot be made.
abbrev pub kept : Calls → Resource → Bool
kept c r =
    if c.calloc && c.mutex_init_fd
    then (if c.mutex_init_seq then is_some c.random && all_start c else same r cli_fd_mutex)
    else false

by_random :
    (c : Calls) (r : Resource) (random : Option ℕ)
    → track same r
        (elim random as (λ o. Start) [
          | none ↦ fails no_members locked
          | some n ↦ start_pipe c (first_seq n) no_members locked
        ]).1
        false
      ≡ some (is_some random && all_start c)
by_random c handler none = refl
by_random c cli_fd_mutex none = refl
by_random c seq_mutex none = refl
by_random c pipe none = refl
by_random c epoll none = refl
by_random c cli_info_hash none = refl
by_random c cli_fd_hash none = refl
by_random c sockfd none = refl
by_random c sock_cli none = refl
by_random c pool none = refl
by_random c r (some n) = start_pipe-track c (first_seq n) r

one_lock :
    (r : Resource)
    → track same r (gets handler ∷ gets cli_fd_mutex ∷ gives handler ∷ []) false
      ≡ some (same r cli_fd_mutex)
one_lock handler = refl
one_lock cli_fd_mutex = refl
one_lock seq_mutex = refl
one_lock pipe = refl
one_lock epoll = refl
one_lock cli_info_hash = refl
one_lock cli_fd_hash = refl
one_lock sockfd = refl
one_lock sock_cli = refl
one_lock pool = refl

no_lock : (r : Resource) → track same r (gets handler ∷ gives handler ∷ []) false ≡ some false
no_lock handler = refl
no_lock cli_fd_mutex = refl
no_lock seq_mutex = refl
no_lock pipe = refl
no_lock epoll = refl
no_lock cli_info_hash = refl
no_lock cli_fd_hash = refl
no_lock sockfd = refl
no_lock sock_cli = refl
no_lock pool = refl

start_pipe-is_some :
    (c : Calls) (seq_id : ℕ) → is_some (start_pipe c seq_id no_members locked).0 ≡ all_start c
unfolding start_pipe
start_pipe-is_some c seq_id = ground arith

random-is_some :
    (c : Calls) (random : Option ℕ)
    → is_some
        (elim random as (λ o. Start) [
          | none ↦ fails no_members locked
          | some n ↦ start_pipe c (first_seq n) no_members locked
        ]).0
      ≡ (is_some random && all_start c)
random-is_some c none = refl
random-is_some c (some n) = start_pipe-is_some c (first_seq n)

-- Every call succeeds.
abbrev pub all_calls : Calls → Bool
all_calls c =
    if c.calloc && c.mutex_init_fd
    then (if c.mutex_init_seq then is_some c.random && all_start c else false)
    else false

-- Whichever calls fail, nothing is taken twice, and nothing is given back that is not held or that was
-- given back already. A handler is returned exactly when every call succeeds. Then all is held at the
-- end; else nothing is, but for one case: when the second lock cannot be made, the first stays.
pub init_server-track :
    (c : Calls) (r : Resource)
    → (track same r (init_server c).1 false ≡ some (kept c r))
      × (is_some (init_server c).0 ≡ all_calls c)
unfolding init_server
init_server-track c r = elim (Bool-cases c.calloc) [
  | inl a ↦ elim (Bool-cases c.mutex_init_fd) [
    | inl b ↦ elim (Bool-cases c.mutex_init_seq) [
      | inl d ↦ simp (a, b, d) (by_random c r c.random, random-is_some c c.random)
      | inr d ↦ simp (a, b, d) (one_lock r, refl)
    ]
    | inr b ↦ simp (a, b) (no_lock r, refl)
  ]
  | inr a ↦ simp a (refl, refl)
]
