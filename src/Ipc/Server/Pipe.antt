-- ===== src/Ipc/Server/Pipe.antt =====
-- ipc/uc_ipc_server.c: which messages reach the thread that calls back.
use utils_c.Base.{
  ℕ, ◌≡◌, refl, sym, ap, subst, ◌⊎◌, inl, inr, ◌==◌, ==_iff, Bool-cases, Bool, true, false, Option,
  none, some, List, [], ◌∷◌, Run, ok, exit, fault, ◌>>=◌, ok_injective, Status, done, failed,
}
use utils_c.Io.{WriteResult}
use utils_c.Ipc.Proto
use utils_c.Ipc.Proto.{header_of}
use utils_c.Ipc.Frame.{Cli, reset_cli_proto}
use utils_c.Ipc.Server.{
  Server, PipeData, Reply, Handled, Output, replied, piped, replies, Sent, returned, pipe_write,
  pass_on, acked, dispatch, handle_client_msg, ends_with, head_of, heartbeat_cb, send_ack,
}

-- What a message in the pipe shows: it is the client's whole message, of one of the two types, and the
-- pipe took its pointer.
pub record Reaches (uuid : ℕ) (cli : Cli) (ps : List WriteResult) (ptr : Option (List ℕ))
    (n : PipeData) : Type 0 where
  pub whole : cli.buf_done ≡ true
  pub same : n ≡ record { cli_uuid = uuid; ipc_head = cli.ipc_head; buf = cli.buf }
  pub kind :
      ((header_of cli.ipc_head).msg_type ≡ Proto.async_send)
      ⊎ ((header_of cli.ipc_head).msg_type ≡ Proto.sync_send)
  pub taken : (bytes : List ℕ) × (ptr ≡ some bytes) × (pipe_write ps bytes ≡ some true)

-- A message is put into the pipe.
abbrev pub IsPiped : PipeData → List Output → Type 0
IsPiped n [] = ⊥
IsPiped n (replied s ∷ es) = IsPiped n es
IsPiped n (piped m ∷ es) = (n ≡ m) ⊎ IsPiped n es

-- What is known of an end by which the message `m` is in the pipe.
record Pipes (m : PipeData) (wrote : Option Bool) (n : PipeData) : Type 0 where
  same : n ≡ m
  kind : ((head_of m).msg_type ≡ Proto.async_send) ⊎ ((head_of m).msg_type ≡ Proto.sync_send)
  taken : wrote ≡ some true

replies-not-IsPiped : (n : PipeData) (r : Reply) → ¬ IsPiped n (replies r)
replies-not-IsPiped n none p = p
replies-not-IsPiped n (some s) p = p

bind-ends_with :
    (x : Run (Server × Reply)) (cli : Cli) (ret : Status) (h : Handled) (n : PipeData)
    → (x >>= λ r. ok (ends_with r.0 cli r.1 ret)) ≡ ok h
    → ¬ IsPiped n h.events
bind-ends_with (ok r) cli ret h n e p =
    replies-not-IsPiped n r.1 (subst (IsPiped n) (ap Handled.events (sym (ok_injective e))) p)
bind-ends_with (exit c) cli ret h n e p = cc
bind-ends_with fault cli ret h n e p = cc

pass_on-IsPiped :
    (srv : Server) (cli : Cli) (r : Reply) (m : PipeData) (err : Status) (w : Option Bool)
    (n : PipeData)
    → IsPiped n (pass_on srv cli (replies r) m err w).events
    → (n ≡ m) × (w ≡ some true)
unfolding pass_on
pass_on-IsPiped srv cli r m err none n p = absurd (replies-not-IsPiped n r p)
pass_on-IsPiped srv cli none m err (some true) n (inl e) = (e, refl)
pass_on-IsPiped srv cli (some s) m err (some true) n (inl e) = (e, refl)
pass_on-IsPiped srv cli none m err (some true) n (inr z) = absurd z
pass_on-IsPiped srv cli (some s) m err (some true) n (inr z) = absurd z
pass_on-IsPiped srv cli r m err (some false) n p = absurd (replies-not-IsPiped n r p)

acked-IsPiped :
    (ps : List WriteResult) (cli : Cli) (ptr : List ℕ) (m : PipeData) (srv : Server) (s : Sent)
    (malloc : ℕ → Option (List ℕ)) (ws : List WriteResult) (n : PipeData)
    → IsPiped n (acked malloc ws ps cli ptr m srv s).events
    → (n ≡ m) × (pipe_write ps ptr ≡ some true)
unfolding acked
acked-IsPiped ps cli ptr m srv s malloc ws n p = elim (Bool-cases (returned s)) [
  | inl back ↦ pass_on-IsPiped srv cli (some s) m done (pipe_write ps ptr) n (rw back at p)
  | inr away ↦ let q : ⊥ = rw away at p in absurd q
]

bind-acked :
    (ps : List WriteResult) (malloc : ℕ → Option (List ℕ)) (ws : List WriteResult)
    (x : Run (Server × (Sent × Status))) (cli : Cli) (ptr : List ℕ) (m : PipeData) (h : Handled)
    (n : PipeData)
    → (x >>= λ r. ok (acked malloc ws ps cli ptr m r.0 r.1.0)) ≡ ok h
    → IsPiped n h.events
    → (n ≡ m) × (pipe_write ps ptr ≡ some true)
bind-acked ps malloc ws (ok r) cli ptr m h n e p =
    acked-IsPiped ps cli ptr m r.0 r.1.0 malloc ws n
      (subst (IsPiped n) (ap Handled.events (sym (ok_injective e))) p)
bind-acked ps malloc ws (exit c) cli ptr m h n e p = cc
bind-acked ps malloc ws fault cli ptr m h n e p = cc

module _ (malloc : ℕ → Option (List ℕ)) (ws ps : List WriteResult) (srv : Server) where
  dispatch-Pipes :
      (cli : Cli) (ptr : List ℕ) (m : PipeData) (h : Handled) (n : PipeData)
      → dispatch malloc ws ps srv cli ptr m ≡ ok h
      → IsPiped n h.events
      → Pipes m (pipe_write ps ptr) n
  unfolding dispatch
  dispatch-Pipes cli ptr m h n e f = elim (Bool-cases ((head_of m).msg_type == Proto.heartbeat)) [
    | inl beat ↦
        absurd (bind-ends_with (heartbeat_cb malloc ws srv m) cli done h n (rw beat at e) f)
    | inr not_beat ↦ elim (Bool-cases ((head_of m).msg_type == Proto.void)) [
      | inl void ↦
          let g = ok_injective (rw (not_beat, void) at e) in
          absurd (subst (IsPiped n) (ap Handled.events (sym g)) f)
      | inr not_void ↦ elim (Bool-cases ((head_of m).msg_type == Proto.async_send)) [
        | inl async ↦
            let (same, taken) =
              bind-acked ps malloc ws (send_ack malloc ws srv m.cli_uuid (head_of m).seq_id) cli ptr
                m h n (rw (not_beat, not_void, async) at e) f in
            record { same = same; kind = inl ((==_iff _ _).0 async); taken = taken }
        | inr not_async ↦ elim (Bool-cases ((head_of m).msg_type == Proto.sync_send)) [
          | inl sync ↦
              let g = ok_injective (rw (not_beat, not_void, not_async, sync) at e) in
              let (same, taken) =
                pass_on-IsPiped srv cli none m (failed 0x5afb2312) (pipe_write ps ptr) n
                  (subst (IsPiped n) (ap Handled.events (sym g)) f) in
              record { same = same; kind = inr ((==_iff _ _).0 sync); taken = taken }
          | inr not_sync ↦
              let g = ok_injective (rw (not_beat, not_void, not_async, not_sync) at e) in
              absurd (subst (IsPiped n) (ap Handled.events (sym g)) f)
        ]
      ]
    ]
  ]

  -- Whatever a client sends, only a whole message that was sent asynchronously or synchronously gets into
  -- the pipe to the thread that calls back, with the uuid of the client, its header and its payload as
  -- they were received, and only when `malloc` gave a block and `uc_io_write` on the pipe returned 0. In
  -- particular a message of the type void never gets there.
  pub handle_client_msg-Reaches :
      (uuid : ℕ) (cli : Cli) (ptr : Option (List ℕ)) (h : Handled) (n : PipeData)
      → handle_client_msg malloc ws ps srv uuid cli ptr ≡ ok h
      → IsPiped n h.events
      → Reaches uuid cli ps ptr n
  unfolding handle_client_msg
  handle_client_msg-Reaches uuid cli none h n e f = elim (Bool-cases cli.buf_done) [
    | inl b ↦
        let g = ok_injective (rw b at e) in absurd (subst (IsPiped n) (ap Handled.events (sym g)) f)
    | inr b ↦
        let g = ok_injective (rw b at e) in absurd (subst (IsPiped n) (ap Handled.events (sym g)) f)
  ]
  handle_client_msg-Reaches uuid cli (some ptr) h n e f = elim (Bool-cases cli.buf_done) [
    | inl b ↦
        let m : PipeData = record { cli_uuid = uuid; ipc_head = cli.ipc_head; buf = cli.buf } in
        let a = dispatch-Pipes (reset_cli_proto cli) ptr m h n (simp b at e) f in
        record { whole = b; same = a.same; kind = a.kind; taken = (ptr, refl, a.taken) }
    | inr b ↦
        let g = ok_injective (simp b at e) in
        absurd (subst (IsPiped n) (ap Handled.events (sym g)) f)
  ]
