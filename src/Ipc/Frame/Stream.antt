-- ===== src/Ipc/Frame/Stream.antt =====
-- ipc/uc_ipc_server.c: the receiving loop on the whole stream of a client.
use mathlib.Core.List.{append_assoc, append-nil}
use utils_c.Base.{
  ℕ, zero, suc, ◌<◌, ◌≤◌, ◌≡◌, refl, sym, ap, subst, ◌∙◌, inl, inr, arith, false, Option, some,
  List, [], ◌∷◌, ◌++◌, length, replicate, length-append, map, ◌&&◌,
}
use utils_c.Io.{ReadResult, got, eof, bytes}
use utils_c.Ipc.Proto.{Packet, header_bytes, packet_bytes, length-header_bytes}
use utils_c.Ipc.Frame.{
  Cli, Next, loops, waits, message, starved, closes, Message, message_of, wants, read_step,
  read_client, serve, reset_cli_proto, react,
}
use utils_c.Ipc.Frame.Step.{read-Moves}
use utils_c.Ipc.Frame.Place.{IsPacket, Within, Grants, delivered, Moves, heading}

-- The client as `calloc` and `uc_ipc_server_reset_cli_proto` leave it.
abbrev pub fresh : Cli
fresh = heading [] (replicate 28 0)

-- read(2) without an error or an end of the file, which fills in at least one byte and at most as many
-- as it is asked for.
abbrev pub Granted : Cli → ReadResult → Type 0
Granted cli (got bs) = (0 < length bs) × (length bs ≤ wants cli)
Granted cli ReadResult.interrupted = Unit
Granted cli ReadResult.again = Unit
Granted cli eof = ⊥
Granted cli ReadResult.broken = ⊥

abbrev pub next_cli : Cli → Next → Cli
next_cli cli (loops c) = c
next_cli cli (waits c) = c
next_cli cli (message c) = reset_cli_proto c
next_cli cli (starved c) = c
next_cli cli (closes e) = cli

-- The same of all the calls of read(2) along a run from `cli`.
abbrev pub Flows : (ℕ → Option (List ℕ)) → Cli → List ReadResult → Type 0
Flows malloc cli [] = Unit
Flows malloc cli (r ∷ rs) = Granted cli r × Flows malloc (next_cli cli (read_step malloc cli r)) rs

abbrev pub packets_bytes : List Packet → List ℕ
packets_bytes [] = []
packets_bytes (p ∷ ps) = packet_bytes p ++ packets_bytes ps

abbrev pub AllGood : (ℕ → Option (List ℕ)) → List Packet → Type 0
AllGood malloc [] = Unit
AllGood malloc (p ∷ ps) = IsPacket p × Grants malloc p × AllGood malloc ps

-- Where the loop stands before the packets `ps`, with `need` to come of the first.
Stands : List Packet → Cli → List ℕ → Type 0
Stands [] cli need = (cli ≡ fresh) × (need ≡ [])
Stands (p ∷ ps) cli need = Within p cli need

abbrev after_first : List Packet → List Packet
after_first [] = []
after_first (p ∷ ps) = ps

start :
    (ps : List Packet)
    → (need : List ℕ) × Stands ps fresh need
      × (packets_bytes ps ≡ need ++ packets_bytes (after_first ps))
unfolding Stands
start [] = ([], (refl, refl), refl)
start (p ∷ ps) = (
  packet_bytes p,
  inl (record {
    part = [];
    more = header_bytes p.head;
    ipc_head = replicate 28 0;
    state = refl;
    size = refl;
    come = refl;
    whole = refl;
    ahead = refl;
    some_left = omega (arith, length-header_bytes p.head);
  }),
  refl,
)

not_both :
    (p : Packet) (cli : Cli) (need : List ℕ)
    → Within p cli need
    → (cli.head_done && cli.buf_done) ≡ false
not_both p cli need (inl a) = rw (ap Cli.head_done a.state) refl
not_both p cli need (inr a) = rw (ap Cli.head_done a.state, ap Cli.buf_done a.state) refl

Stands-open :
    (ps : List Packet) (cli : Cli) (need : List ℕ)
    → Stands ps cli need
    → (cli.head_done && cli.buf_done) ≡ false
unfolding Stands
Stands-open [] cli need (e, _) = rw e refl
Stands-open (p ∷ ps) cli need w = not_both p cli need w

-- One result of read(2), as `serve` takes it.
module _ (malloc : ℕ → Option (List ℕ)) (cli : Cli) (r : ReadResult) (rs : List ReadResult)
    (fuel : ℕ) (here : (cli.head_done && cli.buf_done) ≡ false) where
  client_loops :
      (c : Cli)
      → read_step malloc cli r ≡ loops c
      → read_client malloc cli (r ∷ rs) ≡ read_client malloc c rs
  unfolding read_client
  client_loops c e = rw (here, e) refl

  serve_loops :
      (c : Cli)
      → read_step malloc cli r ≡ loops c
      → serve (suc fuel) malloc cli (r ∷ rs) ≡ serve (suc fuel) malloc c rs
  unfolding serve react
  serve_loops c e = ap (react (serve fuel malloc)) (client_loops c e)

  client_waits :
      (c : Cli) → read_step malloc cli r ≡ waits c → read_client malloc cli (r ∷ rs) ≡ (waits c, rs)
  unfolding read_client
  client_waits c e = rw (here, e) refl

  serve_waits :
      (c : Cli)
      → read_step malloc cli r ≡ waits c
      → serve (suc fuel) malloc cli (r ∷ rs) ≡ serve fuel malloc c rs
  unfolding serve react
  serve_waits c e = ap (react (serve fuel malloc)) (client_waits c e)

  client_message :
      (c : Cli)
      → read_step malloc cli r ≡ message c
      → read_client malloc cli (r ∷ rs) ≡ (message c, rs)
  unfolding read_client
  client_message c e = rw (here, e) refl

  serve-message :
      (c : Cli) (ms : List Message) (end : Option Cli)
      → read_step malloc cli r ≡ message c
      → serve fuel malloc fresh rs ≡ (ms, end)
      → serve (suc fuel) malloc cli (r ∷ rs) ≡ (message_of c ∷ ms, end)
  unfolding serve react reset_cli_proto
  serve-message c ms end e f =
      ap (react (serve fuel malloc)) (client_message c e)
      ∙ ap (λ (l : List Message × Option Cli). (message_of c ∷ l.0, l.1)) f

append_cancel : (bs xs ys : List ℕ) → bs ++ xs ≡ bs ++ ys → xs ≡ ys
append_cancel [] xs ys e = e
append_cancel (b ∷ bs) xs ys e = append_cancel bs xs ys (cc)

behind :
    (bs more need rest later : List ℕ)
    → bs ++ more ≡ need ++ later
    → need ≡ bs ++ rest
    → more ≡ rest ++ later
behind bs more need rest later e f =
    append_cancel bs more (rest ++ later)
      (e ∙ (ap (λ (n : List ℕ). n ++ later) f ∙ append_assoc bs rest later))

some_need : (p : Packet) (cli : Cli) (need : List ℕ) → Within p cli need → 0 < length need
some_need p cli need (inl a) =
    omega (arith, length-append a.more p.buf, ap (length {A = ℕ}) a.ahead, a.some_left)
some_need p cli need (inr a) = a.some_left

Delivers : ℕ → (ℕ → Option (List ℕ)) → Cli → List ReadResult → List Packet → Type 0
Delivers fuel malloc cli rs ps = serve fuel malloc cli rs ≡ (map delivered ps, some fresh)

deliver :
    (malloc : ℕ → Option (List ℕ)) (rs : List ReadResult) (fuel : ℕ) (cli : Cli) (ps : List Packet)
    (need : List ℕ)
    → Stands ps cli need
    → AllGood malloc ps
    → Flows malloc cli rs
    → bytes rs ≡ need ++ packets_bytes (after_first ps)
    → length rs < fuel
    → Delivers fuel malloc cli rs ps
unfolding Delivers
deliver malloc rs zero cli ps need s good flows stream enough = absurd (omega arith)
deliver malloc [] (suc fuel) cli [] need s good flows stream enough =
    unfold Stands serve react read_client in rw (s.0) refl
deliver malloc [] (suc fuel) cli (p ∷ ps) need s good flows stream enough = absurd (
    unfold Stands bytes in
    omega (
      arith,
      some_need p cli need s,
      length-append need (packets_bytes ps),
      ap (length {A = ℕ}) stream,
    ))
deliver malloc (eof ∷ rs) (suc fuel) cli ps need s good flows stream enough = elim flows.0 [ ]
deliver malloc (ReadResult.broken ∷ rs) (suc fuel) cli ps need s good flows stream enough =
    elim flows.0 [ ]
deliver malloc (ReadResult.interrupted ∷ rs) (suc fuel) cli ps need s good flows stream enough =
    serve_loops malloc cli ReadResult.interrupted rs fuel (Stands-open ps cli need s) cli
      (unfold read_step in refl)
    ∙ deliver malloc rs (suc fuel) cli ps need s good (unfold read_step in flows.1)
        (unfold bytes in stream) (omega arith)
deliver malloc (ReadResult.again ∷ rs) (suc fuel) cli ps need s good flows stream enough =
    serve_waits malloc cli ReadResult.again rs fuel (Stands-open ps cli need s) cli
      (unfold read_step in refl)
    ∙ deliver malloc rs fuel cli ps need s good (unfold read_step in flows.1)
        (unfold bytes in stream) (omega arith)
deliver malloc (got bs ∷ rs) (suc fuel) cli [] need s good flows stream enough = absurd (
    unfold Stands bytes in
    omega (
      arith,
      flows.0.0,
      length-append bs (bytes rs),
      ap (length {A = ℕ}) s.1,
      length-append need [],
      ap (length {A = ℕ}) stream,
    ))
deliver malloc (got bs ∷ rs) (suc fuel) cli (p ∷ ps) need s good flows stream enough =
    let later = packets_bytes ps in
    let whole : bs ++ bytes rs ≡ need ++ later = unfold bytes in stream in
    let here = Stands-open (p ∷ ps) cli need s in
    let moves : Moves p need bs (read_step malloc cli (got bs)) =
      unfold Stands in
      read-Moves malloc p good.0 cli need bs (bytes rs) later good.1 s flows.0.0 flows.0.1 whole in
    elim moves [
      | inl g ↦
          let on = behind bs (bytes rs) need g.rest later whole g.split in
          let w : Stands (p ∷ ps) g.cli g.rest = unfold Stands in g.within in
          elim g.result [
            | inl e ↦
                serve_loops malloc cli (got bs) rs fuel here g.cli e
                ∙ deliver malloc rs (suc fuel) g.cli (p ∷ ps) g.rest w good
                    (subst (λ n. Flows malloc (next_cli cli n) rs) e flows.1) on (omega arith)
            | inr e ↦
                serve_waits malloc cli (got bs) rs fuel here g.cli e
                ∙ deliver malloc rs fuel g.cli (p ∷ ps) g.rest w good
                    (subst (λ n. Flows malloc (next_cli cli n) rs) e flows.1) on (omega arith)
          ]
      | inr d ↦
          let on = behind bs (bytes rs) need [] later whole (d.all ∙ sym (append-nil bs)) in
          let (need', w, first) = start ps in
          let f : Flows malloc fresh rs =
            unfold reset_cli_proto in
            subst (λ n. Flows malloc (next_cli cli n) rs) d.result flows.1 in
          serve-message malloc cli (got bs) rs fuel here d.cli (map delivered ps) (some fresh)
            d.result (deliver malloc rs fuel fresh ps need' w good.2 f (on ∙ first) (omega arith))
          ∙ ap (λ (m : Message). (m ∷ map delivered ps, some fresh)) d.handed
    ]

-- However read(2) cuts up the stream of a client, and however often it is interrupted or has nothing to
-- read yet, the receiving loop finds in it exactly the packets that were sent, in their order: each
-- message that is handed on has the bytes of its header, and its payload, or no block where there is
-- none. The client stands ready for the next packet, and no error closes it. The conditions are that the
-- packets are well formed, that `malloc` has a block for each payload, and that each call of read(2) fills
-- in at least one byte and no more than it is asked for; a fuel over the number of calls is enough.
pub serve-packets :
    (malloc : ℕ → Option (List ℕ)) (ps : List Packet) (rs : List ReadResult) (fuel : ℕ)
    → AllGood malloc ps
    → Flows malloc fresh rs
    → bytes rs ≡ packets_bytes ps
    → length rs < fuel
    → serve fuel malloc fresh rs ≡ (map delivered ps, some fresh)
unfolding Delivers
serve-packets malloc ps rs fuel good flows stream enough =
    let (need, s, first) = start ps in
    deliver malloc rs fuel fresh ps need s good flows (stream ∙ first) enough
