-- ===== src/Ipc/Frame/Step.antt =====
-- ipc/uc_ipc_server.c: one read(2), anywhere in a packet.
use mathlib.Core.List.{append_assoc}
use utils_c.Base.{ℕ, ◌<◌, ◌≤◌, ◌≡◌, sym, ap, Option, List, ◌++◌, length, ◌∙◌, inl, inr, subst}
use utils_c.Io.{got}
use utils_c.Ipc.Proto.{Packet}
use utils_c.Ipc.Frame.{wants, Cli, read_step}
use utils_c.Ipc.Frame.Place.{IsPacket, heading, Within, Grants, Moves, beginning}
use utils_c.Ipc.Frame.Fill.{fill-Moves, fill_room}
use utils_c.Ipc.Frame.Head.{head-Moves, head_room}

module _ (malloc : ℕ → Option (List ℕ)) (p : Packet) (w : IsPacket p) where
  -- One read(2) that fills in bytes, anywhere in a packet.
  pub read-Moves :
      (cli : Cli) (need bs more later : List ℕ)
      → Grants malloc p
      → Within p cli need
      → 0 < length bs
      → length bs ≤ wants cli
      → bs ++ more ≡ need ++ later
      → Moves p need bs (read_step malloc cli (got bs))
  read-Moves cli need bs more later grants (inl a) some_come fits stream =
      let room : length bs ≤ length a.more =
        head_room malloc p w a.part a.ipc_head a.more bs a.whole
          (subst (λ c. length bs ≤ wants c) a.state fits) in
      let e : bs ++ more ≡ a.more ++ (p.buf ++ later) =
        stream ∙ (ap (λ (n : List ℕ). n ++ later) a.ahead ∙ append_assoc a.more p.buf later) in
      let (rest, split, _) = beginning bs more a.more (p.buf ++ later) e room in
      subst (λ c. Moves p need bs (read_step malloc c (got bs))) (sym a.state)
        (subst (λ n. Moves p n bs (read_step malloc (heading a.part a.ipc_head) (got bs)))
          (sym a.ahead)
          (head-Moves malloc p w a.part a.ipc_head bs a.more rest grants a.size a.come a.whole
            split))
  read-Moves cli need bs more later grants (inr a) some_come fits stream =
      let room : length bs ≤ length need =
        fill_room malloc p w a.part a.block need bs a.whole
          (subst (λ c. length bs ≤ wants c) a.state fits) in
      let (rest, split, _) = beginning bs more need later stream room in
      subst (λ c. Moves p need bs (read_step malloc c (got bs))) (sym a.state)
        (fill-Moves malloc p w a.part a.block bs need rest a.size a.come a.whole split some_come)
