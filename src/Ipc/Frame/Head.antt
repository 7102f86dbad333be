-- ===== src/Ipc/Frame/Head.antt =====
-- ipc/uc_ipc_server.c: a read into the header of a packet.
use utils_c.Io.Random.Put.{length-put, take-put, put-all}
use mathlib.Core.List.{append_assoc, append-nil}
use utils_c.Base.{
  ℕ, ◌+◌, ◌%◌, ◌^◌, ◌<◌, ◌≤◌, ◌≡◌, refl, sym, ap, ◌⊎◌, arith, ◌==◌, ltb, true, false, Option, none,
  some, List, [], ◌∷◌, ◌++◌, length, take, length-append, ◌∙◌, inl, inr, suc, zero,
}
use utils_c.Io.{got}
use utils_c.Io.Random.{put}
use utils_c.Ipc.Proto.{
  Packet, header_len, header_bytes, header_of, header_of-header_bytes, length-header_bytes,
}
use utils_c.Ipc.Frame.{wants, loops, waits, message, stored, head_read, read_step}
use utils_c.Ipc.Frame.Place.{IsPacket, heading, filling, Grants, payload, Moves}

no_payload : (xs : List ℕ) → length xs ≡ 0 → xs ≡ []
no_payload [] h = refl
no_payload (x ∷ xs) h = absurd (omega arith)

zero_or : (n : ℕ) → (n ≡ 0) ⊎ (0 < n)
zero_or zero = inl refl
zero_or (suc n) = inr (omega arith)

module _ (malloc : ℕ → Option (List ℕ)) (p : Packet) (w : IsPacket p) where
  head_waits :
      (part h bs : List ℕ)
      → length part + length bs < header_len
      → read_step malloc (heading part h) (got bs)
        ≡ waits (heading (part ++ bs) (put h (length part) bs))
  unfolding read_step head_read stored
  head_waits part h bs less =
      let e1 : (length part + length bs) % 2 ^ 64 ≡ length (part ++ bs) =
        omega (arith, length-append part bs) in
      let e2 : (length (part ++ bs) == header_len) ≡ false =
        ground (arith, length-append part bs) in
      let e3 : ltb header_len (length (part ++ bs)) ≡ false =
        ground (arith, length-append part bs) in
      simp (e1, e2, e3) refl

  head_empty :
      (part h bs : List ℕ)
      → length part + length bs ≡ header_len
      → put h (length part) bs ≡ header_bytes p.head
      → p.buf ≡ []
      → read_step malloc (heading part h) (got bs)
        ≡ message (record {
          has_read = header_len;
          head_done = true;
          buf_done = true;
          ipc_head = header_bytes p.head;
          buf = none;
        })
  unfolding read_step head_read stored
  head_empty part h bs all here empty =
      let e1 : (length part + length bs) % 2 ^ 64 ≡ header_len = omega arith in
      let e2 : (header_of (header_bytes p.head)).ttl ≡ 0 =
        rw (header_of-header_bytes p.head w.head) (w.counted ∙ ap (length {A = ℕ}) empty) in
      simp (e1, here, e2) refl

  head_filled :
      (part h bs block : List ℕ)
      → length part + length bs ≡ header_len
      → put h (length part) bs ≡ header_bytes p.head
      → 0 < length p.buf
      → malloc (length p.buf) ≡ some block
      → read_step malloc (heading part h) (got bs) ≡ loops (filling p [] block)
  unfolding read_step head_read stored
  head_filled part h bs block all here some_left granted =
      let e1 : (length part + length bs) % 2 ^ 64 ≡ header_len = omega arith in
      let e2 : (header_of (header_bytes p.head)).ttl ≡ length p.buf =
        rw (header_of-header_bytes p.head w.head) w.counted in
      let e3 : (header_len == (header_len + length p.buf) % 2 ^ 64) ≡ false =
        ground (arith, w.room) in
      simp (e1, here, e2, e3, granted) refl

  pub head-Moves :
      (part h bs more rest : List ℕ)
      → Grants malloc p
      → length h ≡ header_len
      → take (length part) h ≡ part
      → part ++ more ≡ header_bytes p.head
      → more ≡ bs ++ rest
      → Moves p (more ++ p.buf) bs (read_step malloc (heading part h) (got bs))
  head-Moves part h bs more [] (block, granted, block_size) size come whole split =
      let all : bs ≡ more = sym (append-nil bs) ∙ sym split in
      let done : part ++ bs ≡ header_bytes p.head = ap (◌++◌ part) all ∙ whole in
      let end : length part + length bs ≡ header_len =
        sym (length-append part bs) ∙ (ap (length {A = ℕ}) done ∙ length-header_bytes p.head) in
      let here : put h (length part) bs ≡ header_bytes p.head =
        put-all h part bs come (omega arith) ∙ done in
      let moves : (length p.buf ≡ 0) ⊎ (0 < length p.buf)
          → Moves p (more ++ p.buf) bs (read_step malloc (heading part h) (got bs)) =
        λ d. elim d [
          | inl z ↦ inr (record {
            cli = record {
              has_read = header_len;
              head_done = true;
              buf_done = true;
              ipc_head = header_bytes p.head;
              buf = none;
            };
            result = head_empty part h bs end here (no_payload p.buf z);
            handed = rw (no_payload p.buf z) (unfold payload in refl);
            all = rw (no_payload p.buf z) (append-nil more ∙ sym all);
          })
          | inr s ↦ inl (record {
            cli = filling p [] block;
            rest = p.buf;
            result = inl (head_filled part h bs block end here s granted);
            within = inr (record {
              part = [];
              block = block;
              state = refl;
              size = block_size;
              come = refl;
              whole = refl;
              some_left = s;
            });
            split = ap (λ (m : List ℕ). m ++ p.buf) (sym all);
          })
        ] in
      moves (zero_or (length p.buf))
  head-Moves part h bs more (x ∷ rest) grants size come whole split =
      let less : length part + length bs + suc (length rest) ≡ header_len = omega (
        arith,
        length-append part more,
        length-append bs (x ∷ rest),
        ap (length {A = ℕ}) whole,
        ap (length {A = ℕ}) split,
        length-header_bytes p.head,
      ) in
      inl (record {
        cli = heading (part ++ bs) (put h (length part) bs);
        rest = (x ∷ rest) ++ p.buf;
        result = inr (head_waits part h bs (omega arith));
        within = inl (record {
          part = part ++ bs;
          more = x ∷ rest;
          ipc_head = put h (length part) bs;
          state = refl;
          size = length-put h (length part) bs (omega arith) ∙ size;
          come = take-put h part bs come;
          whole = append_assoc part bs (x ∷ rest) ∙ (ap (◌++◌ part) (sym split) ∙ whole);
          ahead = refl;
          some_left = omega arith;
        });
        split = ap (λ (m : List ℕ). m ++ p.buf) split ∙ append_assoc bs (x ∷ rest) p.buf;
      })

  pub head_room :
      (part h more bs : List ℕ)
      → part ++ more ≡ header_bytes p.head
      → length bs ≤ wants (heading part h)
      → length bs ≤ length more
  unfolding wants
  head_room part h more bs whole fits =
      omega (arith, length-append part more, ap (length {A = ℕ}) whole, length-header_bytes p.head)
