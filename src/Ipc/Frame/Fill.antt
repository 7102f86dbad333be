-- ===== src/Ipc/Frame/Fill.antt =====
-- ipc/uc_ipc_server.c: a read into the payload of a packet.
use utils_c.Io.Random.Put.{length-put, take-put, put-all}
use mathlib.Core.List.{append_assoc, append-nil}
use utils_c.Base.{
  ℕ, ◌+◌, ◌%◌, ◌^◌, ◌<◌, ◌≤◌, ◌≡◌, refl, sym, ap, arith, ◌==◌, ltb, if◌then◌else◌, true, false,
  Option, some, List, [], ◌∷◌, ◌++◌, length, take, length-append, ◌∙◌, inl, inr, suc,
}
use utils_c.Io.{got, minus}
use utils_c.Io.Random.{put}
use utils_c.Ipc.Proto.{Packet, header_len, header_bytes, header_of, header_of-header_bytes}
use utils_c.Ipc.Frame.{wants, waits, message, stored, buf_read, read_step}
use utils_c.Ipc.Frame.Place.{IsPacket, filling, payload, Moves}

payload-some : (xs : List ℕ) → 0 < length xs → payload xs ≡ some xs
unfolding payload
payload-some [] h = absurd (omega arith)
payload-some (x ∷ xs) h = refl

-- A read into the payload: where its bytes are put, and what the loop does then.
module _ (malloc : ℕ → Option (List ℕ)) (p : Packet) (w : IsPacket p) where
  fill_step :
      (part block bs : List ℕ)
      → length part + length bs ≤ length p.buf
      → read_step malloc (filling p part block) (got bs) ≡ (
          if length part + length bs == length p.buf
          then message
              (record (filling p (part ++ bs) (put block (length part) bs)) { buf_done = true })
          else waits (filling p (part ++ bs) (put block (length part) bs)))
  unfolding read_step buf_read stored
  fill_step part block bs h =
      let e1 : (header_len + length part + length bs) % 2 ^ 64 ≡ header_len + length (part ++ bs) =
        omega (arith, length-append part bs, w.room) in
      let e2 : (header_len + (header_of (header_bytes p.head)).ttl) % 2 ^ 64
          ≡ header_len + length p.buf =
        rw (header_of-header_bytes p.head w.head) (omega (arith, w.counted, w.room)) in
      let e3 : minus (header_len + length part) header_len ≡ length part = omega (arith, w.room) in
      let e4 : (header_len + length (part ++ bs) == header_len + length p.buf)
          ≡ (length part + length bs == length p.buf) =
        ground (arith, length-append part bs) in
      let e5 : ltb (header_len + length p.buf) (header_len + length (part ++ bs)) ≡ false =
        ground (arith, length-append part bs) in
      simp (e1, e2, e3, e4, e5) refl

  pub fill-Moves :
      (part block bs need rest : List ℕ)
      → length block ≡ length p.buf
      → take (length part) block ≡ part
      → part ++ need ≡ p.buf
      → need ≡ bs ++ rest
      → 0 < length bs
      → Moves p need bs (read_step malloc (filling p part block) (got bs))
  fill-Moves part block bs need [] size come whole more some_come =
      let all : bs ≡ need = sym (append-nil bs) ∙ sym more in
      let done : part ++ bs ≡ p.buf = ap (◌++◌ part) all ∙ whole in
      let end : length part + length bs ≡ length p.buf =
        sym (length-append part bs) ∙ ap (length {A = ℕ}) done in
      let now : (length part + length bs == length p.buf) ≡ true = ground arith in
      inr (record {
        cli = record (filling p (part ++ bs) (put block (length part) bs)) { buf_done = true };
        result = fill_step part block bs (omega arith) ∙ simp now refl;
        handed =
            ap (λ (b : Option (List ℕ)). (header_bytes p.head, b))
              (ap some (put-all block part bs come (omega arith) ∙ done)
                ∙ sym (payload-some p.buf (omega arith)));
        all = sym all;
      })
  fill-Moves part block bs need (x ∷ rest) size come whole more some_come =
      let fits : length part + length bs + suc (length rest) ≡ length p.buf = omega (
        arith,
        length-append part need,
        length-append bs (x ∷ rest),
        ap (length {A = ℕ}) whole,
        ap (length {A = ℕ}) more,
      ) in
      let later : (length part + length bs == length p.buf) ≡ false = ground arith in
      inl (record {
        cli = filling p (part ++ bs) (put block (length part) bs);
        rest = x ∷ rest;
        result = inr (fill_step part block bs (omega arith) ∙ simp later refl);
        within = inr (record {
          part = part ++ bs;
          block = put block (length part) bs;
          state = refl;
          size = length-put block (length part) bs (omega arith) ∙ size;
          come = take-put block part bs come;
          whole = append_assoc part bs (x ∷ rest) ∙ (ap (◌++◌ part) (sym more) ∙ whole);
          some_left = omega arith;
        });
        split = more;
      })

  pub fill_room :
      (part block need bs : List ℕ)
      → part ++ need ≡ p.buf
      → length bs ≤ wants (filling p part block)
      → length bs ≤ length need
  unfolding wants
  fill_room part block need bs whole fits =
      let ttl : (header_of (header_bytes p.head)).ttl ≡ length p.buf =
        rw (header_of-header_bytes p.head w.head) w.counted in
      let sizes : length part + length need ≡ length p.buf =
        sym (length-append part need) ∙ ap (length {A = ℕ}) whole in
      let here : minus (header_len + length part) header_len ≡ length part =
        omega (arith, w.room) in
      let left : minus (length p.buf) (length part) ≡ length need = omega (arith, w.room) in
      let f = simp (ttl, here, left) at fits in ground arith
