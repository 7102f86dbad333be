-- ===== src/Io/Write.antt =====
-- What `uc_io_write` promises.
use utils_c.Base.{
  ℕ, zero, suc, ◌+◌, ◌-◌, ◌%◌, ◌^◌, ◌<◌, ◌≤◌, ◌≡◌, ◌≢◌, refl, subst, ◌⊎◌, inl, inr, arith, ◌==◌,
  ==_iff, if◌then◌else◌, Bool-cases, Option, none, some, some_injective, List, [], ◌∷◌, take,
  take_add,
}
use utils_c.Io.{
  WriteResult, accepted, left, error, as_int, minus, WriteEnd, write_loop, io_write, Takes,
}

-- How the end of a loop accounts for the bytes: the first `count` have gone out, of `len`.
pub record Sends (buf : List ℕ) (len : ℕ) (r : WriteEnd) : Type 0 where
  pub count : ℕ
  pub sent : r.sent ≡ take count buf
  pub within : count ≤ len
  pub returned : (r.ret ≡ error 0x11b0ae4f) ⊎ (r.ret ≡ as_int (len - count))

module _ (buf : List ℕ) (len : ℕ) where
  halt :
      (n ttl : ℕ) (rest : List WriteResult) {r : WriteEnd}
      → ttl + n ≡ len
      → some (record { ret = as_int n; sent = take ttl buf; rest = rest }) ≡ some r
      → Sends buf len r
  halt n ttl rest size e = subst (Sends buf len) (some_injective e) (record {
    count = ttl;
    sent = refl;
    within = omega arith;
    returned = let same : n ≡ len - ttl = omega arith in inr (rw same);
  })

  -- The test of the loop, for each result that stands next.
  decide_write :
      (n ttl : ℕ) (rs : List WriteResult) (later : Option WriteEnd) (r : WriteEnd)
      → ttl + n ≡ len
      → (n ≢ 0 → later ≡ some r → Sends buf len r)
      → (if n == 0 then some (record { ret = as_int n; sent = take ttl buf; rest = rs }) else later)
        ≡ some r
      → Sends buf len r
  decide_write n ttl rs later r size go e = elim (Bool-cases (n == 0)) [
    | inl z ↦ let f = rw z at e in halt n ttl rs size f
    | inr nz ↦ let f = rw nz at e in go (λ h. cc ((==_iff n 0).1 h)) f
  ]

  write_loop-Sends :
      (rs : List WriteResult) (n ttl : ℕ) (r : WriteEnd)
      → len < 2 ^ 64
      → ttl + n ≡ len
      → Takes n rs
      → write_loop rs buf n ttl (take ttl buf) ≡ some r
      → Sends buf len r
  unfolding write_loop
  write_loop-Sends [] n ttl r w size fits e = decide_write n ttl [] none r size (λ nz f. cc) e
  write_loop-Sends (accepted zero ∷ rs) n ttl r w size fits e =
      decide_write n ttl (accepted zero ∷ rs) _ r size (λ nz f. halt n ttl rs size f) e
  write_loop-Sends (accepted (suc k) ∷ rs) n ttl r w size fits e =
      decide_write n ttl (accepted (suc k) ∷ rs) _ r size
        (λ nz f.
          let rest : minus n (suc k) ≡ n - suc k = omega arith in
          let on : (ttl + suc k) % 2 ^ 64 ≡ ttl + suc k = omega arith in
          let g = rw (rest, on, take_add ttl (suc k) buf) at f in
          write_loop-Sends rs (n - suc k) (ttl + suc k) r w (omega arith) fits.1 g)
        e
  write_loop-Sends (WriteResult.interrupted ∷ rs) n ttl r w size fits e =
      decide_write n ttl (WriteResult.interrupted ∷ rs) _ r size
        (λ nz f. write_loop-Sends rs n ttl r w size fits f) e
  write_loop-Sends (WriteResult.again ∷ rs) n ttl r w size fits e =
      decide_write n ttl (WriteResult.again ∷ rs) _ r size
        (λ nz f. write_loop-Sends rs n ttl r w size fits f) e
  write_loop-Sends (WriteResult.broken ∷ rs) n ttl r w size fits e =
      decide_write n ttl (WriteResult.broken ∷ rs) _ r size
        (λ nz f.
          subst (Sends buf len) (some_injective f)
            (record { count = ttl; sent = refl; within = omega arith; returned = inl refl }))
        e

-- A run of `uc_io_write` that ends, on results of write(2) that fit what it is given, has sent the
-- first bytes of the buffer, each once and in order. It returns the error, or the number of bytes it
-- has not sent, as an `int`.
pub io_write-Sends :
    (rs : List WriteResult) (buf : List ℕ) (len : ℕ) (r : WriteEnd)
    → len < 2 ^ 64
    → Takes len rs
    → io_write rs buf len ≡ some r
    → Sends buf len r
unfolding io_write
io_write-Sends rs buf len r w fits e = write_loop-Sends buf len rs len 0 r w (omega arith) fits e

-- write(2) goes on accepting bytes: it is interrupted or has no space at times, and does not fail.
abbrev pub Willing : List WriteResult → Type 0
Willing [] = Unit
Willing (accepted zero ∷ rs) = ⊥
Willing (accepted (suc k) ∷ rs) = Willing rs
Willing (WriteResult.broken ∷ rs) = ⊥
Willing (_ ∷ rs) = Willing rs

-- The number of bytes that write(2) accepts.
abbrev pub room : List WriteResult → ℕ
room [] = 0
room (accepted k ∷ rs) = k + room rs
room (r ∷ rs) = room rs

module _ (buf : List ℕ) (len : ℕ) where
  abbrev pub Delivered : Option WriteEnd → Type 0
  Delivered loop =
      (rest : List WriteResult) × (loop
        ≡ some (record { ret = left 0; sent = take len buf; rest = rest }))

  decide_Delivered :
      (n ttl : ℕ) (rs : List WriteResult) (later : Option WriteEnd)
      → ttl + n ≡ len
      → (n ≢ 0 → Delivered later)
      → Delivered (
          if n == 0
          then some (record { ret = as_int n; sent = take ttl buf; rest = rs })
          else later)
  decide_Delivered n ttl rs later size go = elim (Bool-cases (n == 0)) [
    | inl z ↦
        let none_left : n ≡ 0 = (==_iff n 0).0 z in
        let all : ttl ≡ len = omega arith in rw (none_left, all) (rs, refl)
    | inr nz ↦ rw nz (go (λ h. cc ((==_iff n 0).1 h)))
  ]

  write_loop-Delivered :
      (rs : List WriteResult) (n ttl : ℕ)
      → len < 2 ^ 64
      → ttl + n ≡ len
      → Takes n rs
      → Willing rs
      → n ≤ room rs
      → Delivered (write_loop rs buf n ttl (take ttl buf))
  unfolding write_loop
  write_loop-Delivered [] n ttl w size fits willing enough =
      decide_Delivered n ttl [] none size (λ nz. absurd (nz (omega arith)))
  write_loop-Delivered (accepted zero ∷ rs) n ttl w size fits willing enough = elim willing [ ]
  write_loop-Delivered (accepted (suc k) ∷ rs) n ttl w size fits willing enough =
      decide_Delivered n ttl (accepted (suc k) ∷ rs) _ size (λ nz.
        let rest : minus n (suc k) ≡ n - suc k = omega arith in
        let on : (ttl + suc k) % 2 ^ 64 ≡ ttl + suc k = omega arith in
        rw (rest, on, take_add ttl (suc k) buf)
          (write_loop-Delivered rs (n - suc k) (ttl + suc k) w (omega arith) fits.1 willing
            (omega arith)))
  write_loop-Delivered (WriteResult.interrupted ∷ rs) n ttl w size fits willing enough =
      decide_Delivered n ttl (WriteResult.interrupted ∷ rs) _ size
        (λ nz. write_loop-Delivered rs n ttl w size fits willing enough)
  write_loop-Delivered (WriteResult.again ∷ rs) n ttl w size fits willing enough =
      decide_Delivered n ttl (WriteResult.again ∷ rs) _ size
        (λ nz. write_loop-Delivered rs n ttl w size fits willing enough)
  write_loop-Delivered (WriteResult.broken ∷ rs) n ttl w size fits willing enough = elim willing [ ]

-- However few bytes write(2) accepts at a time, and however often it is interrupted or has no space,
-- `uc_io_write` of fewer than 2 ^ 64 bytes ends when as many are accepted: it returns 0 and has sent
-- exactly the first `len` bytes of the buffer.
pub io_write-Delivered :
    (rs : List WriteResult) (buf : List ℕ) (len : ℕ)
    → len < 2 ^ 64
    → Takes len rs
    → Willing rs
    → len ≤ room rs
    → Delivered buf len (io_write rs buf len)
unfolding io_write
io_write-Delivered rs buf len w fits willing enough =
    write_loop-Delivered buf len rs len 0 w (omega arith) fits willing enough
