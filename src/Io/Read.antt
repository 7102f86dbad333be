-- ===== src/Io/Read.antt =====
-- What `uc_io_read` promises.
use mathlib.Core.List.{append_assoc, append-nil}
use utils_c.Base.{
  suc, ◌*◌, ◌%◌, take-append_over, drop-append_over, ℕ, ◌-◌, ◌^◌, ◌<◌, ◌≤◌, ◌≡◌, ◌≢◌, refl, sym,
  subst, ◌∙◌, ◌⊎◌, inl, inr, arith, ◌==◌, ==_iff, if◌then◌else◌, Bool, true, false, Bool-cases,
  Option, none, some, some_injective, List, [], ◌∷◌, ◌++◌, length, take, drop, length-append,
}
use utils_c.Io.{
  ReadResult, got, eof, Return, left, error, as_int, minus, ends, ReadEnd, read_loop, io_read,
  bytes, Fits,
}

-- How the end of a loop accounts for the bytes: `more` was filled in, of `n` asked for.
pub record Accounts (rs : List ReadResult) (n : ℕ) (buf : List ℕ) (r : ReadEnd) : Type 0 where
  pub more : List ℕ
  pub filled : r.buf ≡ buf ++ more
  pub source : bytes rs ≡ more ++ bytes r.rest
  pub within : length more ≤ n
  pub returned : (r.ret ≡ error 0x09ae5c0e) ⊎ (r.ret ≡ as_int (n - length more))
  pub at_end : r.closed ≡ true → length more < n

-- An end with nothing more filled in.
stop :
    (rs rest : List ReadResult) (n : ℕ) (buf : List ℕ) (closed : Bool) {r : ReadEnd}
    → bytes rs ≡ bytes rest
    → (closed ≡ true → 0 < n)
    → ends n buf closed rest ≡ some r
    → Accounts rs n buf r
stop rs rest n buf closed e c f = subst (Accounts rs n buf) (some_injective f) (record {
  more = [];
  filled = sym (append-nil buf);
  source = e;
  within = omega arith;
  returned = let whole : n - 0 ≡ n = omega arith in inr (rw whole);
  at_end = c;
})

eq_zero : (n : ℕ) → (n == 0) ≡ true → n ≡ 0
eq_zero n h = ground arith

returned_congr :
    (ret : Return) (x y : ℕ)
    → x ≡ y
    → (ret ≡ error 0x09ae5c0e) ⊎ (ret ≡ as_int x)
    → (ret ≡ error 0x09ae5c0e) ⊎ (ret ≡ as_int y)
returned_congr ret x y e h = subst (λ z. (ret ≡ error 0x09ae5c0e) ⊎ (ret ≡ as_int z)) e h

module _ (n : ℕ) (buf : List ℕ) (r : ReadEnd) where
  -- The test of the loop, for each result that stands next.
  decide_loop :
      (rs : List ReadResult) (later : Option ReadEnd)
      → ((n ≢ 0) → later ≡ some r → Accounts rs n buf r)
      → (if n == 0 then ends n buf false rs else later) ≡ some r
      → Accounts rs n buf r
  decide_loop rs later go e = elim (Bool-cases (n == 0)) [
    | inl z ↦ let f = rw z at e in stop rs rs n buf false refl (λ h. cc) f
    | inr nz ↦ let f = rw nz at e in go (λ h. cc ((==_iff n 0).1 h)) f
  ]

read_loop-Accounts :
    (rs : List ReadResult) (n : ℕ) (buf : List ℕ) (r : ReadEnd)
    → n < 2 ^ 64
    → Fits n rs
    → read_loop rs n buf ≡ some r
    → Accounts rs n buf r
unfolding read_loop bytes
read_loop-Accounts [] n buf r w fits e = decide_loop n buf r [] none (λ nz f. cc) e
read_loop-Accounts (got bs ∷ rs) n buf r w fits e =
    decide_loop n buf r (got bs ∷ rs) _
      (λ nz f.
        let size : minus n (length bs) ≡ n - length bs = omega (arith, fits.0 nz) in
        let g = rw size at f in
        let a = read_loop-Accounts rs (n - length bs) (buf ++ bs) r (omega arith) fits.1 g in
        record {
          more = bs ++ a.more;
          filled = a.filled ∙ append_assoc buf bs a.more;
          source = rw (a.source, append_assoc);
          within = omega (arith, length-append bs a.more, a.within, fits.0 nz);
          returned =
              let same : n - length bs - length a.more ≡ n - length (bs ++ a.more) =
                omega (arith, length-append bs a.more) in
              returned_congr r.ret (n - length bs - length a.more) (n - length (bs ++ a.more)) same
                a.returned;
          at_end = λ h. omega (arith, length-append bs a.more, a.at_end h, fits.0 nz);
        })
      e
read_loop-Accounts (eof ∷ rs) n buf r w fits e =
    decide_loop n buf r (eof ∷ rs) _
      (λ nz f. stop (eof ∷ rs) rs n buf true refl (λ h. omega arith) f) e
read_loop-Accounts (ReadResult.interrupted ∷ rs) n buf r w fits e =
    decide_loop n buf r (ReadResult.interrupted ∷ rs) _
      (λ nz f.
        let a = read_loop-Accounts rs n buf r w fits f in
        record {
          more = a.more;
          filled = a.filled;
          source = a.source;
          within = a.within;
          returned = a.returned;
          at_end = a.at_end;
        })
      e
read_loop-Accounts (ReadResult.again ∷ rs) n buf r w fits e =
    decide_loop n buf r (ReadResult.again ∷ rs) _
      (λ nz f. stop (ReadResult.again ∷ rs) rs n buf false refl (λ h. cc) f) e
read_loop-Accounts (ReadResult.broken ∷ rs) n buf r w fits e =
    decide_loop n buf r (ReadResult.broken ∷ rs) _
      (λ nz f. subst (Accounts (ReadResult.broken ∷ rs) n buf) (some_injective f) (record {
        more = [];
        filled = sym (append-nil buf);
        source = refl;
        within = omega arith;
        returned = inl refl;
        at_end = λ h. cc;
      }))
      e

-- A run of `uc_io_read` that ends, on results of read(2) that fit in the space left, has filled in
-- exactly the first bytes of the stream and has left the others unread. It returns the error, or the
-- number of bytes that are missing, as an `int`. It tells of a closed peer only when bytes are missing.
pub io_read-Accounts :
    (rs : List ReadResult) (len : ℕ) (r : ReadEnd)
    → len < 2 ^ 64
    → Fits len rs
    → io_read rs len ≡ some r
    → Accounts rs len [] r
unfolding io_read
io_read-Accounts rs len r w fits e = read_loop-Accounts rs len [] r w fits e

-- A stream without an error or an end: read(2) hands out bytes or is interrupted.
abbrev pub Steady : List ReadResult → Type 0
Steady [] = Unit
Steady (got bs ∷ rs) = Steady rs
Steady (ReadResult.interrupted ∷ rs) = Steady rs
Steady (_ ∷ rs) = ⊥

-- The end of a loop that has read all of it.
pub record Complete (rs : List ReadResult) (n : ℕ) (buf : List ℕ) (loop : Option ReadEnd)
    : Type 0 where
  pub rest : List ReadResult
  pub result :
      loop
      ≡ some (record { ret = left 0; buf = buf ++ take n (bytes rs); closed = false; rest = rest })
  pub unread : bytes rest ≡ drop n (bytes rs)

-- With nothing left to read, the loop ends before the next result.
nothing_left :
    (rs : List ReadResult) (n : ℕ) (buf : List ℕ) (later : Option ReadEnd)
    → n ≡ 0
    → Complete rs n buf (if n == 0 then ends n buf false rs else later)
nothing_left rs n buf later z =
    rw z record { rest = rs; result = rw (append-nil buf); unread = refl }

decide_Complete :
    (rs : List ReadResult) (n : ℕ) (buf : List ℕ) (later : Option ReadEnd)
    → ((n ≢ 0) → Complete rs n buf later)
    → Complete rs n buf (if n == 0 then ends n buf false rs else later)
decide_Complete rs n buf later go = elim (Bool-cases (n == 0)) [
  | inl z ↦ nothing_left rs n buf later (eq_zero n z)
  | inr nz ↦ rw nz (go (λ h. cc ((==_iff n 0).1 h)))
]

-- The bytes of one result in front of the rest.
bytes_in_front :
    (bs : List ℕ) (rs : List ReadResult) (n : ℕ) (buf : List ℕ) {later : Option ReadEnd}
    → length bs ≤ n
    → Complete rs (n - length bs) (buf ++ bs) later
    → Complete (got bs ∷ rs) n buf later
unfolding bytes
bytes_in_front bs rs n buf h a = record {
  rest = a.rest;
  result =
      rw
        (
          take-append_over bs (bytes rs) n h,
          sym (append_assoc buf bs (take (n - length bs) (bytes rs))),
        )
        a.result;
  unread = rw (drop-append_over bs (bytes rs) n h) a.unread;
}

read_loop-Complete :
    (rs : List ReadResult) (n : ℕ) (buf : List ℕ)
    → n < 2 ^ 64
    → Fits n rs
    → Steady rs
    → n ≤ length (bytes rs)
    → Complete rs n buf (read_loop rs n buf)
unfolding read_loop bytes
read_loop-Complete [] n buf w fits steady enough =
    decide_Complete [] n buf none (λ nz. absurd (nz (omega arith)))
read_loop-Complete (got bs ∷ rs) n buf w fits steady enough =
    decide_Complete (got bs ∷ rs) n buf _ (λ nz.
      let size : minus n (length bs) ≡ n - length bs = omega (arith, fits.0 nz) in
      let a =
        read_loop-Complete rs (n - length bs) (buf ++ bs) (omega arith) fits.1 steady
          (omega (arith, length-append bs (bytes rs))) in
      rw size (bytes_in_front bs rs n buf (fits.0 nz).1 a))
read_loop-Complete (ReadResult.interrupted ∷ rs) n buf w fits steady enough =
    decide_Complete (ReadResult.interrupted ∷ rs) n buf _ (λ nz.
      let a = read_loop-Complete rs n buf w fits steady enough in
      record { rest = a.rest; result = a.result; unread = a.unread })
read_loop-Complete (eof ∷ rs) n buf w fits steady enough = elim steady [ ]
read_loop-Complete (ReadResult.again ∷ rs) n buf w fits steady enough = elim steady [ ]
read_loop-Complete (ReadResult.broken ∷ rs) n buf w fits steady enough = elim steady [ ]

-- However read(2) cuts up the stream and however often it is interrupted, `uc_io_read` of fewer than
-- 2 ^ 64 bytes ends as soon as the stream has given as many: it returns 0 with exactly the first `len`
-- bytes in the buffer, and the stream goes on behind them.
pub io_read-Complete :
    (rs : List ReadResult) (len : ℕ)
    → len < 2 ^ 64
    → Fits len rs
    → Steady rs
    → len ≤ length (bytes rs)
    → Complete rs len [] (io_read rs len)
unfolding io_read
io_read-Complete rs len w fits steady enough = read_loop-Complete rs len [] w fits steady enough

-- For a length that is a multiple of 2 ^ 32, and not zero, the number of missing bytes is lost in the
-- conversion to `int`: when there is nothing to read yet, `uc_io_read` returns 0, which says that all
-- was read, with nothing in the buffer.
pub io_read-again :
    (rs : List ReadResult) (k : ℕ)
    → io_read (ReadResult.again ∷ rs) (suc k * 2 ^ 32)
      ≡ some (record { ret = left 0; buf = []; closed = false; rest = rs })
unfolding io_read read_loop
io_read-again rs k =
    let some_left : (suc k * 2 ^ 32 == 0) ≡ false = ground arith in
    let lost : suc k * 2 ^ 32 % 2 ^ 32 ≡ 0 = omega arith in rw (some_left, lost)
