-- ===== src/Io/Random/Fill.antt =====
-- How the loop of random/uc_random.c fills its buffer.
use mathlib.Core.List.{append_assoc, append-nil}
use utils_c.Base.{
  ℕ, zero, suc, ◌+◌, ◌-◌, ◌%◌, ◌^◌, ◌<◌, ◌≤◌, ◌≡◌, ◌≢◌, refl, sym, subst, ◌∙◌, inl, inr, arith,
  ◌==◌, ==_iff, if◌then◌else◌, true, Bool-cases, Option, none, some, some_injective, List, [], ◌∷◌,
  ◌++◌, length, take, drop, replicate, length-append, done, take-append_over, drop-append_over,
}
use utils_c.Io.{ReadResult, got, eof, minus, bytes, Fits}
use utils_c.Io.Random.{put, fill_loop, random, urandom}

drop-replicate : (k n : ℕ) → k ≤ n → drop {A = ℕ} k (replicate n 0) ≡ replicate (n - k) 0
drop-replicate zero n h = let same : n - 0 ≡ n = omega arith in rw same
drop-replicate (suc k) zero h = elim h [ ]
drop-replicate (suc k) (suc n) h =
    let same : suc n - suc k ≡ n - k = omega arith in rw same (drop-replicate k n (omega arith))

-- The buffer with the bytes `xs` in front and zeros behind them.
abbrev partly : List ℕ → ℕ → List ℕ
partly xs n = xs ++ replicate n 0

put-partly :
    (xs bs : List ℕ) (n : ℕ)
    → length bs ≤ n
    → put (partly xs n) (length xs) bs ≡ partly (xs ++ bs) (n - length bs)
put-partly xs bs n h =
    let none_more : length xs - length xs ≡ 0 = omega arith in
    let behind : length xs + length bs - length xs ≡ length bs = omega arith in
    rw (
      take-append_over xs (replicate n 0) (length xs) (omega arith),
      none_more,
      append-nil xs,
      drop-append_over xs (replicate n 0) (length xs + length bs) (omega arith),
      behind,
      drop-replicate (length bs) n h,
      append_assoc,
    )

-- How the loop fills the buffer, with `xs` in front already: `more` comes behind them, and `m` zeros
-- are left.
record Fills (rs : List ReadResult) (xs : List ℕ) (n m : ℕ) (buf : List ℕ) : Type 0 where
  more : List ℕ
  rest : List ℕ
  source : bytes rs ≡ more ++ rest
  filled : buf ≡ partly (xs ++ more) m
  count : length more + m ≡ n

nothing_more : (rs : List ReadResult) (xs : List ℕ) (n : ℕ) → Fills rs xs n n (partly xs n)
nothing_more rs xs n = record {
  more = [];
  rest = bytes rs;
  source = refl;
  filled = rw (append-nil xs);
  count = omega arith;
}

part_in_front :
    (bs : List ℕ) (rs : List ReadResult) (xs : List ℕ) (n m : ℕ) (buf : List ℕ)
    → length bs ≤ n
    → Fills rs (xs ++ bs) (n - length bs) m buf
    → Fills (got bs ∷ rs) xs n m buf
unfolding bytes
part_in_front bs rs xs n m buf h a = record {
  more = bs ++ a.more;
  rest = a.rest;
  source = rw (a.source, append_assoc);
  filled = rw (sym (append_assoc xs bs a.more)) a.filled;
  count = omega (arith, length-append bs a.more, a.count);
}

same_bytes :
    (rs rs' : List ReadResult) {xs : List ℕ} {n m : ℕ} {buf : List ℕ}
    → bytes rs ≡ bytes rs'
    → Fills rs xs n m buf
    → Fills rs' xs n m buf
same_bytes rs rs' e a = record {
  more = a.more;
  rest = a.rest;
  source = sym e ∙ a.source;
  filled = a.filled;
  count = a.count;
}

-- The test of the loop, for a property of its end.
decide_fill :
    (P : ℕ → List ℕ → Type 0) (n : ℕ) (buf : List ℕ) (later : Option (ℕ × List ℕ)) (m : ℕ)
    (end : List ℕ)
    → P n buf
    → (n ≢ 0 → later ≡ some (m, end) → P m end)
    → (if n == 0 then some (n, buf) else later) ≡ some (m, end)
    → P m end
decide_fill P n buf later m end stops go e = elim (Bool-cases (n == 0)) [
  | inl z ↦ let f = rw z at e in subst (λ x. P x.0 x.1) (some_injective f) stops
  | inr nz ↦ let f = rw nz at e in go (λ h. cc ((==_iff n 0).1 h)) f
]

fill_loop-Fills :
    (rs : List ReadResult) (xs : List ℕ) (n m : ℕ) (buf : List ℕ)
    → length xs + n < 2 ^ 64
    → Fits n rs
    → fill_loop rs (partly xs n) n (length xs) ≡ some (m, buf)
    → Fills rs xs n m buf
unfolding fill_loop bytes
fill_loop-Fills [] xs n m buf w fits e =
    decide_fill (Fills [] xs n) n (partly xs n) none m buf (nothing_more [] xs n) (λ nz f. cc) e
fill_loop-Fills (got bs ∷ rs) xs n m buf w fits e =
    decide_fill (Fills (got bs ∷ rs) xs n) n (partly xs n) _ m buf (nothing_more (got bs ∷ rs) xs n)
      (λ nz f.
        let size : minus n (length bs) ≡ n - length bs = omega (arith, fits.0 nz) in
        let on : (length xs + length bs) % 2 ^ 64 ≡ length (xs ++ bs) =
          omega (arith, length-append xs bs, fits.0 nz) in
        let g = rw (put-partly xs bs n (fits.0 nz).1, size, on) at f in
        part_in_front bs rs xs n m buf (fits.0 nz).1 (
          fill_loop-Fills rs (xs ++ bs) (n - length bs) m buf
            (omega (arith, length-append xs bs, fits.0 nz)) fits.1 g))
      e
fill_loop-Fills (eof ∷ rs) xs n m buf w fits e =
    decide_fill (Fills (eof ∷ rs) xs n) n (partly xs n) _ m buf (nothing_more (eof ∷ rs) xs n)
      (λ nz f. same_bytes rs (eof ∷ rs) refl (fill_loop-Fills rs xs n m buf w fits f)) e
fill_loop-Fills (ReadResult.interrupted ∷ rs) xs n m buf w fits e =
    decide_fill (Fills (ReadResult.interrupted ∷ rs) xs n) n (partly xs n) _ m buf
      (nothing_more (ReadResult.interrupted ∷ rs) xs n)
      (λ nz f.
        same_bytes rs (ReadResult.interrupted ∷ rs) refl (fill_loop-Fills rs xs n m buf w fits f))
      e
fill_loop-Fills (ReadResult.again ∷ rs) xs n m buf w fits e =
    decide_fill (Fills (ReadResult.again ∷ rs) xs n) n (partly xs n) _ m buf
      (nothing_more (ReadResult.again ∷ rs) xs n)
      (λ nz f. same_bytes rs (ReadResult.again ∷ rs) refl (fill_loop-Fills rs xs n m buf w fits f))
      e
fill_loop-Fills (ReadResult.broken ∷ rs) xs n m buf w fits e =
    subst (λ x. Fills (ReadResult.broken ∷ rs) xs n x.0 x.1) (some_injective e)
      (nothing_more (ReadResult.broken ∷ rs) xs n)

-- Without a failing read(2), the loop ends when the stream has given enough.
abbrev pub Endless : List ReadResult → Type 0
Endless [] = Unit
Endless (ReadResult.broken ∷ rs) = ⊥
Endless (_ ∷ rs) = Endless rs

decide_ends :
    (n : ℕ) (buf : List ℕ) (later : Option (ℕ × List ℕ))
    → (n ≢ 0 → (end : List ℕ) × (later ≡ some (0, end)))
    → (end : List ℕ) × ((if n == 0 then some (n, buf) else later) ≡ some (0, end))
decide_ends n buf later go = elim (Bool-cases (n == 0)) [
  | inl z ↦ let none_left : n ≡ 0 = (==_iff n 0).0 z in rw none_left (buf, refl)
  | inr nz ↦ rw nz (go (λ h. cc ((==_iff n 0).1 h)))
]

fill_loop-ends :
    (rs : List ReadResult) (buf : List ℕ) (n ttl : ℕ)
    → n < 2 ^ 64
    → Fits n rs
    → Endless rs
    → n ≤ length (bytes rs)
    → (end : List ℕ) × (fill_loop rs buf n ttl ≡ some (0, end))
unfolding fill_loop bytes
fill_loop-ends [] buf n ttl w fits endless enough =
    decide_ends n buf none (λ nz. absurd (nz (omega arith)))
fill_loop-ends (got bs ∷ rs) buf n ttl w fits endless enough = decide_ends n buf _ (λ nz.
    let size : minus n (length bs) ≡ n - length bs = omega (arith, fits.0 nz) in
    rw size (
      fill_loop-ends rs (put buf ttl bs) (n - length bs) ((ttl + length bs) % 2 ^ 64) (omega arith)
        fits.1 endless (omega (arith, length-append bs (bytes rs)))))
fill_loop-ends (eof ∷ rs) buf n ttl w fits endless enough =
    decide_ends n buf _ (λ nz. fill_loop-ends rs buf n ttl w fits endless enough)
fill_loop-ends (ReadResult.interrupted ∷ rs) buf n ttl w fits endless enough =
    decide_ends n buf _ (λ nz. fill_loop-ends rs buf n ttl w fits endless enough)
fill_loop-ends (ReadResult.again ∷ rs) buf n ttl w fits endless enough =
    decide_ends n buf _ (λ nz. fill_loop-ends rs buf n ttl w fits endless enough)
fill_loop-ends (ReadResult.broken ∷ rs) buf n ttl w fits endless enough = elim endless [ ]

-- The bytes of a full buffer.
full_buffer :
    (rs : List ReadResult) (len : ℕ) (buf : List ℕ)
    → Fills rs [] len 0 buf
    → buf ≡ take len (bytes rs)
full_buffer rs len buf a =
    let whole : length a.more ≡ len = omega (arith, a.count) in
    let none_more : len - length a.more ≡ 0 = omega arith in
    rw (
      a.filled,
      append-nil,
      a.source,
      take-append_over a.more a.rest len (omega arith),
      none_more,
      append-nil,
    )

-- When the device opens, read(2) on it does not fail and it gives as many bytes, `uc_random` and
-- `uc_urandom` return 0 and fill the buffer, of fewer than 2 ^ 64 bytes, with exactly the first bytes
-- of the device, whatever the sizes of the parts, the interrupts and the ends of the file between them.
pub random-fills :
    (rs : List ReadResult) (len : ℕ)
    → len < 2 ^ 64
    → Fits len rs
    → Endless rs
    → len ≤ length (bytes rs)
    → (random true rs len ≡ some (done, take len (bytes rs)))
      × (urandom true rs len ≡ some (done, take len (bytes rs)))
unfolding random urandom
random-fills rs len w fits endless enough =
    let run = fill_loop-ends rs (replicate len 0) len 0 w fits endless enough in
    let filled =
      full_buffer rs len run.0 (fill_loop-Fills rs [] len 0 run.0 (omega arith) fits run.1) in
    (rw (run.1, filled), rw (run.1, filled))
