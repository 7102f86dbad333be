-- ===== src/Io/Random.antt =====
-- random/uc_random.c: a buffer filled from /dev/random or /dev/urandom.
pub mod Fill
pub mod Put
use utils_c.Base.{
  ℕ, zero, suc, ◌+◌, ◌-◌, ◌%◌, ◌^◌, ◌<◌, ◌≤◌, ◌≡◌, ◌≢◌, refl, sym, subst, ◌∙◌, ◌⊎◌, inl, inr, arith,
  ap, ap₂, ◌==◌, ==_iff, if◌then◌else◌, Bool, true, false, Bool-cases, Option, none, some,
  some_injective, List, [], ◌∷◌, ◌++◌, length, take, drop, replicate, length-append, Status, done,
  failed, take-append_over, drop-append_over,
}
use utils_c.Io.{ReadResult, got, eof, minus}

-- The bytes `bs` written at index `i` of a buffer.
abbrev pub put : List ℕ → ℕ → List ℕ → List ℕ
put buf i bs = take i buf ++ (bs ++ drop (i + length bs) buf)

-- The loop over read(2): what is left, and the buffer. The end of the file does not end it.
pub fill_loop : List ReadResult → List ℕ → ℕ → ℕ → Option (ℕ × List ℕ)
fill_loop [] buf n ttl = if n == 0 then some (n, buf) else none
fill_loop (got bs ∷ rs) buf n ttl =
    let more = fill_loop rs (put buf ttl bs) (minus n (length bs)) ((ttl + length bs) % 2 ^ 64) in
    if n == 0 then some (n, buf) else more
fill_loop (ReadResult.broken ∷ rs) buf n ttl = some (n, buf)
fill_loop (_ ∷ rs) buf n ttl =
    let more = fill_loop rs buf n ttl in if n == 0 then some (n, buf) else more

-- The return for what is left.
abbrev pub status : ℕ → Status
status n = if n == 0 then done else failed 0x5d4a2a08

abbrev pub close : Option (ℕ × List ℕ) → Option (Status × List ℕ)
close none = none
close (some (n, buf)) = some (status n, buf)

-- Whether the device opens, the results of read(2) on it, and the length of the buffer.
pub random : Bool → List ReadResult → ℕ → Option (Status × List ℕ)
unfolding fill_loop
random false rs len = some (failed 0x0fe3a13d, replicate len 0)
random true rs len = close (fill_loop rs (replicate len 0) len 0)

pub urandom : Bool → List ReadResult → ℕ → Option (Status × List ℕ)
unfolding fill_loop
urandom false rs len = some (failed 0x0fe3a13d, replicate len 0)
urandom true rs len = close (fill_loop rs (replicate len 0) len 0)
