-- ===== src/Io.antt =====
-- The loops over read(2) and write(2): ipc/uc_ipc_io.c, and random/uc_random.c in a child module.
pub mod Read
pub mod Write
pub mod Random
mod Tests
use utils_c.Base.{
  ℕ, zero, suc, ◌+◌, ◌-◌, ◌%◌, ◌^◌, ◌<◌, ◌≤◌, ◌≢◌, ◌==◌, if◌then◌else◌, Bool, true, false, Option,
  none, some, List, [], ◌∷◌, ◌++◌, length, take, drop, replicate, Status, done, failed,
}

-- What one call of read(2) does: it fills in some bytes, reports the end of the file, or fails with
-- EINTR, with EAGAIN or EWOULDBLOCK, or with another error.
pub data ReadResult : Type 0 where
  got : List ℕ → ReadResult
  eof interrupted again broken : ReadResult

-- The same for write(2), which accepts a number of bytes.
pub data WriteResult : Type 0 where
  accepted : ℕ → WriteResult
  interrupted again broken : WriteResult

-- `left -= ret`, as `size_t`
abbrev pub minus : ℕ → ℕ → ℕ
minus left n = (left + 2 ^ 64 - n) % 2 ^ 64

-- How a reading loop ends. `left n` is the return of `n` as an `int`, which keeps 32 bits.
pub data Return : Type 0 where
  left : ℕ → Return
  error : ℕ → Return

abbrev pub as_int : ℕ → Return
as_int n = left (n % 2 ^ 32)

-- `if (ret)`
abbrev pub is_zero : Return → Bool
is_zero (left n) = n == 0
is_zero (error e) = false

pub record ReadEnd : Type 0 where
  pub ret : Return
  pub buf : List ℕ
  pub closed : Bool
  pub rest : List ReadResult

-- `return left;` without an error.
abbrev pub ends : ℕ → List ℕ → Bool → List ReadResult → Option ReadEnd
ends n buf closed rest = some (record { ret = as_int n; buf = buf; closed = closed; rest = rest })

-- The loop of `uc_io_read`, on the results of its calls of read(2): `n` bytes are left to read, and
-- `buf` is filled in; `none` when the loop waits for another result.
unfoldable pub read_loop : List ReadResult → ℕ → List ℕ → Option ReadEnd
read_loop [] n buf = if n == 0 then ends n buf false [] else none
read_loop (got bs ∷ rs) n buf =
    let more = read_loop rs (minus n (length bs)) (buf ++ bs) in
    if n == 0 then ends n buf false (got bs ∷ rs) else more
read_loop (eof ∷ rs) n buf = if n == 0 then ends n buf false (eof ∷ rs) else ends n buf true rs
read_loop (ReadResult.interrupted ∷ rs) n buf =
    let more = read_loop rs n buf in
    if n == 0 then ends n buf false (ReadResult.interrupted ∷ rs) else more
read_loop (ReadResult.again ∷ rs) n buf =
    if n == 0 then ends n buf false (ReadResult.again ∷ rs) else ends n buf false rs
read_loop (ReadResult.broken ∷ rs) n buf =
    if n == 0
    then ends n buf false (ReadResult.broken ∷ rs)
    else some (record { ret = error 0x09ae5c0e; buf = buf; closed = false; rest = rs })

unfoldable pub io_read : List ReadResult → ℕ → Option ReadEnd
unfolding read_loop
io_read rs len = read_loop rs len []

-- The bytes that read(2) hands out.
unfoldable pub bytes : List ReadResult → List ℕ
bytes [] = []
bytes (got bs ∷ rs) = bs ++ bytes rs
bytes (r ∷ rs) = bytes rs

-- read(2) fills in at least one byte, at most as many as it is asked for, and at most 0x7ffff000,
-- which is a positive `int`.
abbrev pub Fits : ℕ → List ReadResult → Type 0
Fits n [] = Unit
Fits n (got bs ∷ rs) =
    (n ≢ 0 → (0 < length bs) × (length bs ≤ n) × (length bs ≤ 0x7ffff000)) × Fits (n - length bs) rs
Fits n (r ∷ rs) = Fits n rs

pub record WriteEnd : Type 0 where
  pub ret : Return
  pub sent : List ℕ
  pub rest : List WriteResult

-- The loop of `uc_io_write`, on the results of its calls of write(2): `n` bytes are left of those at
-- `buf`, from `ttl` on, and `sent` has gone out.
unfoldable pub write_loop : List WriteResult → List ℕ → ℕ → ℕ → List ℕ → Option WriteEnd
write_loop [] buf n ttl sent =
    if n == 0 then some (record { ret = as_int n; sent = sent; rest = [] }) else none
write_loop (accepted zero ∷ rs) buf n ttl sent =
    if n == 0
    then some (record { ret = as_int n; sent = sent; rest = accepted zero ∷ rs })
    else some (record { ret = as_int n; sent = sent; rest = rs })
write_loop (accepted (suc k) ∷ rs) buf n ttl sent =
    let more =
      write_loop rs buf (minus n (suc k)) ((ttl + suc k) % 2 ^ 64)
        (sent ++ take (suc k) (drop ttl buf)) in
    if n == 0
    then some (record { ret = as_int n; sent = sent; rest = accepted (suc k) ∷ rs })
    else more
write_loop (WriteResult.interrupted ∷ rs) buf n ttl sent =
    let more = write_loop rs buf n ttl sent in
    if n == 0
    then some (record { ret = as_int n; sent = sent; rest = WriteResult.interrupted ∷ rs })
    else more
write_loop (WriteResult.again ∷ rs) buf n ttl sent =
    let more = write_loop rs buf n ttl sent in
    if n == 0
    then some (record { ret = as_int n; sent = sent; rest = WriteResult.again ∷ rs })
    else more
write_loop (WriteResult.broken ∷ rs) buf n ttl sent =
    if n == 0
    then some (record { ret = as_int n; sent = sent; rest = WriteResult.broken ∷ rs })
    else some (record { ret = error 0x11b0ae4f; sent = sent; rest = rs })

unfoldable pub io_write : List WriteResult → List ℕ → ℕ → Option WriteEnd
unfolding write_loop
io_write rs buf len = write_loop rs buf len 0 []

-- write(2) accepts at most as many bytes as it is given, and at most 0x7ffff000, which is a positive
-- `int`.
abbrev pub Takes : ℕ → List WriteResult → Type 0
Takes n [] = Unit
Takes n (accepted k ∷ rs) = ((k ≤ n) × (k ≤ 0x7ffff000)) × Takes (n - k) rs
Takes n (r ∷ rs) = Takes n rs
