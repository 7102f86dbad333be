-- ===== src/Io/Tests.antt =====
-- Runs of the loops over read(2) and write(2).
use utils_c.Base.{done, ℕ, ◌^◌, ◌≤◌, ◌≡◌, refl, arith, true, false, some, List, [], ◌∷◌}
use utils_c.Io.{
  ReadResult, got, eof, WriteResult, accepted, ReadEnd, WriteEnd, left, error, Fits, read_loop,
  io_read, write_loop, io_write, bytes,
}
use utils_c.Io.Read.{Accounts, Complete, io_read-Accounts, io_read-Complete, io_read-again}
use utils_c.Io.Random.{random, urandom}
use utils_c.Io.Random.Fill.{random-fills}
use utils_c.Io.Write.{Sends, Delivered, io_write-Sends, io_write-Delivered}

-- Five bytes that come in two parts, with an interrupt, and then the end of the file.
abbrev stream : List ReadResult
stream = got (1 ∷ 2 ∷ []) ∷ ReadResult.interrupted ∷ got (3 ∷ 4 ∷ 5 ∷ []) ∷ eof ∷ []

-- The peer closes while two bytes are missing.
abbrev early : ReadEnd
early = record { ret = left 2; buf = 1 ∷ 2 ∷ 3 ∷ 4 ∷ 5 ∷ []; closed = true; rest = [] }

early_run : io_read stream 7 ≡ some early
unfolding io_read read_loop
early_run = refl

stream-Fits : Fits 7 stream
stream-Fits = (
  (λ h. (omega arith, omega arith, omega arith)),
  ((λ h. (omega arith, omega arith, omega arith)), tt),
)

io_read-Accounts_example : Accounts stream 7 [] early
io_read-Accounts_example = io_read-Accounts stream 7 early (omega arith) stream-Fits early_run

abbrev steady : List ReadResult
steady = got (1 ∷ 2 ∷ []) ∷ ReadResult.interrupted ∷ got (3 ∷ 4 ∷ 5 ∷ []) ∷ got (6 ∷ []) ∷ []

steady-Fits : Fits 5 steady
steady-Fits = (
  (λ h. (omega arith, omega arith, omega arith)),
  ((λ h. (omega arith, omega arith, omega arith)), ((λ h. absurd (h refl)), tt)),
)

steady_enough : 5 ≤ 6
steady_enough = omega arith

steady_bytes : bytes steady ≡ 1 ∷ 2 ∷ 3 ∷ 4 ∷ 5 ∷ 6 ∷ []
unfolding bytes
steady_bytes = refl

io_read-Complete_example : Complete steady 5 [] (io_read steady 5)
io_read-Complete_example =
    io_read-Complete steady 5 (omega arith) steady-Fits tt (rw steady_bytes steady_enough)

io_read-again_example :
    io_read (ReadResult.again ∷ stream) (2 ^ 32)
    ≡ some (record { ret = left 0; buf = []; closed = false; rest = stream })
io_read-again_example = io_read-again stream 0

abbrev message : List ℕ
message = 10 ∷ 20 ∷ 30 ∷ 40 ∷ []

abbrev torn : List WriteResult
torn = accepted 3 ∷ WriteResult.again ∷ WriteResult.broken ∷ []

-- The connection breaks behind the third byte.
abbrev torn_end : WriteEnd
torn_end = record { ret = error 0x11b0ae4f; sent = 10 ∷ 20 ∷ 30 ∷ []; rest = [] }

torn_run : io_write torn message 4 ≡ some torn_end
unfolding io_write write_loop
torn_run = refl

io_write-Sends_example : Sends message 4 torn_end
io_write-Sends_example =
    io_write-Sends torn message 4 torn_end (omega arith) ((omega arith, omega arith), tt) torn_run

abbrev patient : List WriteResult
patient = accepted 1 ∷ WriteResult.again ∷ accepted 2 ∷ WriteResult.interrupted ∷ accepted 1 ∷ []

io_write-Delivered_example : Delivered message 4 (io_write patient message 4)
io_write-Delivered_example =
    io_write-Delivered patient message 4 (omega arith)
      ((omega arith, omega arith), ((omega arith, omega arith), ((omega arith, omega arith), tt)))
      tt (omega arith)

random-fills_example :
    (random true steady 5 ≡ some (done, 1 ∷ 2 ∷ 3 ∷ 4 ∷ 5 ∷ []))
    × (urandom true steady 5 ≡ some (done, 1 ∷ 2 ∷ 3 ∷ 4 ∷ 5 ∷ []))
unfolding bytes
random-fills_example = random-fills steady 5 (omega arith) steady-Fits tt steady_enough
