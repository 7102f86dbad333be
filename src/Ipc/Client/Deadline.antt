-- ===== src/Ipc/Client/Deadline.antt =====
-- ipc/uc_ipc_client.c: until when `uc_ipc_client_wait_ack` waits.
use utils_c.Base.{ℕ, ◌+◌, ◌*◌, ◌%◌, ◌<◌, ◌≡◌, ◌↔◌, arith}
use utils_c.Ipc.Client.{deadline}

-- The time that a wait ends at is the time of day and the milliseconds together. Its nanoseconds are
-- fewer than 10 ^ 9, as pthread_cond_timedwait wants them, exactly when the fractions of a second of
-- the two do not add up to a second; the microseconds of the time of day are fewer than 10 ^ 6.
pub deadline-bounds :
    (sec usec wait_millisecond : ℕ)
    → usec < 1000000
    → ((deadline sec usec wait_millisecond).0 * 1000000000 + (deadline sec usec wait_millisecond).1
        ≡ sec * 1000000000 + usec * 1000 + wait_millisecond * 1000000)
      × (((deadline sec usec wait_millisecond).1 < 1000000000)
          ↔ (usec + wait_millisecond % 1000 * 1000 < 1000000))
unfolding deadline
deadline-bounds sec usec wait_millisecond h =
    (omega arith, ((λ k. omega arith), (λ k. omega arith)))
