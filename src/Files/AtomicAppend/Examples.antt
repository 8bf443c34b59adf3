-- ===== src/Files/AtomicAppend/Examples.antt =====
-- atomic_append.c with two processes.
use operating_systems_theory.Common.{ℕ, arith, refl, ℕ_discrete, ◌*◌, ◌+◌, ◌≡◌}
use operating_systems_theory.Common.Family.{total}
use operating_systems_theory.Concurrency.Threads.{Reach, next, start}
use operating_systems_theory.Files.AtomicAppend.{
  Move, Pc, append-size, append_flag, created, head, lost_bytes, lseek, unwritten, write_end,
}

abbrev appended : (size : ℕ) × (pc : ℕ → Pc) × Reach (Move (append_flag 3)) 2 7 (created 2) size pc
unfolding ℕ_discrete append_flag
appended = (_, _, next (next start 0 (omega arith) lseek) 0 (omega arith) (write_end refl))

append-size_test : appended.0 + total unwritten 2 appended.1 ≡ 7 + 2 * 2
unfolding ℕ_discrete append_flag
append-size_test = append-size 3 refl appended.2

lost_bytes_test :
    (pc : ℕ → Pc) × Reach (Move (append_flag 4)) 2 0 (created 5) (0 + 5) pc
    × (pc 0 ≡ head 0)
    × (pc 1 ≡ head 0)
lost_bytes_test = lost_bytes 5 0
