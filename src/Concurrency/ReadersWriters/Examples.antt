-- ===== src/Concurrency/ReadersWriters/Examples.antt =====
-- reader-writer.c at small inputs: a writer inside, with a reader in front of the lock.
use operating_systems_theory.Common.{ℕ, arith, inl, inr, refl, suc, zero, ℕ_discrete, ◌<◌, ◌≡◌}
use operating_systems_theory.Concurrency.Threads.{Reach, next, start}
use operating_systems_theory.Concurrency.ReadersWriters.{
  Move, AtStart, Pc, RwLock, first_reader, init, r_start, reading, take_lock, w_start, writer_take,
}
use operating_systems_theory.Concurrency.ReadersWriters.Safety.{
  writers_exclude, writer_excludes_readers,
}

abbrev pcs : ℕ → Pc
pcs zero = w_start
pcs (suc i) = r_start

pcs-AtStart : (i : ℕ) → i < 2 → AtStart (pcs i)
pcs-AtStart zero h = inr refl
pcs-AtStart (suc i) h = inl refl

-- The writer is inside; the reader is counted and waits for the semaphore of the writer.
abbrev inside : (m : RwLock) × (pc : ℕ → Pc) × Reach Move 2 init pcs m pc
unfolding ℕ_discrete
inside = (
  _,
  _,
  next
      (next (next start 0 (omega arith) (writer_take (omega arith))) 1 (omega arith)
        (take_lock (omega arith)))
      1 (omega arith) (first_reader refl),
)

writer_excludes_readers_example : reading (inside.1 1) ≡ 0
unfolding ℕ_discrete
writer_excludes_readers_example =
    writer_excludes_readers pcs-AtStart inside.2 0 1 (omega arith) (omega arith) refl

writers_exclude_test : ◌≡◌ {A = ℕ} 0 0
unfolding ℕ_discrete
writers_exclude_test =
    writers_exclude pcs-AtStart inside.2 0 0 (omega arith) (omega arith) refl refl
