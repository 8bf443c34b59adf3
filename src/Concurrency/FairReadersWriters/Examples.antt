-- ===== src/Concurrency/FairReadersWriters/Examples.antt =====
-- reader-writer-nostarve.c at small inputs: a reader inside and a writer that waits for it.
use operating_systems_theory.Common.{ℕ, arith, inl, inr, refl, suc, zero, ℕ_discrete, ◌<◌, ◌≡◌, ◌≤◌}
use operating_systems_theory.Common.Family.{total, update}
use operating_systems_theory.Concurrency.Threads.{Reach, next, start}
use operating_systems_theory.Concurrency.FairReadersWriters.{
  Move, AtStart, Pc, RwLock, first_reader, init, post_fair, post_lock, print, r_exit, r_start,
  reading, take_fair, take_lock, take_write, w_start, writer_fair, writer_take,
}
use operating_systems_theory.Concurrency.FairReadersWriters.Safety.{fair_writer_excludes_readers}
use operating_systems_theory.Concurrency.FairReadersWriters.Fairness.{no_overtaking}

abbrev pcs : ℕ → Pc
pcs zero = w_start
pcs (suc i) = r_start

pcs-AtStart : (i : ℕ) → i < 2 → AtStart (pcs i)
pcs-AtStart zero h = inr refl
pcs-AtStart (suc i) h = inl refl

-- The writer has passed `fair_lock` while the reader reads.
abbrev queued : (m : RwLock) × (pc : ℕ → Pc) × Reach Move 2 init pcs m pc
unfolding ℕ_discrete
queued = (
  _,
  _,
  next
      (next
        (next
          (next
            (next
              (next (next start 1 (omega arith) (take_fair (omega arith))) 1 (omega arith)
                (take_lock (omega arith)))
              1 (omega arith) (first_reader refl))
            1 (omega arith) (take_write (omega arith)))
          1 (omega arith) post_lock)
        1 (omega arith) post_fair)
      0 (omega arith) (writer_fair (omega arith)),
)

-- A writer inside.
abbrev inside : (m : RwLock) × (pc : ℕ → Pc) × Reach Move 2 init pcs m pc
unfolding ℕ_discrete
inside = (
  _,
  _,
  next (next start 0 (omega arith) (writer_fair (omega arith))) 0 (omega arith)
      (writer_take (omega arith)),
)

no_overtaking_example : total reading 2 (update queued.1 1 r_exit) ≤ total reading 2 queued.1
unfolding ℕ_discrete
no_overtaking_example =
    no_overtaking pcs-AtStart queued.2 0 1 (omega arith) refl (omega arith) print

fair_writer_excludes_readers_example : reading (inside.1 1) ≡ 0
unfolding ℕ_discrete
fair_writer_excludes_readers_example =
    fair_writer_excludes_readers pcs-AtStart inside.2 0 1 (omega arith) (omega arith) refl
