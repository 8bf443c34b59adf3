-- ===== src/Concurrency/Threads.antt =====
-- Threads over shared memory, interleaved in any order. A program gives the relation `Move` of one
-- thread's steps: memory and program counter before, memory and program counter after.
use operating_systems_theory.Common.{ℕ, ◌<◌}
use operating_systems_theory.Common.Family.{update}

module _ {Mem Pc : Type 0} (Move : Mem → Pc → Mem → Pc → Type 0) (n : ℕ) where
  -- The states that `n` threads reach; an index from `n` on names no thread and never moves.
  pub data Reach (m₀ : Mem) (pc₀ : ℕ → Pc) : Mem → (ℕ → Pc) → Type 0 where
    start : Reach m₀ pc₀ m₀ pc₀
    next :
        {m m' : Mem} {pc : ℕ → Pc} {p' : Pc}
        → Reach m₀ pc₀ m pc
        → (i : ℕ) → i < n
        → Move m (pc i) m' p'
        → Reach m₀ pc₀ m' (update pc i p')

  -- What holds at the start and is kept by every move holds in every reachable state.
  pub Reach-keeps :
      (P : Mem → (ℕ → Pc) → Type 0)
      → ((m m' : Mem) (pc : ℕ → Pc) (i : ℕ) (p' : Pc)
          → i < n
          → Move m (pc i) m' p'
          → P m pc
          → P m' (update pc i p'))
      → {m₀ : Mem} {pc₀ : ℕ → Pc} → P m₀ pc₀
      → {m : Mem} {pc : ℕ → Pc} → Reach m₀ pc₀ m pc
      → P m pc
  Reach-keeps P keep h start = h
  Reach-keeps P keep h (next {m} {m'} {pc} {p'} r i lt mv) =
      keep m m' pc i p' lt mv (Reach-keeps P keep h r)
