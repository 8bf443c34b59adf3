-- ===== src/Concurrency/Counter/Safety.antt =====
-- What holds in every state that the threads of counter.c reach.
use operating_systems_theory.Common.{ℕ, ◌+◌, ◌<◌, ◌≤◌, ◌≡◌, refl, if◌then◌else◌, arith, ℕ_discrete}
use operating_systems_theory.Common.Family.{
  update-cases, update, total, Shift, total-Shift, add-le-total, total-const,
}
use operating_systems_theory.Common.Int.{pos_part, neg_part, below, pos}
use operating_systems_theory.Concurrency.Threads.{Reach, Reach-keeps}
use operating_systems_theory.Concurrency.Counter.{
  Counter, init, Pc, at_load, at_store, Move, lock, stop, go, load, store, unlock, leave, created,
  holds, exited, at_break, at_test, at_unlock,
}

-- The threads past the test that found the counter below the limit.
abbrev writes : Pc → ℕ
writes at_load = 1
writes (at_store _) = 1
writes _ = 0

abbrev pauses : Pc → ℕ
pauses at_test = 1
pauses at_unlock = 1
pauses at_break = 1
pauses _ = 0

abbrev IsFresh : Counter → Pc → Type 0
IsFresh c (at_store v) = c.value ≡ v
IsFresh c _ = Unit

-- The counts: `h` threads hold the mutex, `e` have seen the limit, `w` are about to count,
-- `q` hold the mutex and are not.
record Counts (top : ℕ) (c : Counter) (h e w q : ℕ) : Type 0 where
  mutex : h ≡ (if c.mut then 1 else 0)
  natural : neg_part c.value ≡ 0
  bound : pos_part c.value + w ≤ top
  seen : 0 < e → pos_part c.value ≡ top
  split : w + q ≡ h

record Inv (top n : ℕ) (c : Counter) (pc : ℕ → Pc) : Type 0 where
  counts :
      Counts top c (total holds n pc) (total exited n pc) (total writes n pc) (total pauses n pc)
  fresh : (j : ℕ) → j < n → IsFresh c (pc j)

Move-Counts :
    {top h h' e e' w w' q q' : ℕ} {c c' : Counter} {p p' : Pc}
    → Move top c p c' p'
    → Shift holds p p' h h'
    → Shift exited p p' e e'
    → Shift writes p p' w w'
    → Shift pauses p p' q q'
    → IsFresh c p
    → Counts top c h e w q
    → Counts top c' h' e' w' q'
Move-Counts (lock free) sh se sw sq f i = ground arith
Move-Counts (stop top_seen) sh se sw sq f i = ground arith
Move-Counts (go below_top) sh se sw sq f i = ground arith
Move-Counts load sh se sw sq f i = ground arith
Move-Counts store sh se sw sq f i = ground arith
Move-Counts unlock sh se sw sq f i = ground arith
Move-Counts leave sh se sw sq f i = ground arith

Move-IsFresh_self : {top : ℕ} {c c' : Counter} {p p' : Pc} → Move top c p c' p' → IsFresh c' p'
Move-IsFresh_self load = refl
Move-IsFresh_self (lock _) = tt
Move-IsFresh_self (stop _) = tt
Move-IsFresh_self (go _) = tt
Move-IsFresh_self store = tt
Move-IsFresh_self unlock = tt
Move-IsFresh_self leave = tt

Move-IsFresh_other :
    {top : ℕ} {c c' : Counter} {p p' : Pc} (q : Pc)
    → Move top c p c' p'
    → holds p + holds q ≤ 1
    → IsFresh c q
    → IsFresh c' q
Move-IsFresh_other q store few f = ground arith
Move-IsFresh_other q load few f = f
Move-IsFresh_other q (lock _) few f = ground arith
Move-IsFresh_other q (stop _) few f = f
Move-IsFresh_other q (go _) few f = f
Move-IsFresh_other q unlock few f = ground arith
Move-IsFresh_other q leave few f = ground arith

holds-le-one : {top h e w q : ℕ} {c : Counter} → Counts top c h e w q → h ≤ 1
holds-le-one i = ground arith

Move-Inv :
    (top n : ℕ) (m m' : Counter) (pc : ℕ → Pc) (i : ℕ) (p' : Pc)
    → i < n
    → Move top m (pc i) m' p'
    → Inv top n m pc
    → Inv top n m' (update pc i p')
Move-Inv top n m m' pc i p' lt mv inv = record {
  counts =
      Move-Counts mv (total-Shift holds n pc i p' lt) (total-Shift exited n pc i p' lt)
        (total-Shift writes n pc i p' lt) (total-Shift pauses n pc i p' lt) (inv.fresh i lt)
        inv.counts;
  fresh = fresh;
}
  where
    fresh : (j : ℕ) → j < n → IsFresh m' (update pc i p' j)
    fresh j below = update-cases (IsFresh m') pc i p' j (Move-IsFresh_self mv) λ ne.
        Move-IsFresh_other (pc j) mv
          (omega (arith, add-le-total holds n pc i j lt below ne, holds-le-one inv.counts))
          (inv.fresh j below)

Inv-init : (top n : ℕ) → Inv top n init created
Inv-init top n = record {
  counts = ground (
    arith,
    total-const holds 0 n created (λ i q. refl),
    total-const exited 0 n created (λ i q. refl),
    total-const writes 0 n created (λ i q. refl),
    total-const pauses 0 n created (λ i q. refl),
  );
  fresh = λ j q. tt;
}

Reach-Inv :
    {top n : ℕ} {c : Counter} {pc : ℕ → Pc} → Reach (Move top) n init created c pc → Inv top n c pc
Reach-Inv {top} {n} r = Reach-keeps (Move top) n (Inv top n) (Move-Inv top n) (Inv-init top n) r

-- Of any number of threads at most one is between the lock and the unlock, whatever the limit.
pub mutual_exclusion :
    {top n : ℕ} {c : Counter} {pc : ℕ → Pc}
    → Reach (Move top) n init created c pc
    → (i j : ℕ) → i < n
    → j < n
    → holds (pc i) ≡ 1
    → holds (pc j) ≡ 1
    → i ≡ j
mutual_exclusion {n} {pc} r i j hi hj in_i in_j = elim (ℕ_discrete i j) [
  | yes same ↦ same
  | no ne ↦
      absurd
        (omega (arith, add-le-total holds n pc i j hi hj ne, holds-le-one (Reach-Inv r).counts))
]

-- In every reachable state the value lies between 0 and the limit, so `++` on the program's `int`
-- never overflows when the limit is below 2^31.
pub value_bounds :
    {top n : ℕ} {c : Counter} {pc : ℕ → Pc}
    → Reach (Move top) n init created c pc
    → (v : ℕ) × (c.value ≡ pos v) × (v ≤ top)
value_bounds {c} r = (pos_part c.value, ground (arith, counts.natural), omega (arith, counts.bound))
  where
    open (Reach-Inv r) use {counts}
