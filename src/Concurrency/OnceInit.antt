-- ===== src/Concurrency/OnceInit.antt =====
-- linux-api-kerrisk/POSIXthreads-thrdsf-lclstrg/one_time_init.c: an initialiser that the first
-- caller runs, under a mutex.
use operating_systems_theory.Common.{
  ℕ, Bool, arith, false, if◌then◌else◌, refl, true, ◌+◌, ◌<◌, ◌≡◌, ◌≤◌,
}
use operating_systems_theory.Common.Family.{total, Shift, le-total, total-Shift, total-const}
use operating_systems_theory.Concurrency.Threads.{Reach, Reach-keeps}
mod Examples

-- `once_init_t`, and how often `init_routine` has been called.
pub record Once : Type 0 where
  pub mtx : Bool
  pub flg : Bool
  pub calls : ℕ

abbrev pub once : Once
once = record { mtx = false; flg = false; calls = 0 }

-- Where a caller stands in `one_time_init`; the mutex calls succeed.
pub data Pc : Type 0 where
  at_lock : Pc
  at_test : Pc
  at_routine : Pc
  at_set : Pc
  at_unlock : Pc
  returned : Pc

pub data Move (o : Once) : Pc → Once → Pc → Type 0 where
  lock : o.mtx ≡ false → Move o at_lock (record o { mtx = true }) at_test
  first : o.flg ≡ false → Move o at_test o at_routine
  already : o.flg ≡ true → Move o at_test o at_unlock
  routine : Move o at_routine (record o { calls = o.calls + 1 }) at_set
  mark : Move o at_set (record o { flg = true }) at_unlock
  unlock : Move o at_unlock (record o { mtx = false }) returned

abbrev pub created : ℕ → Pc
created _ = at_lock

abbrev pub holds : Pc → ℕ
holds at_lock = 0
holds returned = 0
holds _ = 1

abbrev calling : Pc → ℕ
calling at_routine = 1
calling _ = 0

abbrev marking : Pc → ℕ
marking at_set = 1
marking _ = 0

abbrev settled : Pc → ℕ
settled at_unlock = 1
settled returned = 1
settled _ = 0

abbrev tests : Pc → ℕ
tests at_test = 1
tests at_unlock = 1
tests _ = 0

-- `h` threads hold the mutex: `c` of them are to call the routine, `k` to set the flag, `t` neither;
-- `d` are past both.
record Inv (o : Once) (h c k t d : ℕ) : Type 0 where
  mutex : h ≡ (if o.mtx then 1 else 0)
  split : c + k + t ≡ h
  counted : o.calls ≡ k + (if o.flg then 1 else 0)
  unset : 0 < c + k → o.flg ≡ false
  done : 0 < d → o.flg ≡ true

Move-Inv :
    {h h' c c' k k' t t' d d' : ℕ} {o o' : Once} {p p' : Pc}
    → Move o p o' p'
    → Shift holds p p' h h'
    → Shift calling p p' c c'
    → Shift marking p p' k k'
    → Shift tests p p' t t'
    → Shift settled p p' d d'
    → Inv o h c k t d
    → Inv o' h' c' k' t' d'
Move-Inv (lock free) a b c d e i = ground arith
Move-Inv (first unset) a b c d e i = ground arith
Move-Inv (already isset) a b c d e i = ground arith
Move-Inv routine a b c d e i = ground arith
Move-Inv mark a b c d e i = ground arith
Move-Inv unlock a b c d e i = ground arith

abbrev Holds : ℕ → Once → (ℕ → Pc) → Type 0
Holds n o pc =
    Inv o (total holds n pc) (total calling n pc) (total marking n pc) (total tests n pc)
      (total settled n pc)

Reach-Inv : {n : ℕ} {o : Once} {pc : ℕ → Pc} → Reach Move n once created o pc → Holds n o pc
Reach-Inv {n} r =
    Reach-keeps Move n (Holds n)
      (λ m m' pc i p' lt mv inv.
        Move-Inv mv (total-Shift holds n pc i p' lt) (total-Shift calling n pc i p' lt)
          (total-Shift marking n pc i p' lt) (total-Shift tests n pc i p' lt)
          (total-Shift settled n pc i p' lt) inv)
      (ground (
        arith,
        total-const holds 0 n created (λ i q. refl),
        total-const calling 0 n created (λ i q. refl),
        total-const marking 0 n created (λ i q. refl),
        total-const tests 0 n created (λ i q. refl),
        total-const settled 0 n created (λ i q. refl),
      ))
      r

-- In every reachable state of any number of callers the routine has been called once at most.
pub calls-le-one : {n : ℕ} {o : Once} {pc : ℕ → Pc} → Reach Move n once created o pc → o.calls ≤ 1
calls-le-one r = ground (arith, Reach-Inv r)

-- Once any caller has returned, the routine has been called exactly once and the flag is set.
pub returned-calls :
    {n : ℕ} {o : Once} {pc : ℕ → Pc}
    → Reach Move n once created o pc
    → (i : ℕ) → i < n
    → pc i ≡ returned
    → (o.calls ≡ 1) × (o.flg ≡ true)
returned-calls {n} {pc} r i lt e =
    let past : 0 < total settled n pc = omega (arith, le-total settled n pc i lt, weighs) in
    ground (arith, Reach-Inv r, past)
  where
    weighs : settled (pc i) ≡ 1
    weighs = rw e
