-- ===== src/Concurrency/Barrier/Safety.antt =====
-- What holds in every state that the threads of barrier.c reach, as many as the threshold.
use operating_systems_theory.Common.{ℕ, arith, refl, ◌+◌, ◌<◌, ◌≡◌, ◌≤◌, ℕ_discrete}
use operating_systems_theory.Common.Family.{
  total, Shift, le-total, total-Shift, total-const, update, total-eq-zero,
}
use operating_systems_theory.Concurrency.Threads.{Reach, Reach-keeps, next, start}
use operating_systems_theory.Concurrency.Barrier.{
  Barrier, Move, Pc, after, before, created, early, init, last, lock, pass, passed, post, posting,
  reset, uncounted, unlock, unlock_last, unlocking, unlocking_last, waiting,
}

abbrev pub locking : Pc → ℕ
locking before = 0
locking waiting = 0
locking after = 0
locking _ = 1

abbrev pub blocked : Pc → ℕ
blocked unlocking = 1
blocked waiting = 1
blocked _ = 0

abbrev pub releasing : Pc → ℕ
releasing (posting _) = 1
releasing _ = 0

abbrev pub to_post : Pc → ℕ
to_post (posting k) = k
to_post _ = 0

abbrev pub closing : Pc → ℕ
closing unlocking_last = 1
closing _ = 0

-- `l` threads hold the lock, `s` are not counted yet, `u` are to wait, `x` post and have `p` posts
-- left, `y` have posted, `o` are past the barrier.
pub record Counts (top : ℕ) (b : Barrier) (l s u x p y o : ℕ) : Type 0 where
  pub locked : b.lock + l ≡ 1
  pub everyone : s + u + x + y + o ≡ top
  pub closed : 0 < s → (x + y + o + b.sem + p ≡ 0) × (b.waiters ≡ u)
  pub opened : s ≡ 0 → b.sem + p ≡ u + 1
  pub posted : x ≡ 0 → p ≡ 0
  pub reopened : x ≡ 0 → s ≡ 0 → b.waiters ≡ 0

Move-Counts :
    {top l l' s s' u u' x x' p p' y y' o o' : ℕ} {b b' : Barrier} {q q' : Pc}
    → Move top b q b' q'
    → Shift locking q q' l l'
    → Shift uncounted q q' s s'
    → Shift blocked q q' u u'
    → Shift releasing q q' x x'
    → Shift to_post q q' p p'
    → Shift closing q q' y y'
    → Shift passed q q' o o'
    → (x' ≡ 0 → p' ≡ 0)
    → Counts top b l s u x p y o
    → Counts top b' l' s' u' x' p' y' o'
Move-Counts (lock free) a c d e f g h j i = ground arith
Move-Counts (last full) a c d e f g h j i = ground arith
Move-Counts (early more) a c d e f g h j i = ground arith
Move-Counts post a c d e f g h j i = ground arith
Move-Counts (reset none_left) a c d e f g h j i = ground arith
Move-Counts unlock_last a c d e f g h j i = ground arith
Move-Counts unlock a c d e f g h j i = ground arith
Move-Counts (pass open_gate) a c d e f g h j i = ground arith

module _ (n : ℕ) where
  abbrev pub Inv : Barrier → (ℕ → Pc) → Type 0
  Inv b pc =
      Counts n b (total locking n pc) (total uncounted n pc) (total blocked n pc)
        (total releasing n pc) (total to_post n pc) (total closing n pc) (total passed n pc)

  -- Where no thread posts, no post is left.
  posting-zero : (pc : ℕ → Pc) → total releasing n pc ≡ 0 → total to_post n pc ≡ 0
  posting-zero pc = total-eq-zero to_post releasing (λ q h. ground arith) n pc

  Move-Inv :
      (b b' : Barrier) (pc : ℕ → Pc) (i : ℕ) (q' : Pc)
      → i < n
      → Move n b (pc i) b' q'
      → Inv b pc
      → Inv b' (update pc i q')
  Move-Inv b b' pc i q' lt mv inv =
      Move-Counts mv (total-Shift locking n pc i q' lt) (total-Shift uncounted n pc i q' lt)
        (total-Shift blocked n pc i q' lt) (total-Shift releasing n pc i q' lt)
        (total-Shift to_post n pc i q' lt) (total-Shift closing n pc i q' lt)
        (total-Shift passed n pc i q' lt) (posting-zero (update pc i q')) inv

  Inv-init : 0 < n → Inv init created
  Inv-init some_thread = ground (
    arith,
    total-const locking 0 n created (λ i q. refl),
    total-const uncounted 1 n created (λ i q. refl),
    total-const blocked 0 n created (λ i q. refl),
    total-const releasing 0 n created (λ i q. refl),
    total-const to_post 0 n created (λ i q. refl),
    total-const closing 0 n created (λ i q. refl),
    total-const passed 0 n created (λ i q. refl),
  )

module _ {n : ℕ} (some_thread : 0 < n) {b : Barrier} {pc : ℕ → Pc}
    (r : Reach (Move n) n init created b pc) where
  pub Reach-Inv : Inv n b pc
  Reach-Inv = Reach-keeps (Move n) n (Inv n) (Move-Inv n) (Inv-init n some_thread) r

  -- With as many threads as the threshold, no thread is past the barrier while any thread has not
  -- been counted there.
  pub passed-counted : (i j : ℕ) → i < n → j < n → passed (pc i) ≡ 1 → uncounted (pc j) ≡ 0
  passed-counted i j hi hj pi =
      ground (arith, Reach-Inv, le-total passed n pc i hi, le-total uncounted n pc j hj)

  -- When every thread is past the barrier the lock is free and no waiter is counted, but the
  -- semaphore is left at 1: the last thread posts for itself and does not wait.
  pub passed-leftover :
      ((i : ℕ) → i < n → pc i ≡ after) → (b.lock ≡ 1) × (b.waiters ≡ 0) × (b.sem ≡ 1)
  passed-leftover all_after = ground (
    arith,
    Reach-Inv,
    total-const locking 0 n pc (λ i q. rw (all_after i q)),
    total-const passed 1 n pc (λ i q. rw (all_after i q)),
  )

-- So a second use of the barrier is broken: from the memory that a first use leaves, one thread alone
-- gets past a barrier of two or more.
pub leftover_lets_through :
    (n : ℕ) {b : Barrier}
    → 2 ≤ n
    → b.lock ≡ 1
    → b.waiters ≡ 0
    → b.sem ≡ 1
    → (b' : Barrier) × (pc : ℕ → Pc) × Reach (Move n) 1 b created b' pc × (pc 0 ≡ after)
unfolding ℕ_discrete
leftover_lets_through n {b} two free none_waits left = (
  _,
  _,
  next
      (next
        (next (next start 0 (omega arith) (lock (omega arith))) 0 (omega arith)
          (early (omega arith)))
        0 (omega arith) unlock)
      0 (omega arith) (pass (omega arith)),
  refl,
)
