-- ===== src/Concurrency/Zemaphore/Safety.antt =====
-- What holds in every state that callers of zemaphore.c reach.
use operating_systems_theory.Common.{
  ℕ, arith, dec_lt, if◌then◌else◌, inl, inr, refl, ◌+◌, ◌<◌, ◌∙◌, ◌≡◌, ◌≤◌, ◌⊎◌,
}
use operating_systems_theory.Common.Family.{
  update-cases, update, add-le-total, total, Shift, find-total, only-one, total-Shift, total-const,
}
use operating_systems_theory.Concurrency.Threads.{Reach, Reach-keeps}
use operating_systems_theory.Concurrency.Zemaphore.{
  Zem, AtStart, Move, Pc, added, increment, init, lock_post, lock_wait, on_the_way, post_signal,
  post_start, post_unlock, relock, signal, signal_lost, sleep, spurious, taken, unlock_post,
  unlock_wait, wait_asleep, wait_start, wait_test, wait_unlock, wake, take_unit, load_post,
  load_unit, post_load, post_store, see_none, see_unit, wait_about, wait_load, wait_store,
}

abbrev pub holding : Pc → ℕ
holding wait_test = 1
holding wait_about = 1
holding wait_load = 1
holding (wait_store _) = 1
holding wait_unlock = 1
holding post_load = 1
holding (post_store _) = 1
holding post_signal = 1
holding post_unlock = 1
holding _ = 0

abbrev pub asleep : Pc → ℕ
asleep wait_asleep = 1
asleep _ = 0

-- `h` threads hold the mutex, `s` sleep, `t` have taken a unit, `a` have added one, `y` will still
-- test or signal.
record Counts (v₀ : ℕ) (z : Zem) (h s t a y : ℕ) : Type 0 where
  mutex : h ≡ (if z.held then 1 else 0)
  sleeping : z.sleepers ≡ s
  chosen : z.wakes ≤ z.sleepers
  units : z.value + t ≡ v₀ + a
  awake : z.wakes < z.sleepers → z.value ≤ z.wakes + y

-- What a thread that holds the mutex has seen or loaded.
abbrev IsFresh : Zem → Pc → Type 0
IsFresh z wait_about = z.value ≡ 0
IsFresh z wait_load = 0 < z.value
IsFresh z (wait_store v) = (z.value ≡ v) × (0 < v)
IsFresh z (post_store v) = z.value ≡ v
IsFresh z _ = Unit

Move-Counts :
    {v₀ h h' s s' t t' a a' y y' : ℕ} {z z' : Zem} {p p' : Pc}
    → Move z p z' p'
    → Shift holding p p' h h'
    → Shift asleep p p' s s'
    → Shift taken p p' t t'
    → Shift added p p' a a'
    → Shift on_the_way p p' y y'
    → IsFresh z p
    → Counts v₀ z h s t a y
    → Counts v₀ z' h' s' t' a' y'
Move-Counts (lock_wait free) b c d e f g i = ground arith
Move-Counts (see_none empty) b c d e f g i = ground arith
Move-Counts sleep b c d e f g i = ground arith
Move-Counts (see_unit some_unit) b c d e f g i = ground arith
Move-Counts load_unit b c d e f g i = ground arith
Move-Counts take_unit b c d e f (same, more) i = ground arith
Move-Counts (wake chosen) b c d e f g i = ground arith
Move-Counts (spurious unchosen) b c d e f g i = ground arith
Move-Counts (relock free) b c d e f g i = ground arith
Move-Counts unlock_wait b c d e f g i = ground arith
Move-Counts (lock_post free) b c d e f g i = ground arith
Move-Counts load_post b c d e f g i = ground arith
Move-Counts increment b c d e f g i = ground arith
Move-Counts (signal sleeper) b c d e f g i = ground arith
Move-Counts (signal_lost nobody) b c d e f g i = ground arith
Move-Counts unlock_post b c d e f g i = ground arith

Move-IsFresh_self : {z z' : Zem} {p p' : Pc} → Move z p z' p' → IsFresh z p → IsFresh z' p'
Move-IsFresh_self (see_none empty) g = omega arith
Move-IsFresh_self (see_unit some_unit) g = some_unit
Move-IsFresh_self load_unit g = (refl, g)
Move-IsFresh_self load_post g = refl
Move-IsFresh_self (lock_wait _) g = tt
Move-IsFresh_self sleep g = tt
Move-IsFresh_self take_unit g = tt
Move-IsFresh_self (wake _) g = tt
Move-IsFresh_self (spurious _) g = tt
Move-IsFresh_self (relock _) g = tt
Move-IsFresh_self unlock_wait g = tt
Move-IsFresh_self (lock_post _) g = tt
Move-IsFresh_self increment g = tt
Move-IsFresh_self (signal _) g = tt
Move-IsFresh_self (signal_lost _) g = tt
Move-IsFresh_self unlock_post g = tt

-- A thread that holds the mutex is not disturbed by another.
Move-IsFresh_other :
    {z z' : Zem} {p p' : Pc} (q : Pc)
    → Move z p z' p'
    → holding p + holding q ≤ 1
    → IsFresh z q
    → IsFresh z' q
Move-IsFresh_other q (see_none empty) few f = f
Move-IsFresh_other q (see_unit some_unit) few f = f
Move-IsFresh_other q load_unit few f = f
Move-IsFresh_other q load_post few f = f
Move-IsFresh_other q (lock_wait _) few f = ground arith
Move-IsFresh_other q sleep few f = ground arith
Move-IsFresh_other q take_unit few f = ground arith
Move-IsFresh_other q (wake _) few f = ground arith
Move-IsFresh_other q (spurious _) few f = ground arith
Move-IsFresh_other q (relock _) few f = ground arith
Move-IsFresh_other q unlock_wait few f = ground arith
Move-IsFresh_other q (lock_post _) few f = ground arith
Move-IsFresh_other q increment few f = ground arith
Move-IsFresh_other q (signal _) few f = ground arith
Move-IsFresh_other q (signal_lost _) few f = f
Move-IsFresh_other q unlock_post few f = ground arith

record Inv (v₀ n : ℕ) (z : Zem) (pc : ℕ → Pc) : Type 0 where
  counts :
      Counts v₀ z
        (total holding n pc)
        (total asleep n pc)
        (total taken n pc)
        (total added n pc)
        (total on_the_way n pc)
  fresh : (j : ℕ) → j < n → IsFresh z (pc j)

Move-Inv :
    (v₀ n : ℕ) (m m' : Zem) (pc : ℕ → Pc) (i : ℕ) (p' : Pc)
    → i < n
    → Move m (pc i) m' p'
    → Inv v₀ n m pc
    → Inv v₀ n m' (update pc i p')
Move-Inv v₀ n m m' pc i p' lt mv inv = record {
  counts =
      Move-Counts mv (total-Shift holding n pc i p' lt) (total-Shift asleep n pc i p' lt)
        (total-Shift taken n pc i p' lt) (total-Shift added n pc i p' lt)
        (total-Shift on_the_way n pc i p' lt) (inv.fresh i lt) inv.counts;
  fresh = fresh;
}
  where
    one_holds : total holding n pc ≤ 1
    one_holds = ground (arith, inv.counts.mutex)

    fresh : (j : ℕ) → j < n → IsFresh m' (update pc i p' j)
    fresh j below =
        update-cases (IsFresh m') pc i p' j (Move-IsFresh_self mv (inv.fresh i lt)) λ ne.
          Move-IsFresh_other (pc j) mv
            (omega (arith, add-le-total holding n pc i j lt below ne, one_holds))
            (inv.fresh j below)

zero-AtStart :
    (n : ℕ) (w : Pc → ℕ) (pc : ℕ → Pc)
    → w wait_start ≡ 0
    → w post_start ≡ 0
    → ((i : ℕ) → i < n → AtStart (pc i))
    → total w n pc ≡ 0
zero-AtStart n w pc hw hp at =
    total-const w 0 n pc (λ i q. elim (at i q) [ inl e ↦ rw e hw | inr e ↦ rw e hp ]) ∙ omega arith

module _ {v₀ n : ℕ} {pc₀ : ℕ → Pc} (at : (i : ℕ) → i < n → AtStart (pc₀ i)) {z : Zem} {pc : ℕ → Pc}
    (r : Reach Move n (init v₀) pc₀ z pc) where
  Reach-Inv : Inv v₀ n z pc
  Reach-Inv =
      Reach-keeps Move n (Inv v₀ n) (Move-Inv v₀ n)
        (record {
          counts = ground (
            arith,
            zero-AtStart n holding pc₀ refl refl at,
            zero-AtStart n asleep pc₀ refl refl at,
            zero-AtStart n taken pc₀ refl refl at,
            zero-AtStart n added pc₀ refl refl at,
            zero-AtStart n on_the_way pc₀ refl refl at,
          );
          fresh = λ j below. elim (at j below) [ inl e ↦ rw e tt | inr e ↦ rw e tt ];
        })
        r

  -- A counting semaphore: in every reachable state the value is the initial value, plus the posts
  -- made, minus the waits passed. So never more waits pass than the initial value and the posts allow.
  pub units_conserved :
      (z.value + total taken n pc ≡ v₀ + total added n pc)
      × (total taken n pc ≤ v₀ + total added n pc)
  units_conserved = ground (arith, Reach-Inv.counts)

  -- No wake-up is lost: if a thread sleeps that no signal has chosen and the value is above 0, then
  -- a chosen sleeper is about to wake, or a thread is about to test the value, to take a unit that it
  -- has seen, or to signal.
  pub no_lost_wakeup :
      z.wakes < total asleep n pc
      → 0 < z.value
      → (0 < z.wakes) ⊎ ((i : ℕ) × (i < n) × (0 < on_the_way (pc i)))
  no_lost_wakeup sleeper some_unit = elim (dec_lt 0 z.wakes) [
    | yes chosen ↦ inl chosen
    | no none_chosen ↦ inr (find-total on_the_way n pc (ground (arith, Reach-Inv.counts)))
  ]

  -- At most one thread is between taking the mutex and giving it back.
  pub mutex_excludes : (i j : ℕ) → i < n → j < n → 0 < holding (pc i) → 0 < holding (pc j) → i ≡ j
  mutex_excludes i j hi hj wi wj =
      only-one holding n pc i j hi hj (ground (arith, Reach-Inv.counts)) wi wj
