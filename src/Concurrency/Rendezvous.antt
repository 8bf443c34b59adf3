-- ===== src/Concurrency/Rendezvous.antt =====
-- os-three-easy-pieces/concurrency/sema/randezvous.c: two threads that wait for one another, on
-- semaphores that start at 0.
use operating_systems_theory.Common.{
  ℕ, arith, inl, inr, refl, suc, zero, ◌+◌, ◌-◌, ◌<◌, ◌≡◌, ◌≤◌, ◌⊎◌,
}
use operating_systems_theory.Common.Family.{total, Shift, le-total, total-Shift, total_mono, update}
use operating_systems_theory.Concurrency.Threads.{Reach, Reach-keeps}
mod Examples

-- The semaphores `s1` and `s2`.
pub record Sems : Type 0 where
  pub s1 : ℕ
  pub s2 : ℕ

abbrev pub init : Sems
init = record { s1 = 0; s2 = 0 }

-- `child_1` prints "before", posts `s1`, waits for `s2`, prints "after"; `child_2` prints "before",
-- waits for `s1`, posts `s2`, prints "after".
pub data Pc : Type 0 where
  first_start : Pc
  first_post : Pc
  first_wait : Pc
  first_after : Pc
  second_start : Pc
  second_wait : Pc
  second_post : Pc
  second_after : Pc

pub data Move (s : Sems) : Pc → Sems → Pc → Type 0 where
  print_first : Move s first_start s first_post
  post_first : Move s first_post (record s { s1 = s.s1 + 1 }) first_wait
  wait_first : 0 < s.s2 → Move s first_wait (record s { s2 = s.s2 - 1 }) first_after
  print_second : Move s second_start s second_wait
  wait_second : 0 < s.s1 → Move s second_wait (record s { s1 = s.s1 - 1 }) second_post
  post_second : Move s second_post (record s { s2 = s.s2 + 1 }) second_after

-- Thread 0 is `child_1`, thread 1 is `child_2`.
abbrev pub created : ℕ → Pc
created zero = first_start
created (suc _) = second_start

-- `first` stands for `child_1`, `second` for `child_2`: in front of the "before" line, behind it,
-- past its own post (of `s1`) or wait (for `s1`), past the last step.
abbrev unprinted_1 : Pc → ℕ
unprinted_1 first_start = 1
unprinted_1 _ = 0

abbrev printed_1 : Pc → ℕ
printed_1 first_post = 1
printed_1 _ = 0

abbrev posted_1 : Pc → ℕ
posted_1 first_wait = 1
posted_1 first_after = 1
posted_1 _ = 0

abbrev after_1 : Pc → ℕ
after_1 first_after = 1
after_1 _ = 0

abbrev unprinted_2 : Pc → ℕ
unprinted_2 second_start = 1
unprinted_2 _ = 0

abbrev printed_2 : Pc → ℕ
printed_2 second_wait = 1
printed_2 _ = 0

abbrev passed_2 : Pc → ℕ
passed_2 second_post = 1
passed_2 second_after = 1
passed_2 _ = 0

abbrev after_2 : Pc → ℕ
after_2 second_after = 1
after_2 _ = 0

-- A thread still in front of its "before" line.
abbrev pub unprinted : Pc → ℕ
unprinted first_start = 1
unprinted second_start = 1
unprinted _ = 0

-- A thread that is about to print "after".
abbrev pub IsAfter : Pc → Type 0
IsAfter p = (p ≡ first_after) ⊎ (p ≡ second_after)

record Counts (s : Sems) (u₁ v₁ a₁ d₁ u₂ v₂ a₂ d₂ : ℕ) : Type 0 where
  one : s.s1 + a₂ ≡ a₁
  two : s.s2 + d₁ ≡ d₂
  first : u₁ + v₁ + a₁ ≡ 1
  second : u₂ + v₂ + a₂ ≡ 1
  ends : (d₁ ≤ a₁) × (d₂ ≤ a₂)

Move-Counts :
    {u₁ u₁' v₁ v₁' a₁ a₁' d₁ d₁' u₂ u₂' v₂ v₂' a₂ a₂' d₂ d₂' : ℕ} {s s' : Sems} {p p' : Pc}
    → Move s p s' p'
    → Shift unprinted_1 p p' u₁ u₁'
    → Shift printed_1 p p' v₁ v₁'
    → Shift posted_1 p p' a₁ a₁'
    → Shift after_1 p p' d₁ d₁'
    → Shift unprinted_2 p p' u₂ u₂'
    → Shift printed_2 p p' v₂ v₂'
    → Shift passed_2 p p' a₂ a₂'
    → Shift after_2 p p' d₂ d₂'
    → (d₁' ≤ a₁') × (d₂' ≤ a₂')
    → Counts s u₁ v₁ a₁ d₁ u₂ v₂ a₂ d₂
    → Counts s' u₁' v₁' a₁' d₁' u₂' v₂' a₂' d₂'
Move-Counts print_first a b c d e f g h j i = ground arith
Move-Counts (wait_first up) a b c d e f g h j i = ground arith
Move-Counts (wait_second up) a b c d e f g h j i = ground arith
Move-Counts move a b c d e f g h j i = ground arith

abbrev Inv : Sems → (ℕ → Pc) → Type 0
Inv s pc =
    Counts s (total unprinted_1 2 pc) (total printed_1 2 pc) (total posted_1 2 pc)
      (total after_1 2 pc) (total unprinted_2 2 pc) (total printed_2 2 pc) (total passed_2 2 pc)
      (total after_2 2 pc)

ends-le :
    (pc : ℕ → Pc)
    → (total after_1 2 pc ≤ total posted_1 2 pc) × (total after_2 2 pc ≤ total passed_2 2 pc)
ends-le pc = (
  total_mono after_1 posted_1 (λ p. ground arith) 2 pc,
  total_mono after_2 passed_2 (λ p. ground arith) 2 pc,
)

Move-Inv :
    (s s' : Sems) (pc : ℕ → Pc) (i : ℕ) (p' : Pc)
    → i < 2
    → Move s (pc i) s' p'
    → Inv s pc
    → Inv s' (update pc i p')
Move-Inv s s' pc i p' lt mv inv =
    Move-Counts mv (total-Shift unprinted_1 2 pc i p' lt) (total-Shift printed_1 2 pc i p' lt)
      (total-Shift posted_1 2 pc i p' lt) (total-Shift after_1 2 pc i p' lt)
      (total-Shift unprinted_2 2 pc i p' lt) (total-Shift printed_2 2 pc i p' lt)
      (total-Shift passed_2 2 pc i p' lt) (total-Shift after_2 2 pc i p' lt)
      (ends-le (update pc i p')) inv

Reach-Inv : {s : Sems} {pc : ℕ → Pc} → Reach Move 2 init created s pc → Inv s pc
unfolding total
Reach-Inv r =
    Reach-keeps Move 2 Inv Move-Inv
      (record {
        one = refl;
        two = refl;
        first = refl;
        second = refl;
        ends = (omega arith, omega arith);
      })
      r

-- The weight of a thread at its end, and of one in front of its first line.
after-weight : (p : Pc) → IsAfter p → after_1 p + after_2 p ≡ 1
after-weight p (inl e) = rw e
after-weight p (inr e) = rw e

unprinted-weight : (p : Pc) → unprinted p ≡ unprinted_1 p + unprinted_2 p
unprinted-weight p = ground arith

-- In every reachable state, if either thread is behind its wait and post, to print "after", both have
-- printed "before".
pub after-printed :
    {s : Sems} {pc : ℕ → Pc}
    → Reach Move 2 init created s pc
    → (i j : ℕ) → i < 2
    → j < 2
    → IsAfter (pc i)
    → unprinted (pc j) ≡ 0
after-printed {s} {pc} r i j hi hj at_end = ground (
  arith,
  Reach-Inv r,
  after-weight (pc i) at_end,
  unprinted-weight (pc j),
  le-total after_1 2 pc i hi,
  le-total after_2 2 pc i hi,
  le-total unprinted_1 2 pc j hj,
  le-total unprinted_2 2 pc j hj,
)
