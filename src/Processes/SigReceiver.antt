-- ===== src/Processes/SigReceiver.antt =====
-- linux-api-kerrisk/signals-intro/sig_receiver.c: a program that counts the signals it catches until
-- SIGINT comes.
use operating_systems_theory.Common.{
  ℕ, Bool, List, Option, [], arith, false, if◌then◌else◌, none, refl, some, suc, true, zero,
  ℕ_discrete, ◌++◌, ◌+◌, ◌-◌, ◌<◌, ◌==◌, ◌∷◌, ◌≡◌, ◌≢◌, ◌≤◌,
}
pub mod Blocked
mod Examples

-- `NSIG` and `SIGINT`
abbrev pub nsig : ℕ
nsig = 65

abbrev pub sigint : ℕ
sigint = 2

-- `gotSigint` and `sigCnt`
pub record State : Type 0 where
  pub got_sigint : Bool
  pub sig_cnt : ℕ → ℕ

abbrev pub initial : State
initial = record { got_sigint = false; sig_cnt = λ n. 0 }

-- `handler`
unfoldable pub handler : ℕ → State → State
handler sig s =
    if sig == sigint
    then record s { got_sigint = true }
    else record s { sig_cnt = λ n. if sig == n then s.sig_cnt n + 1 else s.sig_cnt n }

-- The busy loop, while signals are delivered one after another.
unfoldable pub wait_loop : List ℕ → State → State
unfolding handler
wait_loop [] s = s
wait_loop (sig ∷ sigs) s =
    let rest = wait_loop sigs (handler sig s) in if s.got_sigint then s else rest

-- The loop that reports the signals from `n` on, `rounds` of them.
unfoldable pub report : (rounds n : ℕ) → State → List (ℕ × ℕ)
report zero n s = []
report (suc k) n s =
    let rest = report k (n + 1) s in if s.sig_cnt n == 0 then rest else (n, s.sig_cnt n) ∷ rest

-- `main`, given the signals that are delivered: the report, or none while it still waits.
unfoldable pub main : List ℕ → Option (List (ℕ × ℕ))
unfolding wait_loop report
main sigs =
    let s = wait_loop sigs initial in if s.got_sigint then some (report (nsig - 1) 1 s) else none

unfoldable pub count : ℕ → List ℕ → ℕ
count n [] = 0
count n (sig ∷ sigs) = (if sig == n then 1 else 0) + count n sigs

-- The number that a report has for a signal.
unfoldable pub lookup : ℕ → List (ℕ × ℕ) → Option ℕ
lookup n [] = none
lookup n ((m, c) ∷ rest) = if m == n then some c else lookup n rest

abbrev pub NoSigint : List ℕ → Type 0
NoSigint [] = Unit
NoSigint (sig ∷ sigs) = (sig ≢ sigint) × NoSigint sigs

wait_loop-ended : (sigs : List ℕ) (s : State) → s.got_sigint ≡ true → wait_loop sigs s ≡ s
unfolding wait_loop
wait_loop-ended [] s e = refl
wait_loop-ended (sig ∷ sigs) s e = rw e refl

-- The loop counts every signal in front of the first SIGINT, and stops at that.
pub wait_loop-count :
    (caught rest : List ℕ) (s : State)
    → NoSigint caught
    → s.got_sigint ≡ false
    → ((wait_loop (caught ++ sigint ∷ rest) s).got_sigint ≡ true)
      × ((n : ℕ) → (wait_loop (caught ++ sigint ∷ rest) s).sig_cnt n ≡ s.sig_cnt n + count n caught)
unfolding wait_loop count
wait_loop-count [] rest s free waits =
    rw (waits, wait_loop-ended rest (record s { got_sigint = true }) refl) (refl, λ n. omega arith)
wait_loop-count (sig ∷ caught) rest s free waits =
    let other : (sig == sigint) ≡ false = ground (arith, free.0) in
    let s' : State = record {
      got_sigint = false;
      sig_cnt = λ n. if sig == n then s.sig_cnt n + 1 else s.sig_cnt n;
    } in
    let (ended, counted) = wait_loop-count caught rest s' free.1 refl in
    rw (waits, other) (ended, λ n. ground (arith, counted n))

lookup-report_before : (k a : ℕ) (s : State) (n : ℕ) → n < a → lookup n (report k a s) ≡ none
unfolding report lookup
lookup-report_before zero a s n h = refl
lookup-report_before (suc k) a s n h =
    ground (arith, lookup-report_before k (a + 1) s n (omega arith))

pub lookup-report :
    (k a : ℕ) (s : State) (n : ℕ)
    → a ≤ n
    → n < a + k
    → lookup n (report k a s) ≡ (if s.sig_cnt n == 0 then none else some (s.sig_cnt n))
unfolding report lookup
lookup-report zero a s n h q = absurd (omega arith)
lookup-report (suc k) a s n h q = elim (ℕ_discrete a n) [
  | yes e ↦ ground (arith, lookup-report_before k (a + 1) s n (omega arith))
  | no ne ↦ ground (arith, lookup-report k (a + 1) s n (omega arith) (omega arith))
]

-- Once SIGINT is delivered the program reports. For each signal number from 1 to 64 the report has the
-- number of times that it was delivered before the first SIGINT, and no entry if that is 0.
pub main-count :
    (caught rest : List ℕ)
    → NoSigint caught
    → (r : List (ℕ × ℕ)) × (main (caught ++ sigint ∷ rest) ≡ some r)
      × ((n : ℕ)
          → 1 ≤ n
          → n < nsig
          → lookup n r ≡ (if count n caught == 0 then none else some (count n caught)))
unfolding main
main-count caught rest free =
    let (ended, counted) = wait_loop-count caught rest initial free refl in
    (
      report 64 1 (wait_loop (caught ++ sigint ∷ rest) initial),
      rw ended refl,
      λ n h q.
          let c : (wait_loop (caught ++ sigint ∷ rest) initial).sig_cnt n ≡ count n caught =
            omega (arith, counted n) in
          rw (← c)
            (lookup-report 64 1 (wait_loop (caught ++ sigint ∷ rest) initial) n h (omega arith)),
    )
