-- ===== src/Concurrency/ApproxCounter/Accuracy.antt =====
-- approximate_counter.c: no amount is lost, and what `get` misses is bounded.
use operating_systems_theory.Common.{
  ℕ, List, [], ap, arith, get_or, length, refl, replicate, set, suc, zero, ◌*◌, ◌+◌, ◌<◌, ◌∷◌, ◌≡◌,
  ◌≢◌, ◌≤◌, length-set, ℕ_discrete, ◌%◌, ◌-◌, ◌∙◌,
}
use operating_systems_theory.Concurrency.ApproxCounter.{Counter, init, num_cpus, update, get, run}

unfoldable pub sum : List ℕ → ℕ
sum [] = 0
sum (x ∷ xs) = x + sum xs

-- What has been counted: in the global counter or in a local one.
abbrev pub exact : Counter → ℕ
exact c = c.global + sum c.local

unfoldable pub amounts : List (ℕ × ℕ) → ℕ
amounts [] = 0
amounts ((_, a) ∷ calls) = a + amounts calls

-- Every local counter is below the threshold.
pub record IsValid (c : Counter) : Type 0 where
  pub cpus : length c.local ≡ num_cpus
  pub small : (i : ℕ) → i < num_cpus → get_or c.local i 0 < c.threshold

sum-set : (xs : List ℕ) (i v : ℕ) → i < length xs → sum (set xs i v) + get_or xs i 0 ≡ sum xs + v
unfolding sum
sum-set [] i v h = absurd (omega arith)
sum-set (x ∷ xs) zero v h = omega arith
sum-set (x ∷ xs) (suc i) v h = omega (arith, sum-set xs i v (omega arith))

get_or-set_self : (xs : List ℕ) (i v : ℕ) → i < length xs → get_or (set xs i v) i 0 ≡ v
get_or-set_self [] i v h = absurd (omega arith)
get_or-set_self (x ∷ xs) zero v h = refl
get_or-set_self (x ∷ xs) (suc i) v h = get_or-set_self xs i v (omega arith)

get_or-set_ne : (xs : List ℕ) (i j v : ℕ) → i ≢ j → get_or (set xs i v) j 0 ≡ get_or xs j 0
get_or-set_ne [] i j v h = refl
get_or-set_ne (x ∷ xs) zero zero v h = absurd (h refl)
get_or-set_ne (x ∷ xs) zero (suc j) v h = refl
get_or-set_ne (x ∷ xs) (suc i) zero v h = refl
get_or-set_ne (x ∷ xs) (suc i) (suc j) v h = get_or-set_ne xs i j v (λ e. h (ap suc e))

sum-le :
    (xs : List ℕ) (k : ℕ) → ((i : ℕ) → i < length xs → get_or xs i 0 ≤ k) → sum xs ≤ length xs * k
unfolding sum
sum-le [] k h = omega arith
sum-le (x ∷ xs) k h = omega (arith, h 0 (omega arith), sum-le xs k (λ i q. h (suc i) (omega arith)))

init-IsValid : (threshold : ℕ) → 0 < threshold → IsValid (init threshold)
unfolding init
init-IsValid threshold h = record { cpus = refl; small = λ i q. omega (arith, zeros num_cpus i) }
  where
    zeros : (n i : ℕ) → get_or {A = ℕ} (replicate n 0) i 0 ≡ 0
    zeros zero i = refl
    zeros (suc n) zero = refl
    zeros (suc n) (suc i) = zeros n i

-- A local counter after an update, whichever it is: what it was, what it becomes, or 0.
update-IsValid :
    {c : Counter} (t a : ℕ)
    → 0 < c.threshold
    → IsValid c
    → IsValid (update t a c) × ((update t a c).threshold ≡ c.threshold)
unfolding update
update-IsValid {c} t a some_room v = (
  record {
    cpus =
        ground (arith, length-set c.local cpu now, length-set (set c.local cpu now) cpu 0, v.cpus);
    small = λ i q. elim (ℕ_discrete cpu i) [
      | yes e ↦ rw (← e) (ground (arith, at_cpu, reset_cpu, some_room))
      | no ne ↦ ground (
        arith,
        get_or-set_ne c.local cpu i now ne,
        get_or-set_ne (set c.local cpu now) cpu i 0 ne,
        v.small i q,
      )
    ];
  },
  ground arith,
)
  where
    cpu : ℕ
    cpu = t % num_cpus

    now : ℕ
    now = get_or c.local cpu 0 + a

    in_range : cpu < length c.local
    in_range = omega (arith, v.cpus)

    at_cpu : get_or (set c.local cpu now) cpu 0 ≡ now
    at_cpu = get_or-set_self c.local cpu now in_range

    reset_cpu : get_or (set (set c.local cpu now) cpu 0) cpu 0 ≡ 0
    reset_cpu =
        get_or-set_self (set c.local cpu now) cpu 0
          (omega (arith, length-set c.local cpu now, in_range))

-- `update` adds its amount to what has been counted, whether it flushes or not.
pub update-exact : {c : Counter} (t a : ℕ) → IsValid c → exact (update t a c) ≡ exact c + a
unfolding update
update-exact {c} t a v = ground (
  arith,
  sum-set c.local cpu now in_range,
  sum-set (set c.local cpu now) cpu 0 (omega (arith, length-set c.local cpu now, in_range)),
  get_or-set_self c.local cpu now in_range,
)
  where
    cpu : ℕ
    cpu = t % num_cpus

    now : ℕ
    now = get_or c.local cpu 0 + a

    in_range : cpu < length c.local
    in_range = omega (arith, v.cpus)

run-IsValid :
    (calls : List (ℕ × ℕ)) {c : Counter}
    → 0 < c.threshold
    → IsValid c
    → IsValid (run calls c)
      × ((run calls c).threshold ≡ c.threshold)
      × (exact (run calls c) ≡ exact c + amounts calls)
unfolding run amounts
run-IsValid [] some_room v = (v, refl, omega arith)
run-IsValid ((t, a) ∷ calls) {c} some_room v =
    let (v', same) = update-IsValid t a some_room v in
    let (w, kept, e) = run-IsValid calls {c = update t a c} (omega (arith, same)) v' in
    (w, kept ∙ same, omega (arith, e, update-exact t a v))

-- `get` is never above what has been counted and lags it by less than the threshold for each
-- processor.
lag : {c : Counter} → 0 < c.threshold → IsValid c → exact c ≤ get c + num_cpus * (c.threshold - 1)
unfolding get
lag {c} some_room v =
    let b =
      sum-le c.local (c.threshold - 1)
        (λ i q. omega (arith, v.small i (omega (arith, q, v.cpus)))) in
    omega (arith, rw v.cpus at b)

-- After any sequence of updates by any threads on a new counter with a threshold above 0, `get` is at
-- most the sum of the amounts, and falls short of it by at most `NUMCPUS * (threshold - 1)`.
pub get_bounds :
    (threshold : ℕ) (calls : List (ℕ × ℕ))
    → 0 < threshold
    → (get (run calls (init threshold)) ≤ amounts calls)
      × (amounts calls ≤ get (run calls (init threshold)) + num_cpus * (threshold - 1))
unfolding init
get_bounds threshold calls h =
    let start = init threshold in
    let (v, kept, e) = run-IsValid calls {c = start} h (init-IsValid threshold h) in
    let l = lag {c = run calls start} (omega (arith, kept)) v in
    let l' = rw kept at l in unfold get sum in (omega (arith, e), omega (arith, e, l'))

-- A threshold of 1 makes the counter exact: every update is flushed at once.
pub get-exact : (calls : List (ℕ × ℕ)) → get (run calls (init 1)) ≡ amounts calls
get-exact calls = let (a, b) = get_bounds 1 calls (omega arith) in omega (arith, a, b)
