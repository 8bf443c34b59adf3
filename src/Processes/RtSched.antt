-- ===== src/Processes/RtSched.antt =====
-- linux-api-kerrisk/procpri/rtshed.c: a command run under a real-time policy and priority. `atoi`, with
-- whether it sets `errno`, the limits of a policy and which calls fail are given.
use operating_systems_theory.Common.{
  ℕ, Bool, Bool-cases, List, [], false, if◌then◌else◌, inl, inr, not, refl, true, ◌&&◌, ◌||◌, ◌∷◌,
  ◌≡◌, ltb, ◌==◌, arith,
}
use operating_systems_theory.Common.Int.{ℤ, negsuc, pos, below}
use operating_systems_theory.Common.Text.{Text, text_eq, text_eq→eq}
mod Examples

pub data Policy : Type 0 where
  round_robin : Policy
  fifo : Policy

pub data Call : Type 0 where
  fork : Call
  seteuid_root : Call
  sched_setscheduler : Call
  seteuid_user : Call
  execvp : Call

-- How the program or, behind `fork`, the child ends.
pub data Ended : Type 0 where
  usage : Ended
  bad_policy : Ended
  not_a_number : Ended
  out_of_range : Ended
  failed : (call : Call) → Ended
  executed : (policy : Policy) (priority : ℤ) (command : List Text) → Ended

abbrev pub name_of : Policy → Text
name_of round_robin = b'r' ∷ []
name_of fifo = b'f' ∷ []

-- `atoi`: the number, and whether `errno` is set.
pub record Atoi : Type 0 where
  pub value : ℤ
  pub errno_set : Bool

abbrev pub is_zero : ℤ → Bool
is_zero (pos n) = n == 0
is_zero (negsuc n) = false

abbrev pub above : ℤ → ℕ → Bool
above (pos n) bound = ltb bound n
above (negsuc n) bound = false

-- `if (cond) { message; exit }` with what follows.
check : (bad : Bool) (ended next : Ended) → Ended
check bad ended next = if bad then ended else next

-- The child.
child : (ok : Call → Bool) (policy : Policy) (priority : ℤ) (command : List Text) → Ended
unfolding check
child ok policy priority command = check (not (ok seteuid_root)) (failed seteuid_root) (
    check (not (ok sched_setscheduler)) (failed sched_setscheduler) (
      check (not (ok seteuid_user)) (failed seteuid_user)
        (check (not (ok execvp)) (failed execvp) (executed policy priority command))))

-- Behind the test of the policy.
scheduled :
    (priomin priomax : Policy → ℕ) (ok : Call → Bool) (policy : Policy) (number : Atoi)
    → (command : List Text) → Ended
unfolding check child
scheduled priomin priomax ok policy number command =
    check (is_zero number.value && number.errno_set) not_a_number (
      check (below number.value (priomin policy) || above number.value (priomax policy))
        out_of_range (check (not (ok fork)) (failed fork) (child ok policy number.value command)))

abbrev pub is_named : Policy → Text → Bool
is_named policy s = text_eq s (name_of policy)

-- `main` on the arguments behind the program's name.
unfoldable pub main :
    (atoi : Text → Atoi) (priomin priomax : Policy → ℕ) (ok : Call → Bool) (args : List Text)
    → Ended
unfolding check scheduled
main atoi priomin priomax ok (policy ∷ priority ∷ command ∷ more) =
    check (not (is_named round_robin policy) && not (is_named fifo policy)) bad_policy (
      scheduled priomin priomax ok (if is_named round_robin policy then round_robin else fifo)
        (atoi priority) (command ∷ more))
main atoi priomin priomax ok [] = usage
main atoi priomin priomax ok (policy ∷ []) = usage
main atoi priomin priomax ok (policy ∷ priority ∷ []) = usage

abbrev is_executed : Ended → Bool
is_executed (executed policy priority command) = true
is_executed _ = false

-- Behind a test the program goes on only where the test lets it.
check-passed :
    (bad : Bool) (ended next goal : Ended)
    → is_executed ended ≡ false
    → is_executed goal ≡ true
    → check bad ended next ≡ goal
    → (bad ≡ false) × (next ≡ goal)
unfolding check
check-passed true ended next goal other done e = absurd (cc (e, other, done))
check-passed false ended next goal other done e = (refl, e)

not-false : (b : Bool) → not b ≡ false → b ≡ true
not-false true h = refl
not-false false h = absurd (cc (h))

all_ok :
    (ok : Call → Bool)
    → ok fork ≡ true
    → ok seteuid_root ≡ true
    → ok sched_setscheduler ≡ true
    → ok seteuid_user ≡ true
    → ok execvp ≡ true
    → (call : Call) → ok call ≡ true
all_ok ok a b c d e fork = a
all_ok ok a b c d e seteuid_root = b
all_ok ok a b c d e sched_setscheduler = c
all_ok ok a b c d e seteuid_user = d
all_ok ok a b c d e execvp = e

-- A number within the limits of a policy.
pub IsWithin : (priomin priomax : Policy → ℕ) → Policy → ℤ → Type 0
IsWithin priomin priomax policy priority =
    (below priority (priomin policy) ≡ false) × (above priority (priomax policy) ≡ false)

scheduled-executed :
    (priomin priomax : Policy → ℕ) (ok : Call → Bool) (asked policy : Policy) (number : Atoi)
    → (given command : List Text) (priority : ℤ)
    → scheduled priomin priomax ok asked number given ≡ executed policy priority command
    → (asked ≡ policy)
      × (given ≡ command)
      × (number.value ≡ priority)
      × IsWithin priomin priomax asked number.value
      × ((call : Call) → ok call ≡ true)
unfolding scheduled child IsWithin
scheduled-executed priomin priomax ok asked policy number given command priority e =
    let (_, e1) =
      check-passed (is_zero number.value && number.errno_set) not_a_number _ _ refl refl e in
    let (range, e2) =
      check-passed (below number.value (priomin asked) || above number.value (priomax asked))
        out_of_range _ _ refl refl e1 in
    let (a, e3) = check-passed (not (ok fork)) (failed fork) _ _ refl refl e2 in
    let (b, e4) = check-passed (not (ok seteuid_root)) (failed seteuid_root) _ _ refl refl e3 in
    let (c, e5) =
      check-passed (not (ok sched_setscheduler)) (failed sched_setscheduler) _ _ refl refl e4 in
    let (d, e6) = check-passed (not (ok seteuid_user)) (failed seteuid_user) _ _ refl refl e5 in
    let (f, e7) =
      check-passed (not (ok execvp)) (failed execvp) (executed asked number.value given) _ refl refl
        e6 in
    (
      cc (e7),
      cc (e7),
      cc (e7),
      (ground (arith, range), ground (arith, range)),
      all_ok ok (not-false _ a) (not-false _ b) (not-false _ c) (not-false _ d) (not-false _ f),
    )

named :
    (s : Text)
    → not (is_named round_robin s) && not (is_named fifo s) ≡ false
    → s ≡ name_of (if is_named round_robin s then round_robin else fifo)
named s h = elim (Bool-cases (is_named round_robin s)) [
  | inl e ↦ rw e (text_eq→eq s (name_of round_robin) e)
  | inr e ↦ elim (Bool-cases (is_named fifo s)) [
    | inl f ↦ rw e (text_eq→eq s (name_of fifo) f)
    | inr f ↦ absurd (cc (rw (e, f) at h))
  ]
]

-- A command is executed only where the arguments name the policy, give a number that is the priority
-- and lies within the limits of that policy, and go on with the command and its arguments, and where
-- every call on the way, which sets the policy and gives up the root user, has succeeded.
pub main-executed :
    (atoi : Text → Atoi) (priomin priomax : Policy → ℕ) (ok : Call → Bool) (args : List Text)
    → (policy : Policy) (priority : ℤ) (command : List Text)
    → main atoi priomin priomax ok args ≡ executed policy priority command
    → (number : Text) × (args ≡ name_of policy ∷ number ∷ command)
      × ((atoi number).value ≡ priority)
      × IsWithin priomin priomax policy priority
      × ((call : Call) → ok call ≡ true)
unfolding main
main-executed atoi priomin priomax ok [] policy priority command e = absurd (cc (e))
main-executed atoi priomin priomax ok (p ∷ []) policy priority command e = absurd (cc (e))
main-executed atoi priomin priomax ok (p ∷ n ∷ []) policy priority command e = absurd (cc (e))
main-executed atoi priomin priomax ok (p ∷ n ∷ c ∷ more) policy priority command e =
    let (name_ok, e1) =
      check-passed (not (is_named round_robin p) && not (is_named fifo p)) bad_policy _ _ refl refl
        e in
    let (same, rest, number, within, calls) =
      scheduled-executed priomin priomax ok _ policy (atoi n) (c ∷ more) command priority e1 in
    (n, cc (named p name_ok, same, rest), number, rw (same, number) at within, calls)
