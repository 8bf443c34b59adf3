-- ===== src/Processes/SigReceiver/Blocked.antt =====
-- sig_receiver.c with an argument: all signals are blocked for a time, and then delivered.
use operating_systems_theory.Common.{
  not, leb, ℕ, Bool, List, Option, [], false, if◌then◌else◌, ltb, none, some, suc, zero, ◌&&◌, ◌+◌,
  ◌-◌, ◌==◌, ◌||◌, ◌∷◌, true,
}
use operating_systems_theory.Processes.SigReceiver.{
  State, count, handler, initial, nsig, report, wait_loop,
}

-- A signal is a member of the list of those sent.
unfoldable pub is_member : ℕ → List ℕ → Bool
is_member n [] = false
is_member n (sig ∷ sigs) = (sig == n) || is_member n sigs

-- A signal that can be caught and blocked and that cancels no other: not SIGKILL, SIGSTOP and the two
-- that the thread library keeps, nor SIGCONT and the stop signals, which discard one another.
abbrev pub is_plain : ℕ → Bool
is_plain sig =
    leb 1 sig
    && ltb sig nsig
    && not (
        (sig == 9)
        || (sig == 18)
        || (sig == 19)
        || (sig == 20)
        || (sig == 21)
        || (sig == 22)
        || (sig == 32)
        || (sig == 33))

unfoldable pub all_plain : List ℕ → Bool
all_plain [] = true
all_plain (sig ∷ sigs) = is_plain sig && all_plain sigs

-- The signals, each of them plain, that are pending after those of the list were sent while blocked: a standard signal, one
-- below 34, is pending once, a real-time signal as often as it was sent.
unfoldable pub pending : (sent : List ℕ) → List ℕ
pending [] = []
pending (sig ∷ sigs) =
    let rest = pending sigs in if ltb sig 34 && is_member sig sigs then rest else sig ∷ rest

-- `printSigset`: the lines for the members from `n` on, `rounds` of them; the line for no member.
unfoldable pub sigset_loop : (rounds n : ℕ) (sigs : List ℕ) → List ℕ
sigset_loop zero n sigs = []
sigset_loop (suc k) n sigs =
    let rest = sigset_loop k (n + 1) sigs in if is_member n sigs then n ∷ rest else rest

pub data Printed : Type 0 where
  empty_signal_set : Printed
  members : (sigs : List ℕ) → Printed

abbrev pub printed_of : List ℕ → Printed
printed_of [] = empty_signal_set
printed_of (sig ∷ sigs) = members (sig ∷ sigs)

unfoldable pub print_sigset : (sigs : List ℕ) → Printed
unfolding sigset_loop
print_sigset sigs = printed_of (sigset_loop (nsig - 1) 1 sigs)

-- The second `sigprocmask`: the handler runs for every pending signal before it returns.
unfoldable pub deliver_all : List ℕ → State → State
deliver_all [] s = s
deliver_all (sig ∷ sigs) s = deliver_all sigs (handler sig s)

abbrev pub reported : State → Option (List (ℕ × ℕ))
reported s = if s.got_sigint then some (report (nsig - 1) 1 s) else none

-- `main` with an argument: what it prints of the pending signals, and the report.
unfoldable pub main_sleeping : (sent later : List ℕ) → Printed × Option (List (ℕ × ℕ))
unfolding pending print_sigset
main_sleeping sent later =
    (print_sigset (pending sent), reported (wait_loop later (deliver_all (pending sent) initial)))

-- How often a signal is counted that is sent so while blocked and delivered so later.
abbrev pub times : (n : ℕ) (sent caught : List ℕ) → ℕ
times n sent caught =
    (if ltb n 34 then (if is_member n sent then 1 else 0) else count n sent) + count n caught
