-- ===== src/Concurrency/SignalMask/Safety.antt =====
-- independant_thrd_sigmask.c: no thread is sent its signal before it blocks it.
use operating_systems_theory.Common.{ℕ, arith, false, some, true, ◌≡◌}
use operating_systems_theory.Concurrency.SignalMask.{Run, Chan, System, exited}
use operating_systems_theory.Concurrency.SignalMask.Invariant.{Run-Inv, Inv}

-- What the program is to show of a thread: it is not killed, and once it has exited it has printed a
-- mask with its signal.
abbrev pub IsShown : Chan → Type 0
IsShown c = (c.killed ≡ false) × (c.worker ≡ exited → c.printed ≡ some true)

shown : {c : Chan} → Inv c → IsShown c
shown i = ground arith

-- However the three threads interleave and whatever spurious wake-ups there are, no signal reaches a
-- thread that does not block it, so the process is never killed; and each thread that has exited has
-- found its own signal in its pending mask.
pub signals_pend : {k s : ℕ} {y : System} → Run k s y → IsShown y.one × IsShown y.two
signals_pend r = let (i, j) = Run-Inv r in (shown i, shown j)
