-- ===== src/Concurrency/FairReadersWriters/Safety.antt =====
-- What holds in every state that the readers and writers of reader-writer-nostarve.c reach.
use operating_systems_theory.Common.{
  ℕ, arith, if◌then◌else◌, inl, inr, ltb, refl, ◌+◌, ◌<◌, ◌∙◌, ◌≡◌, ◌≤◌,
}
use operating_systems_theory.Common.Family.{
  total, Shift, le-total, only-one, total-Shift, total-const, update,
}
use operating_systems_theory.Concurrency.Threads.{Reach, Reach-keeps}
use operating_systems_theory.Concurrency.FairReadersWriters.{
  RwLock, AtStart, Move, Pc, first_reader, give_write, init, last_reader, more_readers,
  other_readers, post_fair, post_lock, print, r_enter, r_fair, r_give, r_leave, r_post, r_post_fair,
  r_post_last, r_start, r_wait, reading, repost_lock, retake_lock, take_fair, take_lock, take_write,
  w_fair, w_post_fair, w_start, write, writer_fair, writer_post, writer_post_fair, writer_take,
  writing,
}

abbrev pub locking : Pc → ℕ
locking r_enter = 1
locking r_wait = 1
locking r_post = 1
locking r_leave = 1
locking r_give = 1
locking r_post_last = 1
locking _ = 0

-- Holders of `readlock` that neither wait for `writelock` nor are to post it.
abbrev pub passing : Pc → ℕ
passing r_enter = 1
passing r_post = 1
passing r_leave = 1
passing r_post_last = 1
passing _ = 0

abbrev pub waiting : Pc → ℕ
waiting r_wait = 1
waiting _ = 0

abbrev pub giving : Pc → ℕ
giving r_give = 1
giving _ = 0

-- Readers that are counted and neither read nor wait for `writelock`.
abbrev pub between : Pc → ℕ
between r_post = 1
between r_post_fair = 1
between r_leave = 1
between _ = 0

-- Holders of `fair_lock` that are not writers inside.
abbrev pub arriving : Pc → ℕ
arriving r_fair = 1
arriving r_enter = 1
arriving r_wait = 1
arriving r_post = 1
arriving r_post_fair = 1
arriving w_fair = 1
arriving w_post_fair = 1
arriving _ = 0

-- Whether the readers hold `writelock` among them.
abbrev pub group : ℕ → ℕ → ℕ → ℕ
group waits gives readers =
    if ltb 0 gives then 1 else if ltb 0 waits then 0 else if ltb 0 readers then 1 else 0

pub record Counts (m : RwLock) (l s a g b r w f : ℕ) : Type 0 where
  pub locked : m.readlock + l ≡ 1
  pub split : s + a + g ≡ l
  pub counted : m.readers ≡ r + a + b
  pub fair : m.fair_lock + f + w ≡ 1
  pub alone : 0 < a → m.readers ≡ 1
  pub nobody : 0 < g → m.readers ≡ 0
  pub owner : m.writelock + w + group a g m.readers ≡ 1

Move-Counts :
    {l l' s s' a a' g g' b b' r r' w w' f f' : ℕ} {m m' : RwLock} {p p' : Pc}
    → Move m p m' p'
    → Shift locking p p' l l'
    → Shift passing p p' s s'
    → Shift waiting p p' a a'
    → Shift giving p p' g g'
    → Shift between p p' b b'
    → Shift reading p p' r r'
    → Shift writing p p' w w'
    → Shift arriving p p' f f'
    → Counts m l s a g b r w f
    → Counts m' l' s' a' g' b' r' w' f'
Move-Counts (take_fair free) t u v w x y z o i = ground arith
Move-Counts (take_lock free) t u v w x y z o i = ground arith
Move-Counts (first_reader e) t u v w x y z o i = ground arith
Move-Counts (more_readers e) t u v w x y z o i = ground arith
Move-Counts (take_write free) t u v w x y z o i = ground arith
Move-Counts post_lock t u v w x y z o i = ground arith
Move-Counts post_fair t u v w x y z o i = ground arith
Move-Counts print t u v w x y z o i = ground arith
Move-Counts (retake_lock free) t u v w x y z o i = ground arith
Move-Counts (last_reader e) t u v w x y z o i = ground arith
Move-Counts (other_readers e) t u v w x y z o i = ground arith
Move-Counts give_write t u v w x y z o i = ground arith
Move-Counts repost_lock t u v w x y z o i = ground arith
Move-Counts (writer_fair free) t u v w x y z o i = ground arith
Move-Counts (writer_take free) t u v w x y z o i = ground arith
Move-Counts write t u v w x y z o i = ground arith
Move-Counts writer_post t u v w x y z o i = ground arith
Move-Counts writer_post_fair t u v w x y z o i = ground arith

module _ (n : ℕ) where
  abbrev pub Inv : RwLock → (ℕ → Pc) → Type 0
  Inv m pc =
      Counts m (total locking n pc) (total passing n pc) (total waiting n pc) (total giving n pc)
        (total between n pc) (total reading n pc) (total writing n pc) (total arriving n pc)

  Move-Inv :
      (m m' : RwLock) (pc : ℕ → Pc) (i : ℕ) (p' : Pc)
      → i < n
      → Move m (pc i) m' p'
      → Inv m pc
      → Inv m' (update pc i p')
  Move-Inv m m' pc i p' lt mv inv =
      Move-Counts mv (total-Shift locking n pc i p' lt) (total-Shift passing n pc i p' lt)
        (total-Shift waiting n pc i p' lt) (total-Shift giving n pc i p' lt)
        (total-Shift between n pc i p' lt) (total-Shift reading n pc i p' lt)
        (total-Shift writing n pc i p' lt) (total-Shift arriving n pc i p' lt) inv

  zero-AtStart :
      (w : Pc → ℕ) (pc : ℕ → Pc)
      → w r_start ≡ 0
      → w w_start ≡ 0
      → ((i : ℕ) → i < n → AtStart (pc i))
      → total w n pc ≡ 0
  zero-AtStart w pc hr hw at =
      total-const w 0 n pc (λ i q. elim (at i q) [ inl e ↦ rw e hr | inr e ↦ rw e hw ])
      ∙ omega arith

  Inv-init : (pc : ℕ → Pc) → ((i : ℕ) → i < n → AtStart (pc i)) → Inv init pc
  Inv-init pc at = ground (
    arith,
    zero-AtStart locking pc refl refl at,
    zero-AtStart passing pc refl refl at,
    zero-AtStart waiting pc refl refl at,
    zero-AtStart giving pc refl refl at,
    zero-AtStart between pc refl refl at,
    zero-AtStart reading pc refl refl at,
    zero-AtStart writing pc refl refl at,
    zero-AtStart arriving pc refl refl at,
  )

module _ {n : ℕ} {pc₀ : ℕ → Pc} (at : (i : ℕ) → i < n → AtStart (pc₀ i)) {m : RwLock} {pc : ℕ → Pc}
    (r : Reach Move n init pc₀ m pc) where
  pub Reach-Inv : Inv n m pc
  Reach-Inv = Reach-keeps Move n (Inv n) (Move-Inv n) (Inv-init n pc₀ at) r

  writing-le-one : total writing n pc ≤ 1
  writing-le-one = ground (arith, Reach-Inv)

  -- Of any number of readers and writers, all of which began at the start of their loops, two
  -- writers are never inside together.
  pub fair_writers_exclude :
      (i j : ℕ) → i < n → j < n → writing (pc i) ≡ 1 → writing (pc j) ≡ 1 → i ≡ j
  fair_writers_exclude i j hi hj wi wj =
      only-one writing n pc i j hi hj writing-le-one (omega arith) (omega arith)

  -- In every reachable state of any number of readers and writers, all of which began at the start
  -- of their loops, while a writer is inside no reader is.
  pub fair_writer_excludes_readers :
      (i j : ℕ) → i < n → j < n → writing (pc i) ≡ 1 → reading (pc j) ≡ 0
  fair_writer_excludes_readers i j hi hj wi =
      ground (arith, Reach-Inv, le-total writing n pc i hi, le-total reading n pc j hj)

  -- When no thread is inside an acquire, a release or a critical section, the lock is as it was
  -- initialised: the three semaphores in use stand at 1 and no reader is counted.
  pub quiet-init :
      ((i : ℕ) → i < n → AtStart (pc i))
      → (m.fair_lock ≡ 1) × (m.readlock ≡ 1) × (m.writelock ≡ 1) × (m.readers ≡ 0)
  quiet-init quiet = ground (
    arith,
    Reach-Inv,
    zero-AtStart n locking pc refl refl quiet,
    zero-AtStart n waiting pc refl refl quiet,
    zero-AtStart n giving pc refl refl quiet,
    zero-AtStart n between pc refl refl quiet,
    zero-AtStart n reading pc refl refl quiet,
    zero-AtStart n writing pc refl refl quiet,
    zero-AtStart n arriving pc refl refl quiet,
  )
