-- ===== src/Files/Dups.antt =====
-- linux-api-kerrisk/fileio/dups.c: `dup` and `dup2` from `fcntl` and `close`. A table of descriptors
-- holds the open file of each, up to the limit of the process.
use operating_systems_theory.Common.{
  ℕ, Bool, List, Option, [], ap, arith, false, get_or, if◌then◌else◌, length, ltb, none, refl, set,
  some, suc, true, zero, ◌&&◌, ◌<◌, ◌==◌, ◌↔◌, ◌≡◌, ◌≢◌, ◌≤◌, ◌∷◌, length-set,
}
use operating_systems_theory.Common.Int.{ℤ, negsuc, pos}
mod Examples

-- The file at a descriptor.
abbrev pub file_at : (fds : List (Option ℕ)) (fd : ℕ) → Option ℕ
file_at fds fd = get_or fds fd none

abbrev pub is_open : Option ℕ → Bool
is_open none = false
is_open (some file) = true

-- The lowest descriptor that is not open; the limit if all are.
unfoldable pub lowest : (fds : List (Option ℕ)) → ℕ
lowest [] = 0
lowest (none ∷ fds) = 0
lowest (some file ∷ fds) = suc (lowest fds)

-- What `fcntl(oldfd, F_DUPFD, 0)` returns, with the table behind it.
pub record Result : Type 0 where
  pub newfd : ℤ
  pub fds : List (Option ℕ)

abbrev pub opened : (fds : List (Option ℕ)) (oldfd : ℕ) → Result
opened fds oldfd = record {
  newfd = pos (lowest fds);
  fds = set fds (lowest fds) (file_at fds oldfd);
}

abbrev pub refused : (fds : List (Option ℕ)) → Result
refused fds = record { newfd = negsuc 0; fds = fds }

unfoldable pub dup : (fds : List (Option ℕ)) (oldfd : ℕ) → Result
dup fds oldfd =
    if is_open (file_at fds oldfd)
    then (if ltb (lowest fds) (length fds) then opened fds oldfd else refused fds)
    else refused fds

-- `fcntl(fd, F_GETFD)` fails, with EBADF, where the descriptor is not open.
abbrev pub fd_is_valid : (fds : List (Option ℕ)) (fd : ℕ) → Bool
fd_is_valid fds fd = is_open (file_at fds fd)

-- `close`, the result of which is not looked at.
abbrev pub close : (fds : List (Option ℕ)) (fd : ℕ) → List (Option ℕ)
close fds fd = set fds fd none

unfoldable pub dup2 : (fds : List (Option ℕ)) (oldfd newfd : ℕ) → Result
dup2 fds oldfd newfd =
    if fd_is_valid fds oldfd
    then (if oldfd == newfd
        then record { newfd = pos newfd; fds = fds }
        else dup (close fds newfd) oldfd)
    else refused fds

-- The descriptors below `n` are open.
unfoldable pub all_open : (n : ℕ) → List (Option ℕ) → Bool
all_open zero fds = true
all_open (suc n) [] = false
all_open (suc n) (file ∷ fds) = is_open file && all_open n fds

file_at-close :
    (fds : List (Option ℕ)) (fd other : ℕ)
    → fd ≢ other
    → file_at (close fds other) fd ≡ file_at fds fd
file_at-close [] fd other ne = refl
file_at-close (f ∷ fds) zero zero ne = absurd (ne refl)
file_at-close (f ∷ fds) zero (suc other) ne = refl
file_at-close (f ∷ fds) (suc fd) zero ne = refl
file_at-close (f ∷ fds) (suc fd) (suc other) ne = file_at-close fds fd other (λ e. ne (ap suc e))

-- The lowest free descriptor of a table in which one is closed is that one at most.
lowest-close : (fds : List (Option ℕ)) (fd : ℕ) → fd < length fds → lowest (close fds fd) ≤ fd
unfolding lowest
lowest-close [] fd h = absurd (omega arith)
lowest-close (f ∷ fds) zero h = omega arith
lowest-close (none ∷ fds) (suc fd) h = omega arith
lowest-close (some f ∷ fds) (suc fd) h = omega (arith, lowest-close fds fd (omega arith))

-- It is that one exactly if all those below are open.
lowest-same :
    (fds : List (Option ℕ)) (fd : ℕ)
    → fd < length fds
    → (lowest (close fds fd) ≡ fd) ↔ (all_open fd fds ≡ true)
unfolding lowest all_open
lowest-same [] fd h = absurd (omega arith)
lowest-same (f ∷ fds) zero h = (λ _. refl, λ _. refl)
lowest-same (none ∷ fds) (suc fd) h = (λ e. absurd (omega arith), λ e. absurd (cc (e)))
lowest-same (some f ∷ fds) (suc fd) h =
    let (to, from) = lowest-same fds fd (omega arith) in
    (λ e. to (omega arith), λ e. ap suc (from e))

-- For an open descriptor and another one within the limit, `dup2` puts the file at the lowest
-- descriptor that is free once `newfd` is closed, and returns it. That is `newfd` at most, and it is
-- `newfd`, as POSIX asks, exactly where every descriptor below `newfd` is open.
pub dup2-lowest :
    (fds : List (Option ℕ)) (oldfd newfd file : ℕ)
    → file_at fds oldfd ≡ some file
    → oldfd ≢ newfd
    → newfd < length fds
    → (dup2 fds oldfd newfd ≡ record {
      newfd = pos (lowest (close fds newfd));
      fds = set (close fds newfd) (lowest (close fds newfd)) (some file);
    })
      × (lowest (close fds newfd) ≤ newfd)
      × ((lowest (close fds newfd) ≡ newfd) ↔ (all_open newfd fds ≡ true))
unfolding dup2 dup
dup2-lowest fds oldfd newfd file open_old ne h =
    let low = lowest-close fds newfd h in
    let differs : (oldfd == newfd) ≡ false = ground (arith, ne) in
    let kept = file_at-close fds oldfd newfd ne in
    let room : ltb (lowest (close fds newfd)) (length (close fds newfd)) ≡ true =
      ground (arith, low, length-set fds newfd none) in
    (rw (open_old, differs, kept, open_old, room) refl, low, lowest-same fds newfd h)
