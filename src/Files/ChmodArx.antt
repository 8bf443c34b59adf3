-- ===== src/Files/ChmodArx.antt =====
-- linux-api-kerrisk/fileattrs/chmoda+rX.c: read permission for all, and execute permission for all on
-- directories and on files that somebody may execute.
use operating_systems_theory.Common.{
  ℕ, ==_refl, Bool, List, Option, [], if◌then◌else◌, none, refl, some, ◌%◌, ◌*◌, ◌+◌, ◌/◌, ◌==◌,
  ◌||◌, ◌∷◌, ◌≡◌, ◌⊎◌, arith,
}
mod Examples

-- `mode & mask` as a truth value, for a mask of one bit.
has_bit : (mode bit : ℕ) → Bool
has_bit mode bit = mode / bit % 2 == 1

-- The permissions that `arX` computes from `st_mode`.
pub perms : ℕ → ℕ
unfolding has_bit
perms mode =
    if has_bit mode 0o040000 || (has_bit mode 0o100 || (has_bit mode 0o010 || has_bit mode 0o001))
    then 0o444 + 0o111
    else 0o444

-- A file system: the mode of each path, if there is a file.
abbrev pub Disk : Type 0
Disk = ℕ → Option ℕ

-- `arX`: `chmod` replaces the permission bits and keeps the type. `none` where `stat` fails; `chmod`
-- succeeds.
pub ar_x : (path : ℕ) → Disk → Option Disk
unfolding perms
ar_x path disk = elim (disk path) [
  | none ↦ none
  | some mode ↦ some (λ q. if path == q then some (mode / 4096 * 4096 + perms mode) else disk q)
]

-- The loop of `main` over `argv`, the program's own name first.
pub main_loop : List ℕ → Disk → Option Disk
unfolding ar_x
main_loop [] disk = some disk
main_loop (path ∷ argv) disk = elim (ar_x path disk) [
  | none ↦ none
  | some disk' ↦ main_loop argv disk'
]

-- The permissions set are read and perhaps execute permission for all, and nothing else: a write
-- permission or a set-user-id bit that the file had is taken away.
pub perms-cases :
    (mode : ℕ)
    → ((perms mode ≡ 0o555)
        × ((mode / 0o040000 % 2 ≡ 1)
            ⊎ ((mode / 0o100 % 2 ≡ 1) ⊎ ((mode / 0o010 % 2 ≡ 1) ⊎ (mode % 2 ≡ 1)))))
      ⊎ ((perms mode ≡ 0o444)
          × (mode / 0o040000 % 2 ≡ 0)
          × (mode / 0o100 % 2 ≡ 0)
          × (mode / 0o010 % 2 ≡ 0)
          × (mode % 2 ≡ 0))
unfolding perms
perms-cases mode = ground arith

-- The loop starts at `argv[0]`: where that is a path of a file, its permissions are changed too.
pub main_loop-argv0 :
    (argv0 mode : ℕ) (disk : Disk)
    → disk argv0 ≡ some mode
    → (disk' : Disk) × (main_loop (argv0 ∷ []) disk ≡ some disk')
      × (disk' argv0 ≡ some (mode / 4096 * 4096 + perms mode))
unfolding main_loop
main_loop-argv0 argv0 mode disk h = (
  (λ q. if argv0 == q then some (mode / 4096 * 4096 + perms mode) else disk q),
  rw (h, main_loop) refl,
  rw (==_refl argv0) refl,
)
