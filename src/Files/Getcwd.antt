-- ===== src/Files/Getcwd.antt =====
-- linux-api-kerrisk/dirsrefs/getcwd.c: the path of the working directory, found by climbing to the root
-- and looking in each parent for the entry that is the directory below. Texts are lists of bytes.
use operating_systems_theory.Common.{
  ℕ, Bool, Bool-cases, List, Option, [], ap, append-nil, append_assoc, arith, false, if◌then◌else◌,
  inl, inr, length, length-append, none, refl, some, suc, sym, take, true, zero, ◌&&◌, ◌++◌, ◌+◌,
  ◌-◌, ◌<◌, ◌==◌, ◌∙◌, ◌∷◌, ◌≡◌, ◌≤◌, ◌⊎◌,
}
mod Examples

abbrev pub Text : Type 0
Text = List ℕ

-- A directory by `st_dev` and `st_ino`.
abbrev pub Ident : Type 0
Ident = ℕ × ℕ

-- What the system answers: which directory "/" is; which ".." of each is; and the entries of each,
-- with what `stat` says of them. The calls on "/", "." and ".." succeed.
pub record World : Type 0 where
  pub root : Ident
  pub parent : Ident → Ident
  pub entries : Ident → List (Text × Option Ident)

abbrev pub path_max : ℕ
path_max = 4096

unfoldable pub same : Ident → Ident → Bool
same (dev, ino) (dev', ino') = (ino == ino') && (dev == dev')

-- "." and ".."
unfoldable pub is_dot : Text → Bool
is_dot [] = false
is_dot (a ∷ []) = a == b'.'
is_dot (a ∷ b ∷ []) = (a == b'.') && (b == b'.')
is_dot (a ∷ b ∷ c ∷ cs) = false

-- `snprintf(tmp, PATH_MAX, "/%s%s", …)` and the copy back.
abbrev pub prepend : (name path : Text) → Text
prepend name path = take (path_max - 1) (b'/' ∷ name ++ path)

-- The loop over the entries of the parent; `none` where `stat` fails on one, which ends the program.
unfoldable pub scan : List (Text × Option Ident) → (cst : Ident) → (path : Text) → Option Text
unfolding same is_dot
scan [] cst path = some path
scan ((name, entry) ∷ entries) cst path =
    let rest = scan entries cst path in
    if is_dot name then rest else elim entry [
      | none ↦ none
      | some st ↦ if same st cst then some (prepend name path) else rest
    ]

-- A call fails and ends the program, does not return on the fuel given, or returns a path.
pub data Outcome : Type 0 where
  failed : Outcome
  spent : Outcome
  returned : Text → Outcome

abbrev pub after : Option Text → (Text → Outcome) → Outcome
after none next = failed
after (some path) next = next path

-- The outer loop, on fuel.
unfoldable pub climb : ℕ → World → (cst : Ident) → (path : Text) → Outcome
unfolding scan same
climb zero w cst path = spent
climb (suc k) w cst path =
    let pst = w.parent cst in
    if same cst w.root then returned path else after (scan (w.entries pst) cst path) (climb k w pst)

-- What is behind the loop: "/" for an empty path, and the copy to `buf`.
abbrev pub finish : (size : ℕ) → Outcome → Outcome
finish size failed = failed
finish size spent = spent
finish size (returned []) = returned (take size (b'/' ∷ []))
finish size (returned (c ∷ cs)) = returned (take size (c ∷ cs))

unfoldable pub getcwd : (fuel : ℕ) → World → (cwd : Ident) → (size : ℕ) → Outcome
unfolding climb
getcwd fuel w cwd size = finish size (climb fuel w cwd [])

-- Entries that the loop passes over when it looks for `c`.
abbrev pub Others : Ident → List (Text × Option Ident) → Type 0
Others c [] = Unit
Others c ((name, entry) ∷ entries) =
    ((is_dot name ≡ true) ⊎ ((st : Ident) × (entry ≡ some st) × (same st c ≡ false)))
    × Others c entries

-- `path` leads to the directory from the root, with as many names as `depth` says: each directory but
-- the root is named in its parent, and by no earlier entry.
pub data At (w : World) : (depth : ℕ) → Ident → (path : Text) → Type 0 where
  top : At w 0 w.root []
  below :
      {n : ℕ} {c : Ident} (path name : Text) (earlier behind : List (Text × Option Ident))
      → At w n (w.parent c) path
      → same c w.root ≡ false
      → w.entries (w.parent c) ≡ earlier ++ (name, some c) ∷ behind
      → Others c earlier
      → is_dot name ≡ false
      → At w (suc n) c (path ++ b'/' ∷ name)

same_refl : (c : Ident) → same c c ≡ true
unfolding same
same_refl (dev, ino) = ground arith

take-short : (n : ℕ) (t : Text) → length t ≤ n → take n t ≡ t
take-short zero [] h = refl
take-short zero (c ∷ t) h = absurd (omega arith)
take-short (suc n) [] h = refl
take-short (suc n) (c ∷ t) h = ap (λ l. c ∷ l) (take-short n t (omega arith))

-- The loop over the entries finds the name.
scan-append :
    (earlier behind : List (Text × Option Ident)) (name : Text) (c : Ident) (path : Text)
    → Others c earlier
    → is_dot name ≡ false
    → scan (earlier ++ (name, some c) ∷ behind) c path ≡ some (prepend name path)
unfolding scan
scan-append [] behind name c path others plain = rw (plain, same_refl c) refl
scan-append ((n, e) ∷ earlier) behind name c path (inl dot, others) plain =
    rw dot (scan-append earlier behind name c path others plain)
scan-append ((n, e) ∷ earlier) behind name c path (inr (st, is_st, differs), others) plain =
    elim (Bool-cases (is_dot n)) [
      | inl dot ↦ rw dot (scan-append earlier behind name c path others plain)
      | inr no_dot ↦
          rw (no_dot, is_st, differs) (scan-append earlier behind name c path others plain)
    ]

climb-At :
    {w : World} {n : ℕ} {c : Ident} {path : Text} (k : ℕ) (tail : Text)
    → At w n c path
    → n < k
    → length path + length tail < path_max
    → climb k w c tail ≡ returned (path ++ tail)
unfolding climb
climb-At zero tail a enough short = absurd (omega arith)
climb-At {w} (suc k) tail top enough short = rw (same_refl w.root) refl
climb-At {w} {c} (suc k) tail (below path name earlier behind a inner e others plain) enough short =
    let sum : length (path ++ b'/' ∷ name) ≡ length path + suc (length name) =
      length-append path (b'/' ∷ name) in
    let whole : prepend name tail ≡ b'/' ∷ name ++ tail =
      take-short (path_max - 1) (b'/' ∷ name ++ tail)
        (omega (arith, short, sum, length-append name tail)) in
    rw (inner, e, scan-append earlier behind name c tail others plain, whole)
      (climb-At k (b'/' ∷ name ++ tail) a (omega arith)
          (omega (arith, short, sum, length-append name tail))
        ∙ ap returned (sym (append_assoc path (b'/' ∷ name) tail)))

-- An absolute path: that of the root is "/".
abbrev pub absolute : Text → Text
absolute [] = b'/' ∷ []
absolute (c ∷ cs) = c ∷ cs

finish-absolute :
    (path : Text)
    → length path < path_max
    → finish path_max (returned path) ≡ returned (absolute path)
finish-absolute [] short = refl
finish-absolute (c ∷ cs) short = ap returned (take-short path_max (c ∷ cs) (omega arith))

-- Given more fuel than the depth of the working directory, `getcwd` returns, and returns the path that
-- leads to it from the root, if that is shorter than `PATH_MAX` and `stat` succeeds on the entries in
-- front of it.
pub getcwd-absolute :
    (w : World) {n : ℕ} {cwd : Ident} {path : Text} (fuel : ℕ)
    → At w n cwd path
    → n < fuel
    → length path < path_max
    → getcwd fuel w cwd path_max ≡ returned (absolute path)
unfolding getcwd
getcwd-absolute w {path} fuel a enough short =
    rw (climb-At fuel [] a enough (omega arith), append-nil path) (finish-absolute path short)
