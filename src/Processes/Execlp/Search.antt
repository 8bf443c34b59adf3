-- ===== src/Processes/Execlp/Search.antt =====
-- execlp.c: which file is run.
use operating_systems_theory.Common.{
  ℕ, Bool, append-nil, append_assoc, ==→eq, ◌==◌, ◌≢◌, Bool-cases, List, [], ap, false, inl, inr,
  none, refl, some, true, ◌++◌, ◌∷◌, ◌≡◌, ◌⊎◌,
}
use operating_systems_theory.Common.Text.{lacks, Text}
use operating_systems_theory.Processes.Execlp.{
  emit, candidate, execlp, execve, not_found, path_contains, search, build_argv, has_slash, tokens,
}

-- No directory of the list has the program.
abbrev pub NoneExecutable : (path_max : ℕ) (executable : Text → Bool) → Text → List Text → Type 0
NoneExecutable path_max executable filename [] = Unit
NoneExecutable path_max executable filename (dir ∷ dirs) =
    (executable (candidate path_max dir filename) ≡ false)
    × NoneExecutable path_max executable filename dirs

-- Of the directories, `dir` is the first that has the program.
abbrev pub IsFirst : (path_max : ℕ) (executable : Text → Bool) → Text → List Text → Text → Type 0
IsFirst path_max executable filename dirs fullpath =
    (before : List Text) × (dir : Text) × (behind : List Text) × (dirs ≡ before ++ dir ∷ behind)
    × NoneExecutable path_max executable filename before
    × (executable (candidate path_max dir filename) ≡ true)
    × (fullpath ≡ candidate path_max dir filename)

search-IsFirst :
    (path_max : ℕ) (executable : Text → Bool) (filename : Text) (dirs : List Text)
    → ((search path_max executable filename dirs ≡ none)
        × NoneExecutable path_max executable filename dirs)
      ⊎ ((fullpath : Text) × (search path_max executable filename dirs ≡ some fullpath)
          × IsFirst path_max executable filename dirs fullpath)
unfolding search
search-IsFirst path_max executable filename [] = inl (refl, tt)
search-IsFirst path_max executable filename (dir ∷ dirs) =
    elim (Bool-cases (executable (candidate path_max dir filename))) [
      | inl here ↦
          inr (candidate path_max dir filename, rw here refl, ([], dir, dirs, refl, tt, here, refl))
      | inr other ↦ elim (search-IsFirst path_max executable filename dirs) [
        | inl (e, out) ↦ inl (rw other e, (other, out))
        | inr (fullpath, e, (before, d, behind, split, out, found, same)) ↦ inr (
          fullpath,
          rw other e,
          (dir ∷ before, d, behind, ap (λ l. dir ∷ l) split, (other, out), found, same),
        )
      ]
    ]

-- The words of a text between colons, with no empty ones.
pub data IsSplit : Text → List Text → Type 0 where
  finished : IsSplit [] []
  colon : {s : Text} {words : List Text} → IsSplit s words → IsSplit (b':' ∷ s) words
  last : {word : Text} → word ≢ [] → lacks b':' word ≡ true → IsSplit word (word ∷ [])
  one_more :
      {word s : Text} {words : List Text}
      → word ≢ []
      → lacks b':' word ≡ true
      → IsSplit (b':' ∷ s) words
      → IsSplit (word ++ b':' ∷ s) (word ∷ words)

lacks-nil : lacks b':' [] ≡ true
unfolding lacks
lacks-nil = refl

lacks-snoc :
    (stop : ℕ) (s : Text) (c : ℕ)
    → lacks stop s ≡ true
    → (c == stop) ≡ false
    → lacks stop (s ++ c ∷ []) ≡ true
unfolding lacks
lacks-snoc stop [] c h other = rw other refl
lacks-snoc stop (d ∷ s) c h other = elim (Bool-cases (d == stop)) [
  | inl e ↦ absurd (cc (rw e at h))
  | inr e ↦ rw e (lacks-snoc stop s c (rw e at h) other)
]

-- At a colon, the part read so far is a word, unless it is empty.
emit-IsSplit :
    (s part : Text) (words : List Text)
    → lacks b':' part ≡ true
    → IsSplit (b':' ∷ s) words
    → IsSplit (part ++ b':' ∷ s) (emit part words)
emit-IsSplit s [] words h split = split
emit-IsSplit s (c ∷ cs) words h split = one_more (λ e. absurd (cc (e))) h split

emit-last : (part : Text) → lacks b':' part ≡ true → IsSplit part (emit part [])
emit-last [] h = finished
emit-last (c ∷ cs) h = last (λ e. absurd (cc (e))) h

tokens-IsSplit : (s part : Text) → lacks b':' part ≡ true → IsSplit (part ++ s) (tokens s part)
unfolding tokens
tokens-IsSplit [] part h = rw (append-nil part) (emit-last part h)
tokens-IsSplit (c ∷ cs) part h = elim (Bool-cases (c == b':')) [
  | inl e ↦
      rw (e, ==→eq c b':' e)
        (emit-IsSplit cs part (tokens cs []) h (colon (tokens-IsSplit cs [] lacks-nil)))
  | inr e ↦
      rw (e, ← append_assoc part (c ∷ []) cs)
        (tokens-IsSplit cs (part ++ c ∷ []) (lacks-snoc b':' part c h e))
]

-- The directories of `PATH` are its words between colons, without the empty ones. `_execlp` runs a name
-- with a slash as it stands. Another name it runs from the first of the directories that has an
-- executable file of that name, or it reports that there is none if no directory has one.
pub execlp-IsFirst :
    (path_max : ℕ) (executable : Text → Bool) (path pathname : Text) (args : List Text)
    → (dirs : List Text) × IsSplit path dirs
      × (((has_slash pathname ≡ true)
            × (execlp path_max executable path pathname args
                ≡ execve pathname (build_argv pathname args)))
          ⊎ (((has_slash pathname ≡ false)
                × (execlp path_max executable path pathname args ≡ not_found)
                × NoneExecutable path_max executable pathname dirs)
              ⊎ ((fullpath : Text) × (has_slash pathname ≡ false)
                  × (execlp path_max executable path pathname args
                      ≡ execve fullpath (build_argv pathname args))
                  × IsFirst path_max executable pathname dirs fullpath)))
unfolding execlp path_contains
execlp-IsFirst path_max executable path pathname args = (
  tokens path [],
  tokens-IsSplit path [] lacks-nil,
  elim (Bool-cases (has_slash pathname)) [
    | inl slash ↦ inl (slash, rw slash refl)
    | inr plain ↦ elim (search-IsFirst path_max executable pathname (tokens path [])) [
      | inl (e, out) ↦ inr (inl (plain, rw (plain, e) refl, out))
      | inr (fullpath, e, found) ↦ inr (inr (fullpath, plain, rw (plain, e) refl, found))
    ]
  ],
)
