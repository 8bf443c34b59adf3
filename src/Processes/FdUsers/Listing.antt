-- ===== src/Processes/FdUsers/Listing.antt =====
-- userfsact.c: which processes are printed.
use operating_systems_theory.Common.{
  ap₂, ℕ, take_all, some, none, ◌≤◌, Bool, Bool-cases, List, Option, [], ap, arith, false,
  if◌then◌else◌, inl, inr, length, length-append, refl, suc, take, take-append, true, zero,
  ℕ_discrete, ◌++◌, ◌+◌, ◌-◌, ◌<◌, ◌||◌, ◌↔◌, ◌∙◌, ◌∷◌, ◌≡◌, ◌&&◌,
}
use operating_systems_theory.Common.Int.{pos}
use operating_systems_theory.Common.Decimal.{print}
use operating_systems_theory.Common.Text.{Text, text_eq, text_eq_refl, text_eq→eq}
use operating_systems_theory.Processes.FdUsers.{dtoa, proc_loop, fd_loop, fd_path, is_target}
use operating_systems_theory.Processes.FdUsers.Decimal.{dtoa-print}
use operating_systems_theory.Processes.FdUsers.Numbers.{is_decimal, isdigitstr-decimal}

-- The name of a descriptor of a process: "/proc/<name>/fd/<fd>", the number in decimal.
unfoldable pub link_path : (name : Text) (fd : ℕ) → Text
link_path name fd =
    (b'/' ∷ b'p' ∷ b'r' ∷ b'o' ∷ b'c' ∷ b'/' ∷ name ++ b'/' ∷ b'f' ∷ b'd' ∷ b'/' ∷ [])
    ++ print (pos fd)

-- The link is there and is the file.
abbrev pub is_link : (target : Text) → Option Text → Bool
is_link target none = false
is_link target (some link) = text_eq target link

-- A name in a directory has at most 255 bytes, and the text of a link is shorter than `PATH_MAX`.
abbrev pub AllShort : List Text → Type 0
AllShort [] = Unit
AllShort (name ∷ names) = (length name ≤ 255) × AllShort names

abbrev pub LinksShort : (readlink : Text → Option Text) → Type 0
LinksShort readlink = (path link : Text) → readlink path ≡ some link → length link < 4096

fd_path-link :
    (name : Text) (fd : ℕ) → length name ≤ 255 → fd_path name ++ dtoa (pos fd) ≡ link_path name fd
unfolding link_path
fd_path-link name fd h =
    let tail = b'/' ∷ b'f' ∷ b'd' ∷ b'/' ∷ [] in
    let whole = b'/' ∷ b'p' ∷ b'r' ∷ b'o' ∷ b'c' ∷ b'/' ∷ name ++ tail in
    let fits : length whole ≤ 4095 = omega (arith, length-append name tail) in
    ap₂ (λ a b. a ++ b) (take_all 4095 whole fits) (dtoa-print (pos fd))

is_target-link :
    (target : Text) (answer : Option Text)
    → ((link : Text) → answer ≡ some link → length link < 4096)
    → is_target target answer ≡ is_link target answer
is_target-link target none h = refl
is_target-link target (some link) h = rw (take_all 4095 link (omega (arith, h link refl))) refl

is_link→eq :
    (target : Text) (answer : Option Text) → is_link target answer ≡ true → answer ≡ some target
is_link→eq target none h = absurd (cc (h))
is_link→eq target (some link) h = rw (text_eq→eq target link h) refl

module _ (readlink : Text → Option Text) (target : Text) where
  -- The loop's own test for the descriptors below `n`.
  tried_below : (n : ℕ) (name : Text) → Bool
  tried_below zero name = false
  tried_below (suc n) name =
      tried_below n name || is_target target (readlink (fd_path name ++ dtoa (pos n)))

  -- A descriptor from `from` on, below `from + k`.
  opens_from : (k from : ℕ) (path : Text) → Bool
  opens_from zero from path = false
  opens_from (suc k) from path =
      is_target target (readlink (path ++ dtoa (pos from))) || opens_from k (from + 1) path

  fd_loop-opens :
      (k from : ℕ) (path : Text) → fd_loop readlink target k from path ≡ opens_from k from path
  unfolding fd_loop opens_from
  fd_loop-opens zero from path = refl
  fd_loop-opens (suc k) from path =
      let cut : take (length (path ++ dtoa (pos from)) - length (dtoa (pos from)))
            (path ++ dtoa (pos from))
          ≡ path =
        let e : length (path ++ dtoa (pos from)) - length (dtoa (pos from)) ≡ length path =
          omega (arith, length-append path (dtoa (pos from))) in
        rw e (take-append path (dtoa (pos from))) in
      rw cut (ground (arith, fd_loop-opens k (from + 1) path))

  opens_from-snoc :
      (k from : ℕ) (path : Text)
      → opens_from (suc k) from path
        ≡ (opens_from k from path || is_target target (readlink (path ++ dtoa (pos (from + k)))))
  unfolding opens_from
  opens_from-snoc zero from path = let e : from + 0 ≡ from = omega arith in rw e (ground arith)
  opens_from-snoc (suc k) from path =
      let e : from + 1 + k ≡ from + suc k = omega arith in
      ground (arith, rw e at (opens_from-snoc k (from + 1) path))

  opens_from-tried : (n : ℕ) (name : Text) → opens_from n 0 (fd_path name) ≡ tried_below n name
  unfolding tried_below
  opens_from-tried zero name = unfold opens_from in refl
  opens_from-tried (suc n) name =
      let e : 0 + n ≡ n = omega arith in
      rw e at (opens_from-snoc n 0 (fd_path name))
      ∙ ap (λ b. b || is_target target (readlink (fd_path name ++ dtoa (pos n))))
          (opens_from-tried n name)

  -- The link of one of the descriptors below `n` is the file.
  pub opens_below : (n : ℕ) (name : Text) → Bool
  opens_below zero name = false
  opens_below (suc n) name = opens_below n name || is_link target (readlink (link_path name n))

  tried-opens :
      LinksShort readlink
      → (n : ℕ) (name : Text) → length name ≤ 255
      → tried_below n name ≡ opens_below n name
  unfolding tried_below opens_below
  tried-opens short zero name h = refl
  tried-opens short (suc n) name h =
      rw
        (
          tried-opens short n name h,
          fd_path-link name n h,
          is_target-link target (readlink (link_path name n)) (short (link_path name n)),
        )
        refl

  opens_below-of :
      (n fd : ℕ) (name : Text)
      → fd < n
      → readlink (link_path name fd) ≡ some target
      → opens_below n name ≡ true
  unfolding opens_below
  opens_below-of zero fd name h e = absurd (omega arith)
  opens_below-of (suc n) fd name h e = elim (ℕ_discrete fd n) [
    | yes same ↦
        let found : is_link target (readlink (link_path name n)) ≡ true =
          rw (rw same at e) (text_eq_refl target) in
        ground arith
    | no other ↦ ground (arith, opens_below-of n fd name (omega arith) e)
  ]

  of-opens_below :
      (n : ℕ) (name : Text)
      → opens_below n name ≡ true
      → (fd : ℕ) × (fd < n) × (readlink (link_path name fd) ≡ some target)
  unfolding opens_below
  of-opens_below zero name h = absurd (cc)
  of-opens_below (suc n) name h = elim (Bool-cases (opens_below n name)) [
    | inl earlier ↦ let (fd, lt, e) = of-opens_below n name earlier in (fd, omega arith, e)
    | inr none_earlier ↦
        (n, omega arith, is_link→eq target (readlink (link_path name n)) (rw none_earlier at h))
  ]

  -- The names that are numbers and whose process has the file open.
  pub users : List Text → List Text
  users [] = []
  users (name ∷ names) =
      if is_decimal name && opens_below 16 name then name ∷ users names else users names

  proc_loop-eq :
      LinksShort readlink
      → (names : List Text) → AllShort names
      → proc_loop readlink target names ≡ users names
  unfolding proc_loop users
  proc_loop-eq short [] h = refl
  proc_loop-eq short (name ∷ names) (fits, h) =
      rw
        (
          proc_loop-eq short names h,
          isdigitstr-decimal name,
          fd_loop-opens 16 0 (fd_path name)
              ∙ opens_from-tried 16 name
              ∙ tried-opens short 16 name fits,
        )
        (ground arith)

  -- If the names of `/proc` have at most 255 bytes and the links are shorter than `PATH_MAX`, the
  -- program prints, in the order of `/proc`, exactly the entries that are numbers in decimal, with
  -- spaces and a sign in front if any (`is_decimal`), and that have a descriptor from 0 to 15 for which
  -- the link "/proc/<entry>/fd/<number in decimal>" is the file.
  pub proc_loop-users :
      LinksShort readlink
      → (names : List Text) → AllShort names
      → (proc_loop readlink target names ≡ users names)
        × ((name : Text)
            → (opens_below 16 name ≡ true)
              ↔ ((fd : ℕ) × (fd < 16) × (readlink (link_path name fd) ≡ some target)))
  proc_loop-users short names h = (
    proc_loop-eq short names h,
    λ name. (of-opens_below 16 name, λ (fd, lt, e). opens_below-of 16 fd name lt e),
  )
