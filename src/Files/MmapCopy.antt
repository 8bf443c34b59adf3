-- ===== src/Files/MmapCopy.antt =====
-- linux-api-kerrisk/mmaps/cp.c: a file copied through two mappings. Which calls fail is given; `mmap` of
-- an empty file always does.
use operating_systems_theory.Common.{
  ℕ, Bool, Bool-cases, List, [], ap, arith, drop, get_or, if◌then◌else◌, inl, inr, length, refl,
  suc, take, zero, ◌&&◌, ◌++◌, ◌∷◌, ◌≡◌, ◌==◌, take_all, append-nil, ltb,
}
use operating_systems_theory.Common.Text.{Text}
mod Examples

pub data Call : Type 0 where
  open_src : Call
  open_dst : Call
  fstat_src : Call
  mmap_src : Call
  close_src : Call
  ftruncate_dst : Call
  mmap_dst : Call
  close_dst : Call
  msync_dst : Call
  munmap_src : Call
  munmap_dst : Call

pub data Ended : Type 0 where
  usage : Ended
  failed : (call : Call) → Ended
  success : Ended

-- How the program ends, what is in the destination then, and the first bytes of the destination's
-- mapping that it printed.
pub record Outcome : Type 0 where
  pub ended : Ended
  pub dst : Text
  pub printed : List Text

abbrev stop : Ended → (dst : Text) → (printed : List Text) → Outcome
stop ended dst printed = record { ended = ended; dst = dst; printed = printed }

-- `if (call == -1) { perror; exit(EXIT_FAILURE); }`
check : (ok : Call → Bool) (call : Call) (dst : Text) (printed : List Text) → Outcome → Outcome
check ok call dst printed next = if ok call then next else stop (failed call) dst printed

-- `ftruncate`: bytes are cut off or zero bytes are added.
unfoldable pub ftruncate : (size : ℕ) → Text → Text
ftruncate zero dst = []
ftruncate (suc n) [] = 0 ∷ ftruncate n []
ftruncate (suc n) (c ∷ dst) = c ∷ ftruncate n dst

-- `memcpy`, where the destination is at least as long as what is copied.
abbrev memcpy : (to from : Text) (n : ℕ) → Text
memcpy to from n = take n from ++ drop n to

-- The three bytes printed; a page is zero behind the end of the file.
abbrev first_bytes : Text → Text
first_bytes daddr = get_or daddr 0 0 ∷ get_or daddr 1 0 ∷ get_or daddr 2 0 ∷ []

-- Behind the copy.
finish : (ok : Call → Bool) (dst : Text) (printed : List Text) → Outcome
unfolding check
finish ok dst printed =
    check ok msync_dst dst printed
      (check ok munmap_src dst printed (check ok munmap_dst dst printed (stop success dst printed)))

-- From `ftruncate` on, with the source mapped at `saddr`.
copy_mapped : (ok : Call → Bool) (saddr dst : Text) → Outcome
unfolding check finish ftruncate
copy_mapped ok saddr dst =
    let daddr = ftruncate (length saddr) dst in
    let copied = memcpy daddr saddr (length saddr) in
    check ok ftruncate_dst dst [] (
      check ok mmap_dst daddr [] (
        check ok close_dst daddr []
          (finish ok copied (first_bytes daddr ∷ first_bytes copied ∷ []))))

-- Which calls fail, once the empty source is among them.
abbrev maps : (ok : Call → Bool) (src : Text) → Call → Bool
maps ok src mmap_src = ok mmap_src && ltb 0 (length src)
maps ok src call = ok call

unfoldable pub main : (argc : ℕ) (ok : Call → Bool) (src dst : Text) → Outcome
unfolding check copy_mapped
main argc ok src dst =
    if argc == 3
    then check (maps ok src) open_src dst [] (
        check (maps ok src) open_dst dst [] (
          check (maps ok src) fstat_src dst [] (
            check (maps ok src) mmap_src dst []
              (check (maps ok src) close_src dst [] (copy_mapped (maps ok src) src dst)))))
    else stop usage dst []

-- What is in the destination, by how the program ends.
unfoldable pub contents : (src dst : Text) → Ended → Text
contents src dst usage = dst
contents src dst success = src
contents src dst (failed open_src) = dst
contents src dst (failed open_dst) = dst
contents src dst (failed fstat_src) = dst
contents src dst (failed mmap_src) = dst
contents src dst (failed close_src) = dst
contents src dst (failed ftruncate_dst) = dst
contents src dst (failed mmap_dst) = ftruncate (length src) dst
contents src dst (failed close_dst) = ftruncate (length src) dst
contents src dst (failed _) = src

-- The destination is what `contents` says.
abbrev HasContents : (src dst : Text) → Outcome → Type 0
HasContents src dst o = o.dst ≡ contents src dst o.ended

check-HasContents :
    (ok : Call → Bool) (call : Call) (now : Text) (printed : List Text) (next : Outcome)
    (src dst : Text)
    → now ≡ contents src dst (failed call)
    → HasContents src dst next
    → HasContents src dst (check ok call now printed next)
unfolding check
check-HasContents ok call now printed next src dst here later = elim (Bool-cases (ok call)) [
  | inl good ↦ rw good later
  | inr bad ↦ rw bad here
]

length-ftruncate : (n : ℕ) (dst : Text) → length (ftruncate n dst) ≡ n
unfolding ftruncate
length-ftruncate zero dst = refl
length-ftruncate (suc n) [] = ap suc (length-ftruncate n [])
length-ftruncate (suc n) (c ∷ dst) = ap suc (length-ftruncate n dst)

drop-ftruncate : (n : ℕ) (dst : Text) → drop n (ftruncate n dst) ≡ []
unfolding ftruncate
drop-ftruncate zero dst = refl
drop-ftruncate (suc n) [] = drop-ftruncate n []
drop-ftruncate (suc n) (c ∷ dst) = drop-ftruncate n dst

memcpy-all : (src dst : Text) → memcpy (ftruncate (length src) dst) src (length src) ≡ src
memcpy-all src dst =
    rw (take_all (length src) src (omega arith), drop-ftruncate (length src) dst) (append-nil src)

finish-HasContents :
    (ok : Call → Bool) (now src dst : Text) (printed : List Text)
    → now ≡ src
    → HasContents src dst (finish ok now printed)
unfolding finish contents
finish-HasContents ok now src dst printed e =
    check-HasContents ok msync_dst now printed _ src dst e (
      check-HasContents ok munmap_src now printed _ src dst e
        (check-HasContents ok munmap_dst now printed _ src dst e e))

copy_mapped-HasContents :
    (ok : Call → Bool) (src dst : Text) → HasContents src dst (copy_mapped ok src dst)
unfolding copy_mapped contents
copy_mapped-HasContents ok src dst = check-HasContents ok ftruncate_dst dst [] _ src dst refl (
    check-HasContents ok mmap_dst (ftruncate (length src) dst) [] _ src dst refl (
      check-HasContents ok close_dst (ftruncate (length src) dst) [] _ src dst refl
        (finish-HasContents ok _ src dst _ (memcpy-all src dst))))

-- Whichever calls fail: the destination is as it was if the program ends in front of `ftruncate` or
-- with a message on its use; it is its old bytes, cut or filled with zero bytes to the source's length,
-- if its mapping or its closing fails; and it is the source if the program succeeds, whatever the
-- destination held and however long it was, or fails later.
pub main-contents :
    (argc : ℕ) (ok : Call → Bool) (src dst : Text)
    → (main argc ok src dst).dst ≡ contents src dst (main argc ok src dst).ended
unfolding main contents
main-contents argc ok src dst = elim (Bool-cases (argc == 3)) [
  | inr other ↦ rw other refl
  | inl three ↦
      let good = maps ok src in
      let from_map = copy_mapped-HasContents good src dst in
      let from_close = check-HasContents good close_src dst [] _ src dst refl from_map in
      let from_mmap = check-HasContents good mmap_src dst [] _ src dst refl from_close in
      let from_fstat = check-HasContents good fstat_src dst [] _ src dst refl from_mmap in
      let from_open = check-HasContents good open_dst dst [] _ src dst refl from_fstat in
      rw three (check-HasContents good open_src dst [] _ src dst refl from_open)
]
