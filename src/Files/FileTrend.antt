-- ===== src/Files/FileTrend.antt =====
-- linux-api-kerrisk/dirsrefs/filetrend.c: the files below a directory counted by type.
use operating_systems_theory.Common.{
  ℕ, Bool, List, Option, [], arith, if◌then◌else◌, length, none, some, ◌%◌, ◌&&◌, ◌*◌, ◌+◌, ◌/◌,
  ◌<◌, ◌==◌, ◌||◌, ◌∷◌, ◌≡◌, ◌⊎◌, refl,
}
mod Examples

-- The counters of the file.
pub record Stats : Type 0 where
  pub regulars : ℕ
  pub dirs : ℕ
  pub chardevs : ℕ
  pub blokdevs : ℕ
  pub fifodevs : ℕ
  pub sockets : ℕ
  pub symlinks : ℕ

abbrev pub no_files : Stats
no_files = record {
  regulars = 0;
  dirs = 0;
  chardevs = 0;
  blokdevs = 0;
  fifodevs = 0;
  sockets = 0;
  symlinks = 0;
}

-- The type field of a mode, in octal 0170000: the four bits from 4096 on.
abbrev pub s_ififo : ℕ
s_ififo = 0o010000

abbrev pub s_ifchr : ℕ
s_ifchr = 0o020000

abbrev pub s_ifdir : ℕ
s_ifdir = 0o040000

abbrev pub s_ifblk : ℕ
s_ifblk = 0o060000

abbrev pub s_ifreg : ℕ
s_ifreg = 0o100000

abbrev pub s_iflnk : ℕ
s_iflnk = 0o120000

abbrev pub s_ifsock : ℕ
s_ifsock = 0o140000

-- `mode & mask` as a truth value, for a mask within the type field: a bit of the two is common.
common_bit : ℕ → ℕ → ℕ → Bool
common_bit mode mask b = (mode / b % 2 == 1) && (mask / b % 2 == 1)

pub has_bits : (mode mask : ℕ) → Bool
unfolding common_bit
has_bits mode mask =
    common_bit mode mask 4096
    || (common_bit mode mask 8192 || (common_bit mode mask 16384 || common_bit mode mask 32768))

-- `incstats`
pub incstats : (mode : ℕ) → Stats → Stats
unfolding has_bits
incstats mode s =
    if has_bits mode s_ifreg
    then record s { regulars = s.regulars + 1 }
    else if has_bits mode s_ifdir
    then record s { dirs = s.dirs + 1 }
    else if has_bits mode s_ifchr
    then record s { chardevs = s.chardevs + 1 }
    else if has_bits mode s_ifblk
    then record s { blokdevs = s.blokdevs + 1 }
    else if has_bits mode s_ififo
    then record s { fifodevs = s.fifodevs + 1 }
    else if has_bits mode s_ifsock
    then record s { sockets = s.sockets + 1 }
    else if has_bits mode s_iflnk
    then record s { symlinks = s.symlinks + 1 }
    else s

-- The walk of `nftw`, which calls `incstats` on every file.
pub walk : List ℕ → Stats → Stats
walk [] s = s
walk (mode ∷ modes) s = walk modes (incstats mode s)

-- The sum of `echostatsmsgs`.
pub all_files : Stats → ℕ
all_files s = s.regulars + s.dirs + s.chardevs + s.blokdevs + s.fifodevs + s.sockets + s.symlinks

-- The integer part of a percentage that is printed; nothing is printed for no files.
pub percent : ℕ → Stats → Option ℕ
unfolding all_files
percent n s = if all_files s == 0 then none else some (n * 100 / all_files s)

-- A mode with one of the seven types, and any permission bits below the type field.
abbrev pub HasType : ℕ → ℕ → Type 0
HasType type mode = (mode / 4096 ≡ type / 4096) × (mode < 65536)

-- A mode whose type field is not empty.
abbrev pub IsTyped : ℕ → Type 0
IsTyped mode = (0 < mode / 4096) × (mode < 65536)

abbrev pub AllTyped : List ℕ → Type 0
AllTyped [] = Unit
AllTyped (mode ∷ modes) = IsTyped mode × AllTyped modes

nibble-cases :
    (x : ℕ) → 0 < x → x < 16 → (x % 2 ≡ 1) ⊎ ((x / 2 % 2 ≡ 1) ⊎ ((x / 4 % 2 ≡ 1) ⊎ (x / 8 % 2 ≡ 1)))
nibble-cases x h k = ground arith

typed-bits :
    (mode : ℕ)
    → IsTyped mode
    → (mode / 4096 % 2 ≡ 1)
      ⊎ ((mode / 8192 % 2 ≡ 1) ⊎ ((mode / 16384 % 2 ≡ 1) ⊎ (mode / 32768 % 2 ≡ 1)))
typed-bits mode h = ground (arith, nibble-cases (mode / 4096))

-- Every file with a type is counted exactly once.
incstats-all : (mode : ℕ) (s : Stats) → IsTyped mode → all_files (incstats mode s) ≡ all_files s + 1
unfolding incstats all_files
incstats-all mode s h = ground (arith, typed-bits mode h)

walk-count :
    (modes : List ℕ) (s : Stats)
    → AllTyped modes
    → all_files (walk modes s) ≡ all_files s + length modes
unfolding walk
walk-count [] s h = omega arith
walk-count (mode ∷ modes) s h =
    omega (arith, walk-count modes (incstats mode s) h.1, incstats-all mode s h.0)

-- If every file visited has a type, the seven counters add up to the number of files.
pub walk-all : (modes : List ℕ) → AllTyped modes → all_files (walk modes no_files) ≡ length modes
unfolding all_files
walk-all modes h = omega (arith, walk-count modes no_files h)

-- A mode of one of the seven types.
abbrev pub IsFile : ℕ → Type 0
IsFile mode =
    HasType s_ififo mode
    ⊎ (HasType s_ifchr mode
        ⊎ (HasType s_ifdir mode
            ⊎ (HasType s_ifblk mode
                ⊎ (HasType s_ifreg mode ⊎ (HasType s_iflnk mode ⊎ HasType s_ifsock mode)))))

abbrev pub AllFiles : List ℕ → Type 0
AllFiles [] = Unit
AllFiles (mode ∷ modes) = IsFile mode × AllFiles modes

-- The types share bits, so a socket or a symbolic link counts as a regular file, and a block device
-- as a directory.
incstats-confused :
    (mode : ℕ) (s : Stats)
    → IsFile mode
    → ((incstats mode s).blokdevs ≡ s.blokdevs)
      × ((incstats mode s).sockets ≡ s.sockets)
      × ((incstats mode s).symlinks ≡ s.symlinks)
unfolding incstats
incstats-confused mode s h = ground arith

walk-confused_from :
    (modes : List ℕ) (s : Stats)
    → AllFiles modes
    → ((walk modes s).blokdevs ≡ s.blokdevs)
      × ((walk modes s).sockets ≡ s.sockets)
      × ((walk modes s).symlinks ≡ s.symlinks)
unfolding walk
walk-confused_from [] s h = (refl, refl, refl)
walk-confused_from (mode ∷ modes) s h =
    ground (arith, incstats-confused mode s, walk-confused_from modes (incstats mode s))

-- Whatever files are visited, of the seven types that there are, the counters of block devices, sockets
-- and symbolic links stay at 0.
pub walk-confused :
    (modes : List ℕ)
    → AllFiles modes
    → ((walk modes no_files).blokdevs ≡ 0)
      × ((walk modes no_files).sockets ≡ 0)
      × ((walk modes no_files).symlinks ≡ 0)
walk-confused modes h = walk-confused_from modes no_files h
