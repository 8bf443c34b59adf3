-- ===== src/Files/DirWatch.antt =====
-- linux-api-kerrisk/inotify/dirwatch.c: the directories that are watched, and the events that one read
-- of the inotify descriptor brings. A buffer is a list of bytes.
use operating_systems_theory.Common.{
  ℕ, Bool, List, Option, [], drop, false, get_or, if◌then◌else◌, ltb, none, some, suc, true, zero,
  ◌%◌, ◌*◌, ◌+◌, ◌/◌, ◌==◌, ◌∷◌,
}
use mathlib.Core.Option
pub mod Events
mod Examples

-- `struct inotify_event` with its name, which is padded with zero bytes to `len` of them.
pub record Event : Type 0 where
  pub wd : ℕ
  pub mask : ℕ
  pub cookie : ℕ
  pub name : List ℕ

-- The words that are printed.
pub data Label : Type 0 where
  in_create : Label
  in_delete : Label
  in_moved_from : Label
  in_moved_to : Label
  in_moved_self : Label

-- A 32-bit word in the buffer, its lowest byte first.
unfoldable pub word : List ℕ → (at : ℕ) → ℕ
word buf at =
    get_or buf at 0
    + 256 * get_or buf (at + 1) 0
    + 65536 * get_or buf (at + 2) 0
    + 16777216 * get_or buf (at + 3) 0

-- `event->mask & bit`
abbrev pub has_bit : (mask bit : ℕ) → Bool
has_bit mask bit = mask / bit % 2 == 1

abbrev pub label : Bool → Label → List Label → List Label
label true l ls = l ∷ ls
label false l ls = ls

-- `display_inotify_event`: the words printed for a mask. The bits are those of `sys/inotify.h`.
unfoldable pub labels : (mask : ℕ) → List Label
labels mask = label (has_bit mask 0x100) in_create (
    label (has_bit mask 0x200) in_delete (
      label (has_bit mask 0x400) in_create (
        label (has_bit mask 0x40) in_moved_from
          (label (has_bit mask 0x80) in_moved_to (label (has_bit mask 0x40) in_moved_self [])))))

-- `%s`: the bytes in front of the first zero byte.
unfoldable pub c_string : List ℕ → List ℕ
c_string [] = []
c_string (c ∷ cs) = if c == 0 then [] else c ∷ c_string cs

-- What is shown for one event: its name and the words.
abbrev pub Shown : Type 0
Shown = List ℕ × List Label

-- The loop over the buffer from `at` on; `none` where the fuel runs out.
unfoldable pub show_events : ℕ → (buf : List ℕ) (at nread : ℕ) → Option (List Shown)
unfolding word labels c_string
show_events zero buf at nread = none
show_events (suc k) buf at nread =
    let rest = show_events k buf (at + 16 + word buf (at + 12)) nread in
    if ltb at nread
    then Option.map (λ shown. (c_string (drop (at + 16) buf), labels (word buf (at + 4))) ∷ shown)
        rest
    else some []
