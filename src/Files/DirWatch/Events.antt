-- ===== src/Files/DirWatch/Events.antt =====
-- dirwatch.c: the events that a read brings are shown one by one.
use operating_systems_theory.Common.{
  ℕ, if◌then◌else◌, ◌^◌, Bool, Bool-cases, List, [], ap, append_assoc, arith, drop, false, inl, inr,
  length, length-append, ltb, map, refl, some, suc, sym, true, zero, ◌%◌, ◌++◌, ◌+◌, ◌/◌, ◌<◌, ◌==◌,
  ◌||◌, ◌∙◌, ◌∷◌, ◌≡◌, drop-append, get_or-append,
}
use operating_systems_theory.Common.Text.{cut_at}
use operating_systems_theory.Files.DirWatch.{
  Event, has_bit, label, Label, in_create, in_delete, in_moved_from, in_moved_to, in_moved_self,
  Shown, c_string, labels, show_events, word,
}

-- A word as the kernel writes it, and an event: four words and the name.
abbrev pub le_bytes : ℕ → List ℕ → List ℕ
le_bytes n rest = n % 256 ∷ n / 256 % 256 ∷ n / 65536 % 256 ∷ n / 16777216 % 256 ∷ rest

abbrev pub header : Event → List ℕ
header e = le_bytes e.wd (le_bytes e.mask (le_bytes e.cookie (le_bytes (length e.name) [])))

unfoldable pub encode : List Event → List ℕ
encode [] = []
encode (e ∷ es) = header e ++ (e.name ++ encode es)

unfoldable pub has_zero : List ℕ → Bool
has_zero [] = false
has_zero (c ∷ cs) = (c == 0) || has_zero cs

-- The mask and the length fit in their words, and a zero byte ends the name.
abbrev pub IsEvent : Event → Type 0
IsEvent e = (e.mask < 4294967296) × (length e.name < 4294967296) × (has_zero e.name ≡ true)

abbrev pub AllEvents : List Event → Type 0
AllEvents [] = Unit
AllEvents (e ∷ es) = IsEvent e × AllEvents es

-- The words in the order in which they are printed, each with the number of the bit that it stands for
-- by `sys/inotify.h`; but bit 10, IN_DELETE_SELF, is printed as IN_CREATE, and IN_MOVED_SELF is printed
-- for bit 6, IN_MOVED_FROM.
abbrev word_table : List (ℕ × Label)
word_table =
    (8, in_create)
    ∷ (9, in_delete)
    ∷ (10, in_create)
    ∷ (6, in_moved_from)
    ∷ (7, in_moved_to)
    ∷ (6, in_moved_self)
    ∷ []

-- The words of a table whose bit is set.
unfoldable pub words : (table : List (ℕ × Label)) (mask : ℕ) → List Label
words [] mask = []
words ((bit, w) ∷ table) mask =
    let rest = words table mask in if mask / 2 ^ bit % 2 == 1 then w ∷ rest else rest

-- The same with the program's own tests.
labelled : (table : List (ℕ × Label)) (mask : ℕ) → List Label
labelled [] mask = []
labelled ((bit, w) ∷ table) mask = label (has_bit mask (2 ^ bit)) w (labelled table mask)

label-eq : (b : Bool) (w : Label) (ls : List Label) → label b w ls ≡ (if b then w ∷ ls else ls)
label-eq true w ls = refl
label-eq false w ls = refl

labelled-words : (table : List (ℕ × Label)) (mask : ℕ) → labelled table mask ≡ words table mask
unfolding labelled words
labelled-words [] mask = refl
labelled-words ((bit, w) ∷ table) mask =
    label-eq (has_bit mask (2 ^ bit)) w (labelled table mask) ∙ rw (labelled-words table mask) refl

labels-words : (mask : ℕ) → labels mask ≡ words word_table mask
unfolding labels labelled
labels-words mask =
    let same : labels mask ≡ labelled word_table mask = refl in
    same ∙ labelled-words word_table mask

c_string-cut_at : (bytes : List ℕ) → c_string bytes ≡ cut_at 0 bytes
unfolding c_string cut_at
c_string-cut_at [] = refl
c_string-cut_at (c ∷ bytes) = rw (c_string-cut_at bytes) refl

abbrev pub shown : Event → Shown
shown e = (cut_at 0 e.name, words word_table e.mask)

word-append : (pre xs : List ℕ) (i : ℕ) → word (pre ++ xs) (length pre + i) ≡ word xs i
unfolding word
word-append pre xs i =
    let one : length pre + i + 1 ≡ length pre + (i + 1) = omega arith in
    let two : length pre + i + 2 ≡ length pre + (i + 2) = omega arith in
    let three : length pre + i + 3 ≡ length pre + (i + 3) = omega arith in
    rw
      (
        one,
        two,
        three,
        get_or-append pre xs i 0,
        get_or-append pre xs (i + 1) 0,
        get_or-append pre xs (i + 2) 0,
        get_or-append pre xs (i + 3) 0,
      )
      refl

word-mask : (e : Event) (rest : List ℕ) → e.mask < 4294967296 → word (header e ++ rest) 4 ≡ e.mask
unfolding word
word-mask e rest h = omega arith

word-length :
    (e : Event) (rest : List ℕ)
    → length e.name < 4294967296
    → word (header e ++ rest) 12 ≡ length e.name
unfolding word
word-length e rest h = omega arith

c_string-append :
    (name rest : List ℕ) → has_zero name ≡ true → c_string (name ++ rest) ≡ c_string name
unfolding c_string has_zero
c_string-append [] rest h = absurd cc
c_string-append (c ∷ cs) rest h = elim (Bool-cases (c == 0)) [
  | inl zero_byte ↦ rw zero_byte refl
  | inr other ↦ rw other (ap (λ l. c ∷ l) (c_string-append cs rest (rw other at h)))
]

-- With `at` behind the events read so far, the loop shows the others.
show_events-from :
    (k : ℕ) (es : List Event) (buf pre : List ℕ) (at nread : ℕ)
    → buf ≡ pre ++ encode es
    → at ≡ length pre
    → nread ≡ length buf
    → length es < k
    → AllEvents es
    → show_events k buf at nread ≡ some (map shown es)
unfolding show_events encode
show_events-from zero es buf pre at nread split here whole fuel all = absurd (omega arith)
show_events-from (suc k) [] buf pre at nread split here whole fuel all =
    let ends : ltb at nread ≡ false = ground (arith, ap length split, length-append pre []) in
    rw ends refl
show_events-from (suc k) (e ∷ es) buf pre at nread split here whole fuel (is_event, all) =
    let later = e.name ++ encode es in
    let longer : length (pre ++ (header e ++ later)) ≡ length pre + (16 + length later) =
      omega (arith, length-append pre (header e ++ later)) in
    let more : ltb at nread ≡ true = ground (arith, ap length split, longer) in
    let len : word buf (at + 12) ≡ length e.name =
      rw (split, here) (word-append pre (header e ++ later) 12 ∙ word-length e later is_event.1) in
    let mask : word buf (at + 4) ≡ e.mask =
      rw (split, here) (word-append pre (header e ++ later) 4 ∙ word-mask e later is_event.0) in
    let name : c_string (drop (at + 16) buf) ≡ cut_at 0 e.name =
      rw (split, here, drop-append pre (header e ++ later) 16)
        (c_string-append e.name (encode es) is_event.2 ∙ c_string-cut_at e.name) in
    let rest =
      show_events-from k es buf (pre ++ (header e ++ e.name)) (at + 16 + length e.name) nread
        (split
          ∙ ap (λ l. pre ++ l) (sym (append_assoc (header e) e.name (encode es)))
          ∙ sym (append_assoc pre (header e ++ e.name) (encode es)))
        (omega (arith, here, length-append pre (header e ++ e.name))) whole (omega arith) all in
    rw (more, len, mask, name, labels-words e.mask, rest) refl

-- A buffer of whole events whose names end in a zero byte is shown event by event, in order, each with
-- its name and the words whose bits are set in its mask; the loop ends behind the last one. The bits
-- are those of the words by `sys/inotify.h`, but IN_DELETE_SELF shows IN_CREATE, and IN_MOVED_FROM
-- shows IN_MOVED_SELF as well.
pub show_events-encode :
    (es : List Event)
    → AllEvents es
    → show_events (length es + 1) (encode es) 0 (length (encode es)) ≡ some (map shown es)
show_events-encode es all =
    show_events-from (length es + 1) es (encode es) [] 0 (length (encode es)) refl refl refl
      (omega arith) all
