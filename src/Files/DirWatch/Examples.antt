-- ===== src/Files/DirWatch/Examples.antt =====
-- dirwatch.c: the file "a" is made and taken away.
use operating_systems_theory.Common.{ℕ, List, [], arith, length, map, refl, some, ◌+◌, ◌∷◌, ◌≡◌}
use operating_systems_theory.Common.Text.{cut_at}
use operating_systems_theory.Files.DirWatch.{Event, in_create, in_delete, labels, show_events}
use operating_systems_theory.Files.DirWatch.Events.{
  words, AllEvents, encode, has_zero, show_events-encode, shown,
}

abbrev event : (mask : ℕ) → Event
event mask = record { wd = 1; mask = mask; cookie = 0; name = b'a' ∷ 0 ∷ 0 ∷ 0 ∷ [] }

abbrev made_and_gone : List Event
made_and_gone = event 0x100 ∷ event 0x200 ∷ []

made_and_gone-AllEvents : AllEvents made_and_gone
unfolding has_zero
made_and_gone-AllEvents = ((omega arith, omega arith, refl), ((omega arith, omega arith, refl), tt))

show_events-encode_example :
    show_events (length made_and_gone + 1) (encode made_and_gone) 0 (length (encode made_and_gone))
    ≡ some (map shown made_and_gone)
show_events-encode_example = show_events-encode made_and_gone made_and_gone-AllEvents

shown_test :
    map shown made_and_gone ≡ (b'a' ∷ [], in_create ∷ []) ∷ (b'a' ∷ [], in_delete ∷ []) ∷ []
unfolding words cut_at
shown_test = refl

-- The label for a directory that is itself taken away is that for a file that is made.
labels_test : labels 0x400 ≡ labels 0x100
unfolding labels
labels_test = refl
