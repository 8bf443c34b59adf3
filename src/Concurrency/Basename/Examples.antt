-- ===== src/Concurrency/Basename/Examples.antt =====
-- pathmanip_threadsafe.c: "/a" in thread 1, then "b/" in thread 2.
use operating_systems_theory.Common.{
  [], arith, false, none, refl, some, take, true, ℕ_discrete, ◌++◌, ◌∷◌, ◌≡◌, ◌⊎◌,
}
use operating_systems_theory.Concurrency.Basename.{
  Text, State, System, my_basename, my_basename-cases, my_basename-other_thread, path_max,
  has_slash, own_buffer, fill, put_text, behind_slash,
}

abbrev no_buffers : State
no_buffers = record { specific = λ i. none; wrote_at = none }

abbrev all_succeed : System
all_succeed = record { once_succeeds = true; malloc_succeeds = true; set_succeeds = true }

my_basename-cases_example :
    (base : Text) × (has_slash base ≡ false)
    × ((my_basename all_succeed 1 (some (b'/' ∷ b'a' ∷ [])) no_buffers).0
        ≡ some (take path_max base))
    × ((b'/' ∷ b'a' ∷ [] ≡ base) ⊎ ((dir : Text) × (b'/' ∷ b'a' ∷ [] ≡ dir ++ b'/' ∷ base)))
my_basename-cases_example =
    my_basename-cases 1 b'/' (b'a' ∷ []) no_buffers all_succeed refl refl refl

my_basename_test :
    ((my_basename all_succeed 1 (some (b'/' ∷ b'a' ∷ [])) no_buffers).0 ≡ some (b'a' ∷ []))
    × ((my_basename all_succeed 1 (some (b'b' ∷ b'/' ∷ [])) no_buffers).0 ≡ some [])
unfolding my_basename own_buffer fill put_text behind_slash ℕ_discrete
my_basename_test = (refl, refl)

my_basename-other_thread_test :
    (my_basename all_succeed 2
        (some (b'b' ∷ b'/' ∷ []))
        (my_basename all_succeed 1 (some (b'/' ∷ b'a' ∷ [])) no_buffers).1).1.specific
      1
    ≡ some (b'a' ∷ [])
my_basename-other_thread_test =
    my_basename-other_thread all_succeed all_succeed 1 2 (some (b'/' ∷ b'a' ∷ []))
      (some (b'b' ∷ b'/' ∷ [])) no_buffers (b'a' ∷ []) (omega arith) my_basename_test.0
