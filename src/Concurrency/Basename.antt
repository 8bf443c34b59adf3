-- ===== src/Concurrency/Basename.antt =====
-- linux-api-kerrisk/POSIXthreads-thrdsf-lclstrg/pathmanip_threadsafe.c: `my_basename`, whose result
-- stands in a buffer of the calling thread. Texts are lists of bytes, without the zero at the end.
use operating_systems_theory.Common.{
  ℕ, ==→eq, Bool, Bool-cases, List, Option, [], ap, false, if◌then◌else◌, inl, inr, none, not, refl,
  some, take, true, ◌++◌, ◌==◌, ◌||◌, ◌∷◌, ◌≡◌, ◌≢◌, ◌⊎◌, arith, ◌∙◌,
}
use operating_systems_theory.Common.Family.{update}
mod Examples

abbrev pub Text : Type 0
Text = List ℕ

-- `PATH_MAX`, and the buffer of each thread: none before its first call, then the text in it.
-- `wrote_at` is the index of the last byte written behind the text by `buf[PATH_MAX] = '\0'`, if that
-- has happened.
abbrev pub path_max : ℕ
path_max = 4096

pub record State : Type 0 where
  pub specific : ℕ → Option Text
  pub wrote_at : Option ℕ

-- What the thread functions and `malloc` answer.
pub record System : Type 0 where
  pub once_succeeds : Bool
  pub malloc_succeeds : Bool
  pub set_succeeds : Bool

-- `strrchr(path, '/')`: what stands behind the last slash, if there is one.
unfoldable pub behind_slash : Text → Option Text
behind_slash [] = none
behind_slash (c ∷ cs) = elim (behind_slash cs) [
  | some t ↦ some t
  | none ↦ if c == b'/' then some cs else none
]

-- `strncpy(buf, t, PATH_MAX)`, of which at most `PATH_MAX` bytes are kept.
abbrev copied : Text → Text
copied t = take path_max t

put_text : (thread : ℕ) → Text → State → State
put_text thread t s = record s { specific = update s.specific thread (some t) }

-- What stands behind the last slash, or the whole path.
abbrev or_whole : Text → Option Text → Text
or_whole path none = path
or_whole path (some t) = t

-- What `my_basename` does with the buffer. The loop that takes slashes off the end moves a pointer
-- that nothing reads afterwards. A path is NULL or a text.
fill : (thread : ℕ) → Option Text → State → State
unfolding put_text behind_slash
fill thread none s = put_text thread (b'.' ∷ []) s
fill thread (some []) s = put_text thread (b'.' ∷ []) s
fill thread (some (c ∷ cs)) s =
    record (put_text thread (copied (or_whole (c ∷ cs) (behind_slash (c ∷ cs)))) s) {
      wrote_at = some path_max;
    }

-- The buffer of the calling thread, made on its first call; `none` where a call fails.
own_buffer : System → (thread : ℕ) → State → Option State
unfolding put_text
own_buffer sys thread s = if not sys.once_succeeds then none else elim (s.specific thread) [
  | some t ↦ some s
  | none ↦
      if not sys.malloc_succeeds
      then none
      else if not sys.set_succeeds
      then none
      else some (put_text thread [] s)
]

-- `my_basename`: what the pointer that it returns points at, and the state afterwards.
pub my_basename : System → (thread : ℕ) → (path : Option Text) → State → Option Text × State
unfolding own_buffer fill
my_basename sys thread path s = elim (own_buffer sys thread s) [
  | none ↦ (none, s)
  | some s' ↦ ((fill thread path s').specific thread, fill thread path s')
]

unfoldable pub has_slash : Text → Bool
has_slash [] = false
has_slash (c ∷ cs) = (c == b'/') || has_slash cs

behind_slash-cases :
    (t : Text)
    → ((behind_slash t ≡ none) × (has_slash t ≡ false))
      ⊎ ((dir : Text) × (base : Text) × (behind_slash t ≡ some base)
          × (t ≡ dir ++ b'/' ∷ base)
          × (has_slash base ≡ false))
unfolding behind_slash has_slash
behind_slash-cases [] = inl (refl, refl)
behind_slash-cases (c ∷ cs) = elim (behind_slash-cases cs) [
  | inr (dir, base, e, split, plain) ↦ inr (c ∷ dir, base, rw e refl, ap (λ l. c ∷ l) split, plain)
  | inl (e, plain) ↦ elim (Bool-cases (c == b'/')) [
    | inl slash ↦ inr ([], cs, rw (e, slash) refl, ap (λ x. x ∷ cs) (==→eq c b'/' slash), plain)
    | inr other ↦ inl (rw (e, other) refl, rw (other, plain) refl)
  ]
]

my_basename-result :
    (thread c : ℕ) (cs : Text) (s : State) (sys : System)
    → sys.once_succeeds ≡ true
    → sys.malloc_succeeds ≡ true
    → sys.set_succeeds ≡ true
    → (my_basename sys thread (some (c ∷ cs)) s).0
      ≡ some (copied (or_whole (c ∷ cs) (behind_slash (c ∷ cs))))
unfolding my_basename
my_basename-result thread c cs s sys a b d = ground arith

-- A call that succeeds on a path that is not empty returns the whole path if it has no slash, and
-- otherwise what stands behind its last slash, each cut to 4096 bytes.
pub my_basename-cases :
    (thread c : ℕ) (cs : Text) (s : State)
    → (sys : System) → sys.once_succeeds ≡ true
    → sys.malloc_succeeds ≡ true
    → sys.set_succeeds ≡ true
    → (base : Text) × (has_slash base ≡ false)
      × ((my_basename sys thread (some (c ∷ cs)) s).0 ≡ some (take path_max base))
      × ((c ∷ cs ≡ base) ⊎ ((dir : Text) × (c ∷ cs ≡ dir ++ b'/' ∷ base)))
my_basename-cases thread c cs s sys a b d = elim (behind_slash-cases (c ∷ cs)) [
  | inl (e, plain) ↦ (
    c ∷ cs,
    plain,
    my_basename-result thread c cs s sys a b d ∙ ap (λ o. some (copied (or_whole (c ∷ cs) o))) e,
    inl refl,
  )
  | inr (dir, base, e, split, plain) ↦ (
    base,
    plain,
    my_basename-result thread c cs s sys a b d ∙ ap (λ o. some (copied (or_whole (c ∷ cs) o))) e,
    inr (dir, split),
  )
]

-- The buffers of different threads are apart: whatever a call of one thread does, what an earlier call
-- of another thread returned stays in its buffer.
pub my_basename-other_thread :
    (sys sys' : System) (thread other : ℕ) (path path' : Option Text) (s : State) (base : Text)
    → thread ≢ other
    → (my_basename sys thread path s).0 ≡ some base
    → (my_basename sys' other path' (my_basename sys thread path s).1).1.specific thread ≡ some base
unfolding my_basename
my_basename-other_thread sys sys' thread other path path' s base ne e = ground arith
