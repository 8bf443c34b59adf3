-- ===== src/Memory/Environment/Forgetting.antt =====
-- envmanip.c: what a second `setenv` does to the first.
use operating_systems_theory.Common.{
  sym, length, ltb, arith, ◌<◌, Bool-cases, List, Option, [], false, inl, inr, none, refl, some,
  true, ◌++◌, ◌≡◌, ◌≢◌, ◌∷◌, ◌==◌, ==→eq, ==_refl, ℕ, Bool,
}
use operating_systems_theory.Common.Text.{Text, lacks}
use operating_systems_theory.Memory.Environment.{
  setenv, Entry, Env, find, getenv, has_own, is_some, own, put, shared, text_of, value_of,
  ebuf_size, filled,
}

value_of-filled : (name value : Text) → value_of name (name ++ b'=' ∷ value) ≡ some value
unfolding value_of
value_of-filled [] value = refl
value_of-filled (c ∷ name) value = rw (==_refl c, value_of-filled name value) refl

-- A buffer filled for another name has no value for the name, where neither name has a `=`.
value_of-other :
    (name other value : Text)
    → lacks b'=' name ≡ true
    → lacks b'=' other ≡ true
    → name ≢ other
    → value_of name (other ++ b'=' ∷ value) ≡ none
unfolding value_of lacks
value_of-other [] [] value h k ne = absurd (ne refl)
value_of-other [] (d ∷ other) value h k ne = elim (Bool-cases (d == b'=')) [
  | inl e ↦ absurd (cc (rw e at k))
  | inr e ↦ rw e refl
]
value_of-other (c ∷ name) [] value h k ne = elim (Bool-cases (c == b'=')) [
  | inl e ↦ absurd (cc (rw e at h))
  | inr e ↦ rw e refl
]
value_of-other (c ∷ name) (d ∷ other) value h k ne = elim (Bool-cases (c == d)) [
  | inr e ↦ rw e refl
  | inl e ↦ rw e (
      value_of-other name other value (tail_lacks c name h) (tail_lacks d other k)
        (λ same. ne (cc (==→eq c d e, same))))
]
  where
    tail_lacks : (c : ℕ) (s : Text) → lacks b'=' (c ∷ s) ≡ true → lacks b'=' s ≡ true
    tail_lacks c s h = elim (Bool-cases (c == b'=')) [
      | inl e ↦ absurd (cc (rw e at h))
      | inr e ↦ rw e at h
    ]

not_some : (o : Option Text) → is_some o ≡ false → o ≡ none
not_some none h = refl
not_some (some v) h = absurd (cc (h))

find-put :
    (name value : Text) (entries : List Entry)
    → find (name ++ b'=' ∷ value) (put (name ++ b'=' ∷ value) name entries) name ≡ some value
unfolding find put
find-put name value [] = rw (value_of-filled name value) refl
find-put name value (entry ∷ entries) =
    elim (Bool-cases (is_some (value_of name (text_of (name ++ b'=' ∷ value) entry)))) [
      | inl e ↦ rw (e, find, value_of-filled name value) refl
      | inr e ↦
          rw (e, find, not_some (value_of name (text_of (name ++ b'=' ∷ value) entry)) e)
            (find-put name value entries)
    ]

-- A name that is neither in the buffer nor in a string of its own is not found.
find-absent :
    (ebuf name : Text) (entries : List Entry)
    → has_own name entries ≡ false
    → value_of name ebuf ≡ none
    → find ebuf entries name ≡ none
unfolding find has_own
find-absent ebuf name [] h e = refl
find-absent ebuf name (shared ∷ entries) h e = rw e (find-absent ebuf name entries h e)
find-absent ebuf name (own s ∷ entries) h e = elim (Bool-cases (is_some (value_of name s))) [
  | inl f ↦ absurd (cc (rw f at h))
  | inr f ↦ rw (not_some (value_of name s) f) (find-absent ebuf name entries (rw f at h) e)
]

has_own-put :
    (ebuf name other : Text) (entries : List Entry)
    → has_own name entries ≡ false
    → has_own name (put ebuf other entries) ≡ false
unfolding has_own put
has_own-put ebuf name other [] h = refl
has_own-put ebuf name other (shared ∷ entries) h =
    elim (Bool-cases (is_some (value_of other ebuf))) [
      | inl e ↦ rw (e, has_own) h
      | inr e ↦ rw (e, has_own) (has_own-put ebuf name other entries h)
    ]
has_own-put ebuf name other (own s ∷ entries) h = elim (Bool-cases (is_some (value_of name s))) [
  | inl f ↦ absurd (cc (rw f at h))
  | inr f ↦ elim (Bool-cases (is_some (value_of other s))) [
    | inl e ↦ rw (e, has_own) (rw f at h)
    | inr e ↦ rw (e, has_own, f) (has_own-put ebuf name other entries (rw f at h))
  ]
]

abbrev after : (name value : Text) → Env → Env
after name value env = record {
  entries = put (filled name value) name env.entries;
  ebuf = filled name value;
}

-- A name that is not found is set, whatever `overwrite` says.
setenv-new :
    (name value : Text) (overwrite : Bool) (env : Env)
    → getenv env name ≡ none
    → length (filled name value) < ebuf_size
    → setenv name value overwrite env ≡ some (after name value env)
unfolding setenv
setenv-new name value overwrite env absent room =
    let fits : ltb (length (filled name value)) ebuf_size ≡ true = ground (arith, room) in
    rw (absent, fits) refl

-- Two names that the environment does not have are set one after the other, under either value of
-- `overwrite`: the first has its value until the second is set; then the second has its value, and the
-- first is gone from the environment, since both are the one buffer. The names are different and have no
-- `=`, each fits into the buffer of 1024 bytes with its value, the `=` and the zero byte, and neither is
-- in a string that the environment has besides the buffer, nor in the buffer at first.
pub setenv-forgets :
    (first value second value' : Text) (overwrite overwrite' : Bool) (env : Env)
    → lacks b'=' first ≡ true
    → lacks b'=' second ≡ true
    → first ≢ second
    → has_own first env.entries ≡ false
    → has_own second env.entries ≡ false
    → value_of first env.ebuf ≡ none
    → length (filled first value) < ebuf_size
    → length (filled second value') < ebuf_size
    → (env₁ : Env) × (env₂ : Env) × (setenv first value overwrite env ≡ some env₁)
      × (setenv second value' overwrite' env₁ ≡ some env₂)
      × (getenv env₁ first ≡ some value)
      × (getenv env₂ second ≡ some value')
      × (getenv env₂ first ≡ none)
setenv-forgets first value second value' overwrite overwrite' env h k ne no_first no_second fresh
      room room' =
    let env₁ = after first value env in
    let own_first = has_own-put (filled first value) first first env.entries no_first in
    let own_second = has_own-put (filled first value) second first env.entries no_second in
    (
      env₁,
      after second value' env₁,
      setenv-new first value overwrite env (find-absent env.ebuf first env.entries no_first fresh)
          room,
      setenv-new second value' overwrite' env₁
          (find-absent (filled first value) second env₁.entries own_second
            (value_of-other second first value k h (λ e. ne (sym e))))
          room',
      find-put first value env.entries,
      find-put second value' env₁.entries,
      find-absent (filled second value') first (put (filled second value') second env₁.entries)
          (has_own-put (filled second value') first second env₁.entries own_first)
          (value_of-other first second value' h k ne),
    )
