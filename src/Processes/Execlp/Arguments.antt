-- ===== src/Processes/Execlp/Arguments.antt =====
-- execlp.c: the argument vector is the arguments behind the name, with a null pointer at the end.
use operating_systems_theory.Common.{
  ℕ, List, [], ap, append_assoc, ap₂, arith, length, length-append, map, refl, replicate, set, suc,
  zero, ◌++◌, ◌+◌, ◌∙◌, ◌∷◌, ◌≡◌, append-nil, sym, ◌-◌,
}
use operating_systems_theory.Processes.Execlp.{
  Slot, Text, arg, build_argv, count_args, next_arg, null, store_args, unset,
}

count_args-length : (args : List Text) (argc : ℕ) → count_args args argc ≡ argc + length args
unfolding count_args
count_args-length [] argc = omega arith
count_args-length (a ∷ args) argc = omega (arith, count_args-length args (argc + 1))

set-append :
    (pre : List Slot) (x y : Slot) (post : List Slot)
    → set (pre ++ x ∷ post) (length pre) y ≡ (pre ++ y ∷ []) ++ post
set-append [] x y post = refl
set-append (z ∷ pre) x y post = ap (λ l. z ∷ l) (set-append pre x y post)

-- The loop fills the places in order.
store_args-append :
    (args : List Text) (pre post : List Slot)
    → store_args (length args) (length pre) args (pre ++ (replicate (length args) unset ++ post))
      ≡ pre ++ (map arg args ++ post)
unfolding store_args next_arg
store_args-append [] pre post = refl
store_args-append (a ∷ args) pre post =
    let longer : length pre + 1 ≡ length (pre ++ arg a ∷ []) =
      omega (arith, length-append pre (arg a ∷ [])) in
    ap₂ (λ i l. store_args (length args) i args l) longer
      (set-append pre unset (arg a) (replicate (length args) unset ++ post))
    ∙ store_args-append args (pre ++ arg a ∷ []) post
    ∙ append_assoc pre (arg a ∷ []) (map arg args ++ post)

replicate-last : (n : ℕ) → replicate (suc n) unset ≡ replicate n unset ++ unset ∷ []
replicate-last zero = refl
replicate-last (suc n) = ap (λ l. unset ∷ l) (replicate-last n)

length-map_arg : (args : List Text) → length (map arg args) ≡ length args
length-map_arg [] = refl
length-map_arg (a ∷ args) = ap suc (length-map_arg args)

-- The loop and the null pointer behind it, on a block whose first place is set.
filled :
    (pathname : Text) (args : List Text)
    → set
        (store_args (length args) 1 args (arg pathname ∷ replicate (suc (length args)) unset))
        (suc (length args))
        null
      ≡ arg pathname ∷ map arg args ++ null ∷ []
filled pathname args =
    ap (λ l. set l (suc (length args)) null)
      (ap (λ l. store_args (length args) 1 args (arg pathname ∷ l)) (replicate-last (length args))
        ∙ store_args-append args (arg pathname ∷ []) (unset ∷ []))
    ∙ ap (λ n. set (arg pathname ∷ map arg args ++ unset ∷ []) (suc n) null)
        (sym (length-map_arg args))
    ∙ set-append (arg pathname ∷ map arg args) unset null []
    ∙ append-nil (arg pathname ∷ map arg args ++ null ∷ [])

-- The vector that `_execlp` passes on has the name, the arguments in order and one null pointer, and
-- every place of the block is set.
pub build_argv-args :
    (pathname : Text) (args : List Text)
    → build_argv pathname args ≡ arg pathname ∷ map arg args ++ null ∷ []
unfolding build_argv
build_argv-args pathname args =
    let counted : count_args args 1 ≡ suc (length args) = omega (arith, count_args-length args 1) in
    let one_less : suc (length args) - 1 ≡ length args = omega arith in
    let places : suc (length args) + 1 ≡ suc (suc (length args)) = omega arith in
    rw (counted, one_less, places) (filled pathname args)
