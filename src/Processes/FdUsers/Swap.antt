-- ===== src/Processes/FdUsers/Swap.antt =====
-- userfsact.c: the loop that swaps from both ends turns a text round.
use operating_systems_theory.Common.{
  ℕ, [], ap, append_assoc, arith, false, get_or, get_or-append, inl, inr, length, length-append,
  ltb, refl, reverse, set, set-append, snoc-cases, suc, sym, true, zero, ◌++◌, ◌+◌, ◌-◌, ◌∙◌, ◌∷◌,
  ◌≡◌, ◌≤◌, reverse-append, reverse-cons,
}
use operating_systems_theory.Common.Text.{Text}
use operating_systems_theory.Processes.FdUsers.{swap_loop}

-- The two writes of a round, at the first and the last byte of a middle part.
swapped-eq :
    (pre : Text) (a : ℕ) (m : Text) (b : ℕ) (post : Text)
    → set
        (set
          (pre ++ (a ∷ (m ++ (b ∷ post))))
          (length pre)
          (get_or (pre ++ (a ∷ (m ++ (b ∷ post)))) (length pre + suc (length m)) 0))
        (length pre + suc (length m))
        (get_or (pre ++ (a ∷ (m ++ (b ∷ post)))) (length pre) 0)
      ≡ pre ++ (b ∷ (m ++ (a ∷ post)))
swapped-eq pre a m b post =
    let here : length pre + 0 ≡ length pre = omega arith in
    let first : get_or (pre ++ (a ∷ (m ++ (b ∷ post)))) (length pre) 0 ≡ a =
      rw here at (get_or-append pre (a ∷ (m ++ (b ∷ post))) 0 0) in
    let there : length m + 0 ≡ length m = omega arith in
    let last : get_or (pre ++ (a ∷ (m ++ (b ∷ post)))) (length pre + suc (length m)) 0 ≡ b =
      get_or-append pre (a ∷ (m ++ (b ∷ post))) (suc (length m)) 0
      ∙ rw there at (get_or-append m (b ∷ post) 0 0) in
    let written : set (pre ++ (a ∷ (m ++ (b ∷ post)))) (length pre) b
        ≡ pre ++ (b ∷ (m ++ (b ∷ post))) =
      rw here at (set-append pre (a ∷ (m ++ (b ∷ post))) 0 b) in
    rw (last, first, written)
      (set-append pre (b ∷ (m ++ (b ∷ post))) (suc (length m)) a
        ∙ ap (λ l. pre ++ (b ∷ l)) (rw there at (set-append m (b ∷ post) 0 a)))

-- The loop on a middle part turns that part round and leaves the rest.
pub swap_loop-reverse :
    (k : ℕ) (pre mid post : Text)
    → length mid ≤ k
    → swap_loop k (pre ++ (mid ++ post)) (length pre) (length pre + length mid - 1)
      ≡ pre ++ (reverse mid ++ post)
unfolding swap_loop
swap_loop-reverse zero pre [] post h = refl
swap_loop-reverse zero pre (a ∷ mid) post h = absurd (omega arith)
swap_loop-reverse (suc k) pre [] post h =
    let stop : ltb (length pre) (length pre + 0 - 1) ≡ false = ground arith in rw stop refl
swap_loop-reverse (suc k) pre (a ∷ mid) post h = elim (snoc-cases mid) [
  | inl alone ↦
      let stop : ltb (length pre) (length pre + 1 - 1) ≡ false = ground arith in
      rw (alone, stop) refl
  | inr (m, b, split) ↦
      let len : length (m ++ b ∷ []) ≡ length m + 1 = omega (arith, length-append m (b ∷ [])) in
      let fits : length m ≤ k = omega (arith, h, ap length split, len) in
      let last : length pre + suc (length m + 1) - 1 ≡ length pre + suc (length m) = omega arith in
      let go : ltb (length pre) (length pre + suc (length m)) ≡ true = ground arith in
      let next_l : length pre + 1 ≡ length (pre ++ b ∷ []) =
        omega (arith, length-append pre (b ∷ [])) in
      let next_r : length pre + suc (length m) - 1 ≡ length (pre ++ b ∷ []) + length m - 1 =
        omega (arith, length-append pre (b ∷ [])) in
      let whole : (m ++ b ∷ []) ++ post ≡ m ++ (b ∷ post) = append_assoc m (b ∷ []) post in
      let moved : pre ++ (b ∷ (m ++ (a ∷ post))) ≡ (pre ++ b ∷ []) ++ (m ++ (a ∷ post)) =
        sym (append_assoc pre (b ∷ []) (m ++ (a ∷ post))) in
      let back : reverse (a ∷ (m ++ b ∷ [])) ≡ b ∷ (reverse m ++ a ∷ []) =
        reverse-cons a (m ++ b ∷ []) ∙ ap (λ l. l ++ a ∷ []) (reverse-append m (b ∷ [])) in
      rw (split, len, last, go, whole, swapped-eq pre a m b post, moved, next_r, next_l)
        (swap_loop-reverse k (pre ++ b ∷ []) m (a ∷ post) fits
          ∙ append_assoc pre (b ∷ []) (reverse m ++ (a ∷ post))
          ∙ ap (λ l. pre ++ (b ∷ l)) (sym (append_assoc (reverse m) (a ∷ []) post))
          ∙ ap (λ l. pre ++ (l ++ post)) (sym back))
]
