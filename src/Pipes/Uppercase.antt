-- ===== src/Pipes/Uppercase.antt =====
-- linux-api-kerrisk/pipesFIFOs/to_uppercase.c: a child that turns what comes through a pipe to upper
-- case.
use mathlib.Core.List.{flatten, map-append}
use operating_systems_theory.Common.{
  ℕ, Bool, List, [], get_or, if◌then◌else◌, leb, length, map, refl, set, suc, zero, ◌&&◌, ◌++◌, ◌+◌,
  ◌-◌, ◌∷◌, ◌≡◌, ap, Bool-cases, append_assoc, ap₂, arith, inl, inr, length-append, sym, ◌∙◌,
}
pub mod Conversation
pub mod Phases
pub mod Turns
pub mod Results
mod Examples

abbrev is_lower : ℕ → Bool
is_lower c = leb 97 c && leb c 122

-- The body of the loop of `upper`.
upper_step : ℕ → List ℕ → List ℕ
upper_step i buf = if is_lower (get_or buf i 0) then set buf i (get_or buf i 0 - 32) else buf

-- The loop of `upper`, with `rounds` left from index `i` on.
upper_loop : (rounds i : ℕ) → List ℕ → List ℕ
upper_loop zero i buf = buf
upper_loop (suc n) i buf = upper_loop n (i + 1) (upper_step i buf)

pub upper : List ℕ → (siz : ℕ) → List ℕ
unfolding upper_loop upper_step
upper buf siz = upper_loop siz 0 buf

-- The loop of the child over what its `read`s return, to the end of the pipe: what it writes. Every
-- write takes all of its bytes.
pub child : List (List ℕ) → List ℕ
unfolding upper
child [] = []
child (chunk ∷ chunks) = upper chunk (length chunk) ++ child chunks

pub to_upper : ℕ → ℕ
to_upper c = if is_lower c then c - 32 else c

get_or-middle : (pre : List ℕ) (c : ℕ) (post : List ℕ) → get_or (pre ++ c ∷ post) (length pre) 0 ≡ c
get_or-middle [] c post = refl
get_or-middle (x ∷ pre) c post = get_or-middle pre c post

set-middle :
    (pre : List ℕ) (c v : ℕ) (post : List ℕ)
    → set (pre ++ c ∷ post) (length pre) v ≡ (pre ++ v ∷ []) ++ post
set-middle [] c v post = refl
set-middle (x ∷ pre) c v post = ap (λ l. x ∷ l) (set-middle pre c v post)

-- One round puts the upper-case byte in its place.
step-eq :
    (pre : List ℕ) (c : ℕ) (post : List ℕ)
    → upper_step (length pre) (pre ++ c ∷ post) ≡ (pre ++ to_upper c ∷ []) ++ post
unfolding upper_step to_upper
step-eq pre c post = rw (get_or-middle pre c post) (elim (Bool-cases (is_lower c)) [
  | inl low ↦ rw low (set-middle pre c (c - 32) post)
  | inr other ↦ rw other (sym (append_assoc pre (c ∷ []) post))
])

upper_loop-append :
    (pre post : List ℕ)
    → upper_loop (length post) (length pre) (pre ++ post) ≡ pre ++ map to_upper post
unfolding upper_loop
upper_loop-append pre [] = refl
upper_loop-append pre (c ∷ post) =
    let longer : length pre + 1 ≡ length (pre ++ to_upper c ∷ []) =
      omega (arith, length-append pre (to_upper c ∷ [])) in
    ap₂ (upper_loop (length post)) longer (step-eq pre c post)
    ∙ upper_loop-append (pre ++ to_upper c ∷ []) post
    ∙ append_assoc pre (to_upper c ∷ []) (map to_upper post)

pub upper-map : (chunk : List ℕ) → upper chunk (length chunk) ≡ map to_upper chunk
unfolding upper
upper-map chunk = upper_loop-append [] chunk

-- However the bytes are split over the reads, the child writes every byte of its input in order, a
-- lower-case letter as its upper-case letter and any other byte as it is.
pub child-map : (chunks : List (List ℕ)) → child chunks ≡ map to_upper (flatten chunks)
unfolding child upper flatten
child-map [] = refl
child-map (chunk ∷ chunks) =
    ap₂ ◌++◌ (upper_loop-append [] chunk) (child-map chunks)
    ∙ sym (map-append to_upper chunk (flatten chunks))
