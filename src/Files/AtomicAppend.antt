-- ===== src/Files/AtomicAppend.antt =====
-- linux-api-kerrisk/fileio/atomic_append.c: processes that append bytes to one file, each byte after
-- an `lseek` to the end, with `O_APPEND` or without.
use operating_systems_theory.Common.{
  ℕ, Bool, arith, false, if◌then◌else◌, ltb, not, refl, subst, suc, sym, true, zero, ℕ_discrete,
  ◌*◌, ◌+◌, ◌==◌, ◌≡◌,
}
use operating_systems_theory.Common.Family.{total, Shift, total-Shift, total-const}
use operating_systems_theory.Concurrency.Threads.{Reach, Reach-keeps, next, start}
mod Examples

-- Where a process stands: `left` bytes to go, or sought to the offset `offset`.
pub data Pc : Type 0 where
  head : (left : ℕ) → Pc
  sought : (left offset : ℕ) → Pc

-- A step of one process, on the size of the file: every byte written is the same. With `O_APPEND` a
-- write goes to the end of the file, without it to the offset. The calls succeed.
pub data Move (append : Bool) (size : ℕ) : Pc → ℕ → Pc → Type 0 where
  lseek : {k : ℕ} → Move append size (head (suc k)) size (sought k size)
  write_end :
      {k offset : ℕ} → append ≡ true → Move append size (sought k offset) (size + 1) (head k)
  write_at :
      {k offset : ℕ}
      → append ≡ false
      → Move append size (sought k offset) (if ltb offset size then size else offset + 1) (head k)

-- `argc == 4` turns `O_APPEND` off.
pub append_flag : (argc : ℕ) → Bool
append_flag argc = not (argc == 4)

abbrev pub created : ℕ → ℕ → Pc
created bytes _ = head bytes

-- Bytes that a process still has to write.
abbrev pub unwritten : Pc → ℕ
unwritten (head left) = left
unwritten (sought left _) = suc left

Move-sum :
    {append : Bool} {size size' r r' : ℕ} {p p' : Pc}
    → append ≡ true
    → Move append size p size' p'
    → Shift unwritten p p' r r'
    → size' + r' ≡ size + r
Move-sum on lseek s = ground arith
Move-sum on (write_end e) s = ground arith
Move-sum on (write_at e) s = cc

-- With `O_APPEND` no byte is lost: however `n` processes of `bytes` bytes interleave, the size and the
-- bytes still to be written add up to the first size and all bytes.
pub append-size :
    (argc : ℕ) {n bytes size₀ size : ℕ} {pc : ℕ → Pc}
    → append_flag argc ≡ true
    → Reach (Move (append_flag argc)) n size₀ (created bytes) size pc
    → size + total unwritten n pc ≡ size₀ + n * bytes
append-size argc {n} {bytes} {size₀} on r =
    Reach-keeps (Move (append_flag argc)) n (λ m q. m + total unwritten n q ≡ size₀ + n * bytes)
      (λ m m' q i p' lt mv e. omega (arith, e, Move-sum on mv (total-Shift unwritten n q i p' lt)))
      (omega (arith, total-const unwritten bytes n (created bytes) (λ i q. refl))) r

-- Without it, two processes that seek before either writes put their bytes at one place.
collide :
    {bytes size₀ size k : ℕ} {pc : ℕ → Pc}
    → Reach (Move false) 2 size₀ (created bytes) size pc
    → pc 0 ≡ head (suc k)
    → pc 1 ≡ head (suc k)
    → (pc' : ℕ → Pc) × Reach (Move false) 2 size₀ (created bytes) (size + 1) pc'
      × (pc' 0 ≡ head k)
      × (pc' 1 ≡ head k)
unfolding ℕ_discrete
collide {bytes} {size₀} {size} {k} {pc} r e₀ e₁ =
    let first : (if ltb size size then size else size + 1) ≡ size + 1 = ground arith in
    let second : (if ltb size (size + 1) then size + 1 else size + 1) ≡ size + 1 = ground arith in
    let r₁ =
      next r 0 (omega arith) (subst (λ p. Move false size p size (sought k size)) (sym e₀) lseek) in
    let r₂ =
      next r₁ 1 (omega arith)
        (subst (λ p. Move false size p size (sought k size)) (sym e₁) lseek) in
    let r₃ =
      next r₂ 0 (omega arith)
        (subst (λ s. Move false size (sought k size) s (head k)) first (write_at refl)) in
    (
      _,
      next r₃ 1 (omega arith)
          (subst (λ s. Move false (size + 1) (sought k size) s (head k)) second (write_at refl)),
      refl,
      refl,
    )

collide_rounds :
    {bytes size₀ : ℕ} (k size : ℕ) {pc : ℕ → Pc}
    → Reach (Move false) 2 size₀ (created bytes) size pc
    → pc 0 ≡ head k
    → pc 1 ≡ head k
    → (pc' : ℕ → Pc) × Reach (Move false) 2 size₀ (created bytes) (size + k) pc'
      × (pc' 0 ≡ head 0)
      × (pc' 1 ≡ head 0)
collide_rounds {bytes} {size₀} zero size {pc} r e₀ e₁ =
    let same : size ≡ size + 0 = omega arith in
    (pc, subst (λ s. Reach (Move false) 2 size₀ (created bytes) s pc) same r, e₀, e₁)
collide_rounds {bytes} {size₀} (suc k) size r e₀ e₁ =
    let (pc₁, r₁, a₀, a₁) = collide r e₀ e₁ in
    let (pc₂, r₂, b₀, b₁) = collide_rounds k (size + 1) r₁ a₀ a₁ in
    let same : size + 1 + k ≡ size + suc k = omega arith in
    (pc₂, subst (λ s. Reach (Move false) 2 size₀ (created bytes) s pc₂) same r₂, b₀, b₁)

-- Without `O_APPEND` half of the bytes can be lost: for every first size and number of bytes, two
-- processes can both finish with the file only the bytes of one of them larger.
pub lost_bytes :
    (bytes size₀ : ℕ)
    → (pc : ℕ → Pc) × Reach (Move (append_flag 4)) 2 size₀ (created bytes) (size₀ + bytes) pc
      × (pc 0 ≡ head 0)
      × (pc 1 ≡ head 0)
unfolding append_flag
lost_bytes bytes size₀ = collide_rounds bytes size₀ start refl refl
