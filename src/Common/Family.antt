-- ===== src/Common/Family.antt =====
-- Families `ℕ → A` indexed by thread: update at one index, weighted sums over the first `n`, and
-- how a sum shifts when one member changes.
use Prim.Native.Nat.{ℕ, zero, suc, ◌+◌, ◌*◌, ◌≤◌, ◌<◌}
use mathlib.Core.Path.{◌≡◌, refl}
use mathlib.Core.Logic.{◌≢◌, ite, if_pos, if_neg}
use native.Mathlib.Decide.{dec_lt, ℕ_discrete}
use native.Mathlib.Omega.{arith}

abbrev pub update {ℓ} : {A : Type ℓ} → (ℕ → A) → ℕ → A → ℕ → A
update f i a j = ite (ℕ_discrete i j) a (f j)

-- The weight of the members below `n`.
unfoldable pub total {ℓ} : {A : Type ℓ} → (A → ℕ) → (n : ℕ) → (ℕ → A) → ℕ
total w zero members = 0
total w (suc n) members = w (members n) + total w n members

module _ {ℓ} {A : Type ℓ} (w : A → ℕ) where
  -- Only the weights below `n` count.
  pub total-cong :
      {n : ℕ} (f g : ℕ → A) → ((j : ℕ) → j < n → w (g j) ≡ w (f j)) → total w n g ≡ total w n f
  unfolding total
  total-cong {n = zero} f g same = refl
  total-cong {n = suc n} f g same =
      omega (arith, same n (omega arith), total-cong {n = n} f g (λ j q. same j (omega arith)))

  -- A member's weight is part of the sum.
  pub le-total : (n : ℕ) (f : ℕ → A) (i : ℕ) → i < n → w (f i) ≤ total w n f
  unfolding total
  le-total zero f i h = absurd (omega arith)
  le-total (suc n) f i h = elim (dec_lt i n) [
    | yes below ↦ omega (arith, le-total n f i below)
    | no last ↦ ground arith
  ]

  pub add-le-total :
      (n : ℕ) (f : ℕ → A) (i j : ℕ) → i < n → j < n → i ≢ j → w (f i) + w (f j) ≤ total w n f
  unfolding total
  add-le-total zero f i j hi hj ne = absurd (omega arith)
  add-le-total (suc n) f i j hi hj ne = elim (dec_lt i n) [
    | yes bi ↦ elim (dec_lt j n) [
      | yes bj ↦ omega (arith, add-le-total n f i j bi bj ne)
      | no lj ↦ ground (arith, le-total n f i bi)
    ]
    | no li ↦ ground (arith, le-total n f j)
  ]

  pub total-const : (k n : ℕ) (f : ℕ → A) → ((i : ℕ) → i < n → w (f i) ≡ k) → total w n f ≡ n * k
  unfolding total
  total-const k zero f h = omega arith
  total-const k (suc n) f h =
      omega (arith, h n (omega arith), total-const k n f (λ i q. h i (omega arith)))

  -- A sum that is not zero has a member of weight.
  pub find-total : (n : ℕ) (f : ℕ → A) → 0 < total w n f → (i : ℕ) × (i < n) × (0 < w (f i))
  unfolding total
  find-total zero f h = absurd (omega arith)
  find-total (suc n) f h = elim (dec_lt 0 (w (f n))) [
    | yes here ↦ (n, omega arith, here)
    | no none ↦ let (i, below, found) = find-total n f (omega arith) in (i, omega arith, found)
  ]

-- The weights of two functions that bound one another.
module _ {ℓ} {A : Type ℓ} (v w : A → ℕ) where
  pub total_mono : ((a : A) → v a ≤ w a) → (n : ℕ) (f : ℕ → A) → total v n f ≤ total w n f
  unfolding total
  total_mono h zero f = omega arith
  total_mono h (suc n) f = omega (arith, h (f n), total_mono h n f)

-- A sum before and after one member goes from `p` to `p'`.
pub record Shift {A : Type 0} (w : A → ℕ) (p p' : A) (a a' : ℕ) : Type 0 where
  pub moved : a' + w p ≡ a + w p'
  pub within : w p ≤ a

pub total-Shift :
    {A : Type 0} (w : A → ℕ) (n : ℕ) (f : ℕ → A) (i : ℕ) (p' : A)
    → i < n
    → Shift w (f i) p' (total w n f) (total w n (update f i p'))
unfolding total
total-Shift w zero f i p' h = absurd (omega arith)
total-Shift w (suc n) f i p' h = elim (ℕ_discrete i n) [
  | no earlier ↦
      let s = total-Shift w n f i p' (omega arith) in
      record { moved = ground (arith, s.moved); within = omega (arith, s.within) }
  | yes here ↦
      let rest : total w n (update f i p') ≡ total w n f =
        total-cong w {n = n} f (update f i p') (λ j q. ground arith) in
      record { moved = ground (arith, rest); within = ground arith }
]

-- A fact of every member after an update: of the new member, and of each other.
pub update-cases :
    {A : Type 0} (P : A → Type 0) (f : ℕ → A) (i : ℕ) (a : A) (j : ℕ)
    → P a
    → (i ≢ j → P (f j))
    → P (update f i a j)
update-cases P f i a j here there = elim (ℕ_discrete i j) [
  | yes e ↦ rw (if_pos _ e) here
  | no ne ↦ rw (if_neg _ ne) (there ne)
]

-- If the weights add up to one at most, one member at most has weight.
pub only-one :
    {A : Type 0} (w : A → ℕ) (n : ℕ) (f : ℕ → A) (i j : ℕ)
    → i < n
    → j < n
    → total w n f ≤ 1
    → 0 < w (f i)
    → 0 < w (f j)
    → i ≡ j
only-one w n f i j hi hj small wi wj = elim (ℕ_discrete i j) [
  | yes e ↦ e
  | no ne ↦ absurd (omega (arith, add-le-total w n f i j hi hj ne))
]

-- A weight is absent from the sum where another, which it implies, is.
pub total-eq-zero :
    {A : Type 0} (v w : A → ℕ)
    → ((a : A) → w a ≡ 0 → v a ≡ 0)
    → (n : ℕ) (f : ℕ → A) → total w n f ≡ 0
    → total v n f ≡ 0
unfolding total
total-eq-zero v w h zero f e = refl
total-eq-zero v w h (suc n) f e =
    omega (arith, h (f n) (omega arith), total-eq-zero v w h n f (omega arith))
