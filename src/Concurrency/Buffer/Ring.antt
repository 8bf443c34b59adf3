-- ===== src/Concurrency/Buffer/Ring.antt =====
-- The ring of buffer.c as a queue.
use operating_systems_theory.Common.{
  ℕ, List, [], ap, append_assoc, ap₂, arith, get_or, length, length-append, length-set, refl, set,
  suc, sym, zero, ◌%◌, ◌++◌, ◌+◌, ◌<◌, ◌∙◌, ◌∷◌, ◌≡◌, ◌≢◌,
}
use operating_systems_theory.Concurrency.Buffer.{Buffer, get, max, put, next_place}

-- The values of the `k` places from place `u` on.
unfoldable pub slots : List ℕ → ℕ → ℕ → List ℕ
slots b u zero = []
slots b u (suc k) = get_or b u 0 ∷ slots b ((u + 1) % max) k

get_or-set_self : (b : List ℕ) (i v : ℕ) → i < length b → get_or (set b i v) i 0 ≡ v
get_or-set_self [] i v h = absurd (omega arith)
get_or-set_self (x ∷ b) zero v h = refl
get_or-set_self (x ∷ b) (suc i) v h = get_or-set_self b i v (omega arith)

get_or-set_ne : (b : List ℕ) (i j v : ℕ) → i ≢ j → get_or (set b i v) j 0 ≡ get_or b j 0
get_or-set_ne [] i j v h = refl
get_or-set_ne (x ∷ b) zero zero v h = absurd (h refl)
get_or-set_ne (x ∷ b) zero (suc j) v h = refl
get_or-set_ne (x ∷ b) (suc i) zero v h = refl
get_or-set_ne (x ∷ b) (suc i) (suc j) v h = get_or-set_ne b i j v (λ e. h (ap suc e))

length-slots : (b : List ℕ) (u k : ℕ) → length (slots b u k) ≡ k
unfolding slots
length-slots b u zero = refl
length-slots b u (suc k) = ap suc (length-slots b ((u + 1) % max) k)

-- A write at the place behind the `k` places is the value behind theirs.
pub slots-set :
    (b : List ℕ) (v k u f : ℕ)
    → length b ≡ max
    → u < max
    → k < max
    → f ≡ (u + k) % max
    → slots (set b f v) u (suc k) ≡ slots b u k ++ v ∷ []
unfolding slots
slots-set b v zero u f len hu hk e =
    let same : f ≡ u = omega arith in rw (same, get_or-set_self b u v (omega arith))
slots-set b v (suc k) u f len hu hk e =
    let apart : f ≢ u = λ q. omega arith in
    ap₂ ◌∷◌ (get_or-set_ne b f u v apart)
      (slots-set b v k ((u + 1) % max) f len (omega arith) (omega arith) (omega arith))

-- The places from `use` on, before `fill`, stand for the queue of what is put and not got.
pub record IsRing (b : Buffer) (front fill : ℕ) (queue : List ℕ) : Type 0 where
  pub places : length b.buffer ≡ max
  pub use_fits : front < max
  pub fill_place : fill ≡ (front + length queue) % max
  pub held : slots b.buffer front (length queue) ≡ queue
  pub order : b.produced ≡ b.consumed ++ queue

-- A value put at `fill`, in a ring that is not full, is behind the queue.
pub put-IsRing :
    {b : Buffer} {front fill : ℕ} (queue : List ℕ) (v : ℕ)
    → IsRing b front fill queue
    → length queue < max
    → IsRing (put v fill b) front (next_place fill) (queue ++ v ∷ [])
put-IsRing {b} {front} {fill} queue v ring room = record {
  places = length-set b.buffer fill v ∙ ring.places;
  use_fits = ring.use_fits;
  fill_place = omega (arith, ring.fill_place, ring.use_fits, longer);
  held = rw longer (
      slots-set b.buffer v (length queue) front fill ring.places ring.use_fits room ring.fill_place
      ∙ ap (λ q. q ++ v ∷ []) ring.held);
  order = ap (λ q. q ++ v ∷ []) ring.order ∙ append_assoc b.consumed queue (v ∷ []);
}
  where
    longer : length (queue ++ v ∷ []) ≡ suc (length queue)
    longer = omega (arith, length-append queue (v ∷ []))

-- The value at `use`, in a ring that is not empty, is the head of the queue; the tail is left.
pub get-IsRing :
    {b : Buffer} {front fill : ℕ} (v : ℕ) (queue : List ℕ)
    → IsRing b front fill (v ∷ queue)
    → IsRing (get front b) (next_place front) fill queue
unfolding slots
get-IsRing {b} {front} v queue ring = record {
  places = ring.places;
  use_fits = omega arith;
  fill_place = omega (arith, ring.fill_place, ring.use_fits);
  held = cc (ring.held);
  order = rw head_eq (ring.order ∙ sym (append_assoc b.consumed (v ∷ []) queue));
}
  where
    head_eq : get_or b.buffer front 0 ≡ v
    head_eq = cc (ring.held)
