-- ===== src/Concurrency/Buffer/Steps.antt =====
-- How a step of buffer.c changes the ring and the counts of threads at each place.
use operating_systems_theory.Common.{
  subst, ap, sym, ◌%◌, ℕ, List, arith, length, refl, ◌+◌, ◌<◌, ◌∙◌, ◌≡◌, [], length-append, ◌++◌,
  ◌∷◌, ◌≤◌,
}
use operating_systems_theory.Common.Family.{Shift}
use operating_systems_theory.Concurrency.Buffer.{
  Buffer, Move, Pc, c_get, c_lock, c_post_empty, c_post_mutex, c_wait_mutex, consume, inside, max,
  p_lock, p_post_full, p_post_mutex, p_put, p_wait_mutex, produce, take_empty, take_full,
  c_load_place, c_load_use, c_store_use, c_unlock, load_fill, load_get_place, load_put_place,
  load_use, p_load_fill, p_load_place, p_store_fill, p_unlock, post_empty, post_full, print,
  store_fill, store_use, get, next_place, put, tmp,
}
use operating_systems_theory.Concurrency.Buffer.Ring.{IsRing, get-IsRing, put-IsRing}

-- Producers that have taken an empty place and not filled it.
abbrev pub filling : Pc → ℕ
filling (p_wait_mutex _) = 1
filling (p_load_place _) = 1
filling (p_put _ _) = 1
filling _ = 0

-- Producers that have filled a place and not said so.
abbrev pub filled : Pc → ℕ
filled (p_load_fill _) = 1
filled (p_store_fill _ _) = 1
filled (p_post_mutex _) = 1
filled (p_post_full _) = 1
filled _ = 0

-- Consumers that have claimed a full place and not emptied it.
abbrev pub emptying : Pc → ℕ
emptying c_wait_mutex = 1
emptying c_load_place = 1
emptying (c_get _) = 1
emptying _ = 0

-- Consumers that have emptied a place and not said so.
abbrev pub emptied : Pc → ℕ
emptied (c_load_use _) = 1
emptied (c_store_use _ _) = 1
emptied (c_post_mutex _) = 1
emptied (c_post_empty _) = 1
emptied _ = 0

-- Producers that have filled a place and not advanced `fill`; consumers that have read one and not
-- advanced `use`; and the other threads inside.
abbrev pub stored : Pc → ℕ
stored (p_load_fill _) = 1
stored (p_store_fill _ _) = 1
stored _ = 0

abbrev pub fetched : Pc → ℕ
fetched (c_load_use _) = 1
fetched (c_store_use _ _) = 1
fetched _ = 0

abbrev pub steady : Pc → ℕ
steady (p_load_place _) = 1
steady (p_put _ _) = 1
steady (p_post_mutex _) = 1
steady c_load_place = 1
steady (c_get _) = 1
steady (c_post_mutex _) = 1
steady _ = 0

-- A loaded index is the one in memory.
abbrev pub IsFresh : Buffer → Pc → Type 0
IsFresh b (p_put i place) = b.fill ≡ place
IsFresh b (p_store_fill i old) = b.fill ≡ old
IsFresh b (c_get place) = b.use_at ≡ place
IsFresh b (c_store_use v old) = b.use_at ≡ old
IsFresh b _ = Unit

-- `k` values are in the ring; `h` threads are inside, `a` fill, `f` have filled, `c` empty, `d` have
-- emptied; `s`, `g` and `q` of those inside are to advance `fill`, to advance `use`, and neither.
pub record Counts (b : Buffer) (k h a f c d s g q : ℕ) : Type 0 where
  pub guarded : b.mutex + h ≡ 1
  pub in_ring : k ≡ b.full + f + c
  pub places : k + a + d + b.empty ≡ max
  pub split : s + g + q ≡ h
  pub fill_fits : b.fill < max
  pub use_fits : b.use_at < max

pub record Ring (b : Buffer) (h a f c d s g q : ℕ) : Type 0 where
  pub queue : List ℕ
  pub ring : IsRing b ((b.use_at + g) % max) ((b.fill + s) % max) queue
  pub counts : Counts b (length queue) h a f c d s g q

-- A step that leaves the ring and its indices alone.
Ring-of_Counts :
    {b b' : Buffer} {h h' a a' f f' c c' d d' s s' g g' q q' : ℕ}
    → (i : Ring b h a f c d s g q) → b'.buffer ≡ b.buffer
    → b'.produced ≡ b.produced
    → b'.consumed ≡ b.consumed
    → (b.fill + s) % max ≡ (b'.fill + s') % max
    → (b.use_at + g) % max ≡ (b'.use_at + g') % max
    → Counts b' (length i.queue) h' a' f' c' d' s' g' q'
    → Ring b' h' a' f' c' d' s' g' q'
Ring-of_Counts i e₁ e₂ e₃ same_fill same_use counts = record {
  queue = i.queue;
  ring = record {
    places = rw e₁ i.ring.places;
    use_fits = omega (arith, same_use, i.ring.use_fits);
    fill_place = sym same_fill ∙ i.ring.fill_place ∙ ap (λ u. (u + length i.queue) % max) same_use;
    held = rw (e₁, ← same_use) i.ring.held;
    order = rw (e₂, e₃) i.ring.order;
  };
  counts = counts;
}

module _ {h h' a a' f f' c c' d d' s s' g g' q q' : ℕ} where
  consume-Ring :
      {b : Buffer} {place : ℕ} (queue : List ℕ)
      → IsRing b ((b.use_at + g) % max) ((b.fill + s) % max) queue
      → Counts b (length queue) h a f c d s g q
      → Shift inside (c_get place) (c_load_use (tmp place b)) h h'
      → Shift filling (c_get place) (c_load_use (tmp place b)) a a'
      → Shift filled (c_get place) (c_load_use (tmp place b)) f f'
      → Shift emptying (c_get place) (c_load_use (tmp place b)) c c'
      → Shift emptied (c_get place) (c_load_use (tmp place b)) d d'
      → Shift stored (c_get place) (c_load_use (tmp place b)) s s'
      → Shift fetched (c_get place) (c_load_use (tmp place b)) g g'
      → Shift steady (c_get place) (c_load_use (tmp place b)) q q'
      → b.use_at ≡ place
      → Ring (get place b) h' a' f' c' d' s' g' q'
  consume-Ring [] ring counts s0 s1 s2 s3 s4 s5 s6 s7 fr = absurd (omega arith)
  consume-Ring {b} {place} (x ∷ queue) ring counts s0 s1 s2 s3 s4 s5 s6 s7 fr =
      let here : (b.use_at + g) % max ≡ place = omega (arith, counts, s0, s4, s5, s6, s7, fr) in
      let after : (b.use_at + g') % max ≡ next_place place =
        omega (arith, counts, s0, s4, s5, s6, s7, fr) in
      let same : (b.fill + s') % max ≡ (b.fill + s) % max = omega (arith, s5) in
      record {
        queue = queue;
        ring =
            subst (λ f. IsRing (get place b) ((b.use_at + g') % max) f queue) (sym same)
              (subst (λ u. IsRing (get place b) u ((b.fill + s) % max) queue) (sym after)
                (subst (λ u. IsRing (get u b) (next_place u) ((b.fill + s) % max) queue) here
                  (get-IsRing x queue ring)));
        counts = ground (arith, counts);
      }

  pub Move-Ring :
      {b b' : Buffer} {p p' : Pc}
      → Move b p b' p'
      → Shift inside p p' h h'
      → Shift filling p p' a a'
      → Shift filled p p' f f'
      → Shift emptying p p' c c'
      → Shift emptied p p' d d'
      → Shift stored p p' s s'
      → Shift fetched p p' g g'
      → Shift steady p p' q q'
      → IsFresh b p
      → Ring b h a f c d s g q
      → Ring b' h' a' f' c' d' s' g' q'
  Move-Ring (take_empty some_place) s0 s1 s2 s3 s4 s5 s6 s7 fr i =
      Ring-of_Counts i refl refl refl (ground (arith, i.counts)) (ground (arith, i.counts))
        (ground (arith, i.counts))
  Move-Ring (p_lock free) s0 s1 s2 s3 s4 s5 s6 s7 fr i =
      Ring-of_Counts i refl refl refl (ground (arith, i.counts)) (ground (arith, i.counts))
        (ground (arith, i.counts))
  Move-Ring load_put_place s0 s1 s2 s3 s4 s5 s6 s7 fr i =
      Ring-of_Counts i refl refl refl (ground (arith, i.counts)) (ground (arith, i.counts))
        (ground (arith, i.counts))
  Move-Ring load_fill s0 s1 s2 s3 s4 s5 s6 s7 fr i =
      Ring-of_Counts i refl refl refl (ground (arith, i.counts)) (ground (arith, i.counts))
        (ground (arith, i.counts))
  Move-Ring p_unlock s0 s1 s2 s3 s4 s5 s6 s7 fr i =
      Ring-of_Counts i refl refl refl (ground (arith, i.counts)) (ground (arith, i.counts))
        (ground (arith, i.counts))
  Move-Ring post_full s0 s1 s2 s3 s4 s5 s6 s7 fr i =
      Ring-of_Counts i refl refl refl (ground (arith, i.counts)) (ground (arith, i.counts))
        (ground (arith, i.counts))
  Move-Ring (take_full some_value) s0 s1 s2 s3 s4 s5 s6 s7 fr i =
      Ring-of_Counts i refl refl refl (ground (arith, i.counts)) (ground (arith, i.counts))
        (ground (arith, i.counts))
  Move-Ring (c_lock free) s0 s1 s2 s3 s4 s5 s6 s7 fr i =
      Ring-of_Counts i refl refl refl (ground (arith, i.counts)) (ground (arith, i.counts))
        (ground (arith, i.counts))
  Move-Ring load_get_place s0 s1 s2 s3 s4 s5 s6 s7 fr i =
      Ring-of_Counts i refl refl refl (ground (arith, i.counts)) (ground (arith, i.counts))
        (ground (arith, i.counts))
  Move-Ring load_use s0 s1 s2 s3 s4 s5 s6 s7 fr i =
      Ring-of_Counts i refl refl refl (ground (arith, i.counts)) (ground (arith, i.counts))
        (ground (arith, i.counts))
  Move-Ring c_unlock s0 s1 s2 s3 s4 s5 s6 s7 fr i =
      Ring-of_Counts i refl refl refl (ground (arith, i.counts)) (ground (arith, i.counts))
        (ground (arith, i.counts))
  Move-Ring post_empty s0 s1 s2 s3 s4 s5 s6 s7 fr i =
      Ring-of_Counts i refl refl refl (ground (arith, i.counts)) (ground (arith, i.counts))
        (ground (arith, i.counts))
  Move-Ring print s0 s1 s2 s3 s4 s5 s6 s7 fr i =
      Ring-of_Counts i refl refl refl (ground (arith, i.counts)) (ground (arith, i.counts))
        (ground (arith, i.counts))
  Move-Ring store_fill s0 s1 s2 s3 s4 s5 s6 s7 fr i =
      Ring-of_Counts i refl refl refl (ground (arith, i.counts)) (ground (arith, i.counts))
        (ground (arith, i.counts))
  Move-Ring store_use s0 s1 s2 s3 s4 s5 s6 s7 fr i =
      Ring-of_Counts i refl refl refl (ground (arith, i.counts)) (ground (arith, i.counts))
        (ground (arith, i.counts))
  Move-Ring {b} (produce {i = x} {place}) s0 s1 s2 s3 s4 s5 s6 s7 fr i =
      let here : (b.fill + s) % max ≡ place = omega (arith, i.counts, s0, s4, s5, s6, s7, fr) in
      let after : (b.fill + s') % max ≡ next_place place =
        omega (arith, i.counts, s0, s4, s5, s6, s7, fr) in
      let same : (b.use_at + g') % max ≡ (b.use_at + g) % max = omega (arith, s6) in
      record {
        queue = i.queue ++ x ∷ [];
        ring =
            subst (λ u. IsRing (put x place b) u ((b.fill + s') % max) (i.queue ++ x ∷ []))
              (sym same)
              (subst (λ f. IsRing (put x place b) ((b.use_at + g) % max) f (i.queue ++ x ∷ []))
                (sym after)
                (subst
                  (λ f.
                    IsRing (put x f b) ((b.use_at + g) % max) (next_place f) (i.queue ++ x ∷ []))
                  here (put-IsRing i.queue x i.ring (omega (arith, i.counts, s1)))));
        counts = ground (arith, i.counts, length-append i.queue (x ∷ []));
      }
  Move-Ring {b} (consume {place}) s0 s1 s2 s3 s4 s5 s6 s7 fr i =
      consume-Ring i.queue i.ring i.counts s0 s1 s2 s3 s4 s5 s6 s7 fr

pub Move-IsFresh_self : {b b' : Buffer} {p p' : Pc} → Move b p b' p' → IsFresh b' p'
Move-IsFresh_self load_put_place = refl
Move-IsFresh_self load_fill = refl
Move-IsFresh_self load_get_place = refl
Move-IsFresh_self load_use = refl
Move-IsFresh_self (take_empty _) = tt
Move-IsFresh_self (p_lock _) = tt
Move-IsFresh_self produce = tt
Move-IsFresh_self store_fill = tt
Move-IsFresh_self p_unlock = tt
Move-IsFresh_self post_full = tt
Move-IsFresh_self (take_full _) = tt
Move-IsFresh_self (c_lock _) = tt
Move-IsFresh_self consume = tt
Move-IsFresh_self store_use = tt
Move-IsFresh_self c_unlock = tt
Move-IsFresh_self post_empty = tt
Move-IsFresh_self print = tt

-- A thread inside is not disturbed by another.
pub Move-IsFresh_other :
    {b b' : Buffer} {p p' : Pc} (q : Pc)
    → Move b p b' p'
    → inside p + inside q ≤ 1
    → IsFresh b q
    → IsFresh b' q
Move-IsFresh_other q load_put_place few f = f
Move-IsFresh_other q load_fill few f = f
Move-IsFresh_other q load_get_place few f = f
Move-IsFresh_other q load_use few f = f
Move-IsFresh_other q print few f = f
Move-IsFresh_other q (take_empty _) few f = ground arith
Move-IsFresh_other q (p_lock _) few f = ground arith
Move-IsFresh_other q produce few f = ground arith
Move-IsFresh_other q store_fill few f = ground arith
Move-IsFresh_other q p_unlock few f = ground arith
Move-IsFresh_other q post_full few f = ground arith
Move-IsFresh_other q (take_full _) few f = ground arith
Move-IsFresh_other q (c_lock _) few f = ground arith
Move-IsFresh_other q consume few f = ground arith
Move-IsFresh_other q store_use few f = ground arith
Move-IsFresh_other q c_unlock few f = ground arith
Move-IsFresh_other q post_empty few f = ground arith
