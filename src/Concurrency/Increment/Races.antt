-- ===== src/Concurrency/Increment/Races.antt =====
-- thread_incr.c: what the interleavings of its threads can and cannot do to `glob`.
use operating_systems_theory.Common.{
  ℕ, arith, refl, subst, suc, sym, zero, ℕ_discrete, ◌*◌, ◌+◌, ◌<◌, ◌≡◌, ◌≤◌,
}
use operating_systems_theory.Common.Family.{
  total, Shift, total-Shift, total-const, update, update-cases,
}
use operating_systems_theory.Concurrency.Threads.{Reach, Reach-keeps, next, start}
use operating_systems_theory.Concurrency.Increment.{
  Pc, Move, count, counted, created, head, load, loaded, store, unstored,
}

-- What a thread has in hand was counted from a value of `glob`, and `r` rounds are left in all.
abbrev InHand : ℕ → ℕ → Pc → Type 0
InHand all r (head _) = Unit
InHand all r (loaded _ loc) = loc + r ≤ all
InHand all r (counted _ loc) = loc + r ≤ suc all

record Inv (all n glob : ℕ) (pc : ℕ → Pc) : Type 0 where
  bound : glob + total unstored n pc ≤ all
  hands : (j : ℕ) → j < n → InHand all (total unstored n pc) (pc j)

InHand-le : (all r r' : ℕ) (p : Pc) → r' ≤ r → InHand all r p → InHand all r' p
InHand-le all r r' (head _) le h = tt
InHand-le all r r' (loaded _ loc) le h = omega arith
InHand-le all r r' (counted _ loc) le h = omega arith

Move-bounds :
    {all r r' glob glob' : ℕ} {p p' : Pc}
    → Move glob p glob' p'
    → Shift unstored p p' r r'
    → InHand all r p
    → glob + r ≤ all
    → (glob' + r' ≤ all) × (r' ≤ r) × InHand all r' p'
Move-bounds load s h b = (omega arith, omega arith, omega arith)
Move-bounds count s h b = (omega arith, omega arith, omega arith)
Move-bounds store s h b = (omega arith, omega arith, tt)

Move-Inv :
    (all n glob glob' : ℕ) (pc : ℕ → Pc) (i : ℕ) (p' : Pc)
    → i < n
    → Move glob (pc i) glob' p'
    → Inv all n glob pc
    → Inv all n glob' (update pc i p')
Move-Inv all n glob glob' pc i p' lt mv inv =
    let (bound, fewer, hand) =
      Move-bounds mv (total-Shift unstored n pc i p' lt) (inv.hands i lt) inv.bound in
    record {
      bound = bound;
      hands = λ j below.
          update-cases (InHand all (total unstored n (update pc i p'))) pc i p' j hand
            (λ ne. InHand-le _ _ _ (pc j) fewer (inv.hands j below));
    }

-- However `n` threads of `loops` rounds interleave, `glob` and the rounds still to be stored never
-- add up to more than `n * loops`: the final value is at most the number of rounds.
pub glob-le :
    {n loops glob : ℕ} {pc : ℕ → Pc}
    → Reach Move n 0 (created loops) glob pc
    → glob + total unstored n pc ≤ n * loops
glob-le {n} {loops} r =
    (Reach-keeps Move n (Inv (n * loops) n) (Move-Inv (n * loops) n)
      (record {
        bound = omega (arith, total-const unstored loops n (created loops) (λ i q. refl));
        hands = λ j q. tt;
      })
      r).bound

-- Both threads load before either stores: a round of each adds 1 to `glob`.
lockstep :
    {loops glob k : ℕ} {pc : ℕ → Pc}
    → Reach Move 2 0 (created loops) glob pc
    → pc 0 ≡ head (suc k)
    → pc 1 ≡ head (suc k)
    → (pc' : ℕ → Pc) × Reach Move 2 0 (created loops) (glob + 1) pc'
      × (pc' 0 ≡ head k)
      × (pc' 1 ≡ head k)
unfolding ℕ_discrete
lockstep {glob} {k} {pc} r e₀ e₁ = (
  _,
  next
      (next
        (next
          (next
            (next
              (next r 0 (omega arith) (subst (λ p. Move glob p glob (loaded k glob)) (sym e₀) load))
              1 (omega arith) (subst (λ p. Move glob p glob (loaded k glob)) (sym e₁) load))
            0 (omega arith) count)
          1 (omega arith) count)
        0 (omega arith) store)
      1 (omega arith) store,
  refl,
  refl,
)

lockstep_rounds :
    {loops : ℕ} (k glob : ℕ) {pc : ℕ → Pc}
    → Reach Move 2 0 (created loops) glob pc
    → pc 0 ≡ head k
    → pc 1 ≡ head k
    → (pc' : ℕ → Pc) × Reach Move 2 0 (created loops) (glob + k) pc'
      × (pc' 0 ≡ head 0)
      × (pc' 1 ≡ head 0)
lockstep_rounds {loops} zero glob {pc} r e₀ e₁ =
    let same : glob ≡ glob + 0 = omega arith in
    (pc, subst (λ g. Reach Move 2 0 (created loops) g pc) same r, e₀, e₁)
lockstep_rounds {loops} (suc k) glob r e₀ e₁ =
    let (pc₁, r₁, a₀, a₁) = lockstep r e₀ e₁ in
    let (pc₂, r₂, b₀, b₁) = lockstep_rounds k (glob + 1) r₁ a₀ a₁ in
    let same : glob + 1 + k ≡ glob + suc k = omega arith in
    (pc₂, subst (λ g. Reach Move 2 0 (created loops) g pc₂) same r₂, b₀, b₁)

-- For every number of rounds, the two threads of `main` can both finish with `glob` at the rounds of
-- one of them alone: half of the increments are lost.
pub lost_updates :
    (loops : ℕ)
    → (pc : ℕ → Pc) × Reach Move 2 0 (created loops) loops pc × (pc 0 ≡ head 0) × (pc 1 ≡ head 0)
lost_updates loops =
    let (pc, r, e₀, e₁) = lockstep_rounds loops 0 start refl refl in
    let same : 0 + loops ≡ loops = omega arith in
    (pc, subst (λ g. Reach Move 2 0 (created loops) g pc) same r, e₀, e₁)
