-- ===== src/Concurrency/FairReadersWriters/Fairness.antt =====
-- reader-writer-nostarve.c: what `fair_lock` adds. No reader overtakes a writer that has passed it.
use operating_systems_theory.Common.{ℕ, ap, arith, dec_lt, subst, sym, ◌-◌, ◌<◌, ◌∙◌, ◌≡◌, ◌≤◌}
use operating_systems_theory.Common.Family.{
  total, le-total, only-one, total-Shift, total-const, update,
}
use operating_systems_theory.Concurrency.Threads.{Reach}
use operating_systems_theory.Concurrency.FairReadersWriters.{
  RwLock, AtStart, Move, Pc, claiming, entering, first_reader, give_write, init, last_reader,
  more_readers, other_readers, post_fair, post_lock, print, r_fair, r_post, reading, repost_lock,
  retake_lock, take_fair, take_lock, take_write, w_fair, w_write, write, writer_fair, writer_post,
  writer_post_fair, writer_take,
}
use operating_systems_theory.Concurrency.FairReadersWriters.Safety.{
  Reach-Inv, arriving, between, locking,
}

-- Only the last step of an acquire lets a reader in.
Move-reading :
    {m m' : RwLock} {p p' : Pc} → Move m p m' p' → entering p ≡ 0 → reading p' ≤ reading p
Move-reading post_fair h = absurd (omega arith)
Move-reading (take_fair _) h = omega arith
Move-reading (take_lock _) h = omega arith
Move-reading (first_reader _) h = omega arith
Move-reading (more_readers _) h = omega arith
Move-reading (take_write _) h = omega arith
Move-reading post_lock h = omega arith
Move-reading print h = omega arith
Move-reading (retake_lock _) h = omega arith
Move-reading (last_reader _) h = omega arith
Move-reading (other_readers _) h = omega arith
Move-reading give_write h = omega arith
Move-reading repost_lock h = omega arith
Move-reading (writer_fair _) h = omega arith
Move-reading (writer_take _) h = omega arith
Move-reading write h = omega arith
Move-reading writer_post h = omega arith
Move-reading writer_post_fair h = omega arith

module _ {n : ℕ} {pc₀ : ℕ → Pc} (at : (i : ℕ) → i < n → AtStart (pc₀ i)) {m : RwLock} {pc : ℕ → Pc}
    (r : Reach Move n init pc₀ m pc) where
  -- While a writer waits behind `fair_lock`, no reader is on its way in.
  claiming-entering : (i j : ℕ) → i < n → j < n → claiming (pc i) ≡ 1 → entering (pc j) ≡ 0
  claiming-entering i j hi hj ci = elim (dec_lt 0 (entering (pc j))) [
    | no h ↦ omega arith
    | yes h ↦
        absurd (apart (only-one arriving n pc i j hi hj few (claims (pc i) ci) (enters (pc j) h)) h)
  ]
    where
      few : total arriving n pc ≤ 1
      few = ground (arith, Reach-Inv at r)

      claims : (p : Pc) → claiming p ≡ 1 → 0 < arriving p
      claims w_fair h = omega arith
      claims p h = ground arith

      enters : (p : Pc) → 0 < entering p → 0 < arriving p
      enters r_fair h = omega arith
      enters p h = ground arith

      clash : (p : Pc) → claiming p ≡ 1 → 0 < entering p → ⊥
      clash w_fair c h = omega arith
      clash p c h = ground arith

      apart : i ≡ j → 0 < entering (pc j) → ⊥
      apart e h = clash (pc i) ci (subst (λ k. 0 < entering (pc k)) (sym e) h)

  -- While a writer waits behind `fair_lock`, no step of any thread lets another reader in: each step
  -- leaves as many readers inside or fewer.
  pub no_overtaking :
      (i k : ℕ) {m' : RwLock} {p' : Pc}
      → i < n
      → claiming (pc i) ≡ 1
      → k < n
      → Move m (pc k) m' p'
      → total reading n (update pc k p') ≤ total reading n pc
  no_overtaking i k {m'} {p'} hi ci hk mv =
      let shift = total-Shift reading n pc k p' hk in
      omega (arith, shift.moved, Move-reading mv (claiming-entering i k hi hk ci))

  -- A writer that waits behind `fair_lock` gets in as soon as no reader is counted or on its way
  -- out: then `writelock` is free and its next step is possible.
  pub claiming_proceeds :
      (i : ℕ)
      → i < n
      → pc i ≡ w_fair
      → total reading n pc ≡ 0
      → total locking n pc ≡ 0
      → Move m (pc i) (record m { writelock = m.writelock - 1 }) w_write
  claiming_proceeds i hi e quiet idle =
      subst (λ p. Move m p (record m { writelock = m.writelock - 1 }) w_write) (sym e)
        (writer_take (omega (arith, free)))
    where
      claim : 0 < total arriving n pc
      claim = omega (arith, le-total arriving n pc i hi, ap arriving e)

      none_between : total between n pc ≡ 0
      none_between =
          total-const between 0 n pc (λ j q.
            closed (pc j) (claiming-entering i j hi q (ap claiming e))
              (omega (arith, le-total locking n pc j q)))
          ∙ omega arith
        where
          closed : (p : Pc) → entering p ≡ 0 → locking p ≡ 0 → between p ≡ 0
          closed r_post h k = absurd (omega arith)
          closed p h k = ground arith

      free : m.writelock ≡ 1
      free = ground (arith, Reach-Inv at r, claim, none_between)
