-- ===== src/Memory/Environment/Examples.antt =====
-- envmanip.c: "A=1" and then "B=2", beside a string "C=3".
use operating_systems_theory.Common.{[], ap, arith, false, get_or, none, refl, some, true, ◌∷◌, ◌≡◌}
use operating_systems_theory.Common.Text.{lacks}
use operating_systems_theory.Memory.Environment.{Env, getenv, has_own, own, setenv, value_of}
use operating_systems_theory.Memory.Environment.Forgetting.{setenv-forgets}

abbrev env : Env
env = record { entries = own (b'C' ∷ b'=' ∷ b'3' ∷ []) ∷ []; ebuf = [] }

setenv-forgets_example :
    (env₁ : Env) × (env₂ : Env) × (setenv (b'A' ∷ []) (b'1' ∷ []) false env ≡ some env₁)
    × (setenv (b'B' ∷ []) (b'2' ∷ []) true env₁ ≡ some env₂)
    × (getenv env₁ (b'A' ∷ []) ≡ some (b'1' ∷ []))
    × (getenv env₂ (b'B' ∷ []) ≡ some (b'2' ∷ []))
    × (getenv env₂ (b'A' ∷ []) ≡ none)
unfolding lacks has_own value_of
setenv-forgets_example =
    setenv-forgets (b'A' ∷ []) (b'1' ∷ []) (b'B' ∷ []) (b'2' ∷ []) false true env refl refl
      (λ e. omega (arith, ap (λ s. get_or s 0 0) e)) refl refl refl (omega arith) (omega arith)
