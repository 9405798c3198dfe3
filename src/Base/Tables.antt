-- ===== src/Base/Tables.antt =====
-- Proof by a table: over a small range a test is run at every value.
use Prim.Native.Nat.{ℕ, zero, suc, ◌<◌}
use mathlib.Core.Path.{◌≡◌, refl, ap, ◌∙◌}
use native.Mathlib.Decide.{ℕ_discrete}
use mathlib.Core.Bool.{Bool, true, false, not}
use native.Mathlib.Omega.{arith}
use red_fox32_old.Base.Tests.{if◌then◌else◌}

-- The test passes at every number less than the bound.
unfoldable pub passes : (test : ℕ → Bool) → (bound : ℕ) → Bool
passes test zero = true
passes test (suc k) = let earlier = passes test k in if test k then earlier else false

pub passes-at :
    (test : ℕ → Bool) (bound : ℕ) → passes test bound ≡ true → (k : ℕ) → k < bound → test k ≡ true
unfolding passes
passes-at test zero run k less = absurd (omega arith)
passes-at test (suc bound) run k less = elim (ℕ_discrete k bound) [
  | yes e ↦ ap test e ∙ last
  | no ne ↦ passes-at test bound earlier k (omega arith)
]
  where
    last : test bound ≡ true
    last = ground arith

    earlier : passes test bound ≡ true
    earlier = ground arith

-- The same, for tests that are to agree.
unfoldable pub bool_eq : Bool → Bool → Bool
bool_eq true b = b
bool_eq false b = not b

pub bool_eq→eq : (a b : Bool) → bool_eq a b ≡ true → a ≡ b
unfolding bool_eq
bool_eq→eq true true h = refl
bool_eq→eq true false h = cc
bool_eq→eq false true h = cc
bool_eq→eq false false h = refl
