-- ===== src/Prelude/Maps.antt =====
-- Functions from numbers, changed at one place.
use Prim.Native.Nat.{ℕ}
use mathlib.Core.Path.{◌≡◌, sym, subst}
use mathlib.Core.Bool.{true, false}
use native.Mathlib.Omega.{arith}
use mathlib.Core.Logic.{inl, inr}
use wireguard_receive_path.Prelude.Tests.{◌==◌, ==_iff, Bool-cases}

abbrev pub update {ℓ} : {A : Type ℓ} → (ℕ → A) → ℕ → A → ℕ → A
update f i a j = elim (i == j) [ true ↦ a | false ↦ f j ]

pub update_self {ℓ} : {A : Type ℓ} (f : ℕ → A) (i : ℕ) (a : A) → update f i a i ≡ a
update_self f i a = ground arith

pub update_ne {ℓ} :
    {A : Type ℓ} (f : ℕ → A) (i : ℕ) (a : A) (j : ℕ) → (i == j) ≡ false → update f i a j ≡ f j
update_ne f i a j h = ground arith

-- What holds of the new value at its place, and of all the others, holds everywhere.
pub update_each {ℓ} :
    {A : Type ℓ} (P : ℕ → A → Type 0) (f : ℕ → A) (i : ℕ) (a : A)
    → P i a
    → ((j : ℕ) → P j (f j))
    → (j : ℕ) → P j (update f i a j)
update_each P f i a here there j = elim (Bool-cases (i == j)) [
  | inl e ↦
      subst (λ j. P j (update f i a j)) ((==_iff i j).0 e)
        (subst (P i) (sym (update_self f i a)) here)
  | inr e ↦ subst (P j) (sym (update_ne f i a j e)) (there j)
]
