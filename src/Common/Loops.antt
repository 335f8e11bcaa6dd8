-- ===== src/Common/Loops.antt =====
-- The loop `for (i = start; i < start + n; i++)`, and the list of the values of its body.
use Prim.Native.Nat.{ℕ, zero, suc, ◌+◌}
use mathlib.Core.List.{List, [], ◌∷◌}

module _ {ℓ} {S : Type ℓ} where
  unfoldable pub for_loop : ℕ → ℕ → (ℕ → S → S) → S → S
  for_loop zero i body s = s
  for_loop (suc n) i body s = for_loop n (i + 1) body (body i s)

  -- What the body keeps, the loop keeps.
  pub for_loop_invariant {κ} :
      (P : S → Type κ) (n i : ℕ) (body : ℕ → S → S) (s : S)
      → ((j : ℕ) (t : S) → P t → P (body j t))
      → P s
      → P (for_loop n i body s)
  unfolding for_loop
  for_loop_invariant P zero i body s keep h = h
  for_loop_invariant P (suc n) i body s keep h =
      for_loop_invariant P n (i + 1) body (body i s) keep (keep i s h)

module _ {ℓ} {A : Type ℓ} where
  unfoldable pub each : ℕ → ℕ → (ℕ → A) → List A
  each zero i f = []
  each (suc n) i f = f i ∷ each n (i + 1) f
