-- ===== src/Base/Calls.antt =====
-- Calls that are waiting to be made, each by a goroutine of its own: the next one is at any place.
use Prim.Native.Nat.{ℕ, zero, suc}
use mathlib.Core.Path.{◌≡◌}
use mathlib.Core.Option.{Option, none, some}
use mathlib.Core.List.{List, [], ◌∷◌, ◌++◌, append_assoc, Perm}
use mathlib.Core.List.Perm

module _ {ℓ} {A : Type ℓ} where
  -- What is at a place, and what is left without it.
  unfoldable pub call_at : ℕ → List A → Option A
  call_at n [] = none
  call_at zero (x ∷ xs) = some x
  call_at (suc n) (x ∷ xs) = call_at n xs

  unfoldable pub without_call : ℕ → List A → List A
  without_call n [] = []
  without_call zero (x ∷ xs) = xs
  without_call (suc n) (x ∷ xs) = x ∷ without_call n xs

  Perm-without_call :
      (n : ℕ) (x : A) (xs : List A) → call_at n xs ≡ some x → Perm (x ∷ without_call n xs) xs
  unfolding call_at without_call
  Perm-without_call n x [] h = let q : none ≡ some x = h in cc
  Perm-without_call zero x (y ∷ xs) h = let same : y ≡ x = cc in rw same (Perm.refl (x ∷ xs))
  Perm-without_call (suc n) x (y ∷ xs) h =
      Perm.trans (Perm.swap y x (without_call n xs)) (Perm.cons y (Perm-without_call n x xs h))

  -- A call that is made moves from those that wait to those that are made.
  pub Perm-call_at :
      (n : ℕ) (x : A) (told waiting : List A)
      → call_at n waiting ≡ some x
      → Perm (told ++ x ∷ [] ++ without_call n waiting) (told ++ waiting)
  Perm-call_at n x told waiting h =
      rw (append_assoc told (x ∷ []) (without_call n waiting))
        (Perm.append_left told (Perm-without_call n x waiting h))
