-- ===== src/Base/Registry.antt =====
-- A linked list of entries that are found by a number, newest first: the shape of the lists of
-- drivers, protocols, protocol handlers and interfaces.
use Prim.Native.Nat.{ℕ}
use mathlib.Core.Path.{◌≡◌}
use mathlib.Core.Logic.{◌≢◌}
use mathlib.Core.List.{List, [], ◌∷◌}
use mathlib.Core.Option.{Option, none, some}
use native.Mathlib.Omega.{arith}
use protocol_stack.Base.Tests.{◌==◌, if◌then◌else◌}

module _ {ℓ} {A : Type ℓ} (key : A → ℕ) where
  -- `for (entry = list; entry; entry = entry->next) if (entry->key == k) return entry;`
  unfoldable pub find : ℕ → List A → Option A
  find k [] = none
  find k (x ∷ xs) = if key x == k then some x else find k xs

  -- No two entries have one number.
  abbrev pub IsDistinct : List A → Type ℓ
  IsDistinct [] = Unit
  IsDistinct (x ∷ xs) = (find (key x) xs ≡ none) × IsDistinct xs

  pub find-key : (k : ℕ) (xs : List A) (x : A) → find k xs ≡ some x → key x ≡ k
  unfolding find
  find-key k [] x e = ground arith
  find-key k (y ∷ xs) x e = ground (arith, find-key k xs x)

  pub find-cons_self : (x : A) (xs : List A) → find (key x) (x ∷ xs) ≡ some x
  unfolding find
  find-cons_self x xs = ground arith

  pub find-cons_ne : (x : A) (xs : List A) (k : ℕ) → k ≢ key x → find k (x ∷ xs) ≡ find k xs
  unfolding find
  find-cons_ne x xs k ne = ground arith
