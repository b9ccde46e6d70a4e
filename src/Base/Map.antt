-- ===== src/Base/Map.antt =====
-- A map from texts, as an association list with one entry for a key.
use Prim.Native.Nat.{ℕ}
use mathlib.Core.Path.{◌≡◌, refl}
use mathlib.Core.Bool.{false}
use mathlib.Core.Option.{Option, none, some}
use mathlib.Core.List.{List, [], ◌∷◌}
use native.Mathlib.Omega.{arith}
use super_voice.Base.Tests.{if◌then◌else◌, Bool-cases}
use super_voice.Base.Text.{same, same→eq, same_refl, same_trans}
use mathlib.Core.Logic.{inl, inr}

abbrev pub Map {ℓ} : Type ℓ → Type ℓ
Map V = List (List ℕ × V)

module _ {ℓ} {V : Type ℓ} where
  unfoldable pub lookup : List ℕ → Map V → Option V
  lookup k [] = none
  lookup k ((j, v) ∷ m) = if same j k then some v else lookup k m

  unfoldable pub insert : List ℕ → V → Map V → Map V
  insert k v [] = (k, v) ∷ []
  insert k v ((j, w) ∷ m) = if same j k then (k, v) ∷ m else (j, w) ∷ insert k v m

  unfoldable pub erase : List ℕ → Map V → Map V
  erase k [] = []
  erase k ((j, v) ∷ m) = if same j k then erase k m else (j, v) ∷ erase k m

  pub lookup-insert :
      (k j : List ℕ) (v : V) (m : Map V)
      → lookup j (insert k v m) ≡ (if same k j then some v else lookup j m)
  unfolding lookup insert
  lookup-insert k j v [] = refl
  lookup-insert k j v ((i, w) ∷ m) = elim (Bool-cases (same i k)) [
    | inl e ↦ rw (e, same→eq i k e) (ground arith)
    | inr e ↦ rw e (ground (arith, lookup-insert k j v m, same_trans i j k))
  ]

  pub lookup-erase :
      (k j : List ℕ) (m : Map V) → lookup j (erase k m) ≡ (if same k j then none else lookup j m)
  unfolding lookup erase
  lookup-erase k j [] = ground arith
  lookup-erase k j ((i, w) ∷ m) = elim (Bool-cases (same i k)) [
    | inl e ↦ rw (e, same→eq i k e) (ground (arith, lookup-erase k j m))
    | inr e ↦ rw e (ground (arith, lookup-erase k j m, same_trans i j k))
  ]

  pub lookup-insert_self : (k : List ℕ) (v : V) (m : Map V) → lookup k (insert k v m) ≡ some v
  lookup-insert_self k v m = rw (lookup-insert k k v m, same_refl k) refl

  pub lookup-insert_ne :
      (k j : List ℕ) (v : V) (m : Map V) → same k j ≡ false → lookup j (insert k v m) ≡ lookup j m
  lookup-insert_ne k j v m e = rw (lookup-insert k j v m, e) refl

  pub lookup-erase_self : (k : List ℕ) (m : Map V) → lookup k (erase k m) ≡ none
  lookup-erase_self k m = rw (lookup-erase k k m, same_refl k) refl

  pub lookup-erase_ne :
      (k j : List ℕ) (m : Map V) → same k j ≡ false → lookup j (erase k m) ≡ lookup j m
  lookup-erase_ne k j m e = rw (lookup-erase k j m, e) refl
