-- ===== src/Base/Maps.antt =====
-- Go's `map[string]V` as a list of entries, and stores of objects by address.
use Prim.Native.Nat.{ℕ}
use Prim.Native.String.{String}
use mathlib.Core.Path.{◌≡◌, refl}
use mathlib.Core.Option.{Option, none, some}
use mathlib.Core.List.{List, [], ◌∷◌}
use native.Mathlib.Omega.{arith}
use text.Mathlib.Text.{◌==◌ as str_eq}
use text.Mathlib.TextEquality.{eq_iff}
use webhook_broker.Base.Tests.{◌==◌, if◌then◌else◌}

abbrev pub Map {ℓ} : Type ℓ → Type ℓ
Map V = List (String × V)

module _ {ℓ} {V : Type ℓ} where
  -- m[k]
  unfoldable pub lookup : String → Map V → Option V
  lookup k [] = none
  lookup k ((j, v) ∷ m) = if str_eq j k then some v else lookup k m

  -- m[k] = v
  unfoldable pub insert : String → V → Map V → Map V
  insert k v [] = (k, v) ∷ []
  insert k v ((j, w) ∷ m) = if str_eq j k then (k, v) ∷ m else (j, w) ∷ insert k v m

  -- delete(m, k)
  unfoldable pub erase : String → Map V → Map V
  erase k [] = []
  erase k ((j, w) ∷ m) = if str_eq j k then erase k m else (j, w) ∷ erase k m

  -- A key that is set, and any other.
  pub lookup-insert :
      (key other : String) (value : V) (entries : Map V)
      → lookup other (insert key value entries)
        ≡ (if str_eq key other then some value else lookup other entries)
  unfolding lookup insert
  lookup-insert key other value [] = refl
  lookup-insert key other value ((at, old) ∷ entries) =
      let rest = lookup-insert key other value entries in
      ground (arith, eq_iff at key, eq_iff at other, eq_iff key other, rest)

  -- A key that is deleted, and any other.
  pub lookup-erase :
      (key other : String) (entries : Map V)
      → lookup other (erase key entries) ≡ (if str_eq key other then none else lookup other entries)
  unfolding lookup erase
  lookup-erase key other [] = ground arith
  lookup-erase key other ((at, old) ∷ entries) =
      let rest = lookup-erase key other entries in
      ground (arith, eq_iff at key, eq_iff at other, eq_iff key other, rest)

  -- A write through a pointer.
  unfoldable pub update : (ℕ → V) → ℕ → V → ℕ → V
  update h a v b = if a == b then v else h b

  pub update_self : (h : ℕ → V) (a : ℕ) (v : V) → update h a v a ≡ v
  unfolding update
  update_self h a v = ground arith
