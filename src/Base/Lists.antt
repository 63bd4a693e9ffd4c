-- ===== src/Base/Lists.antt =====
-- Lists measured and indexed by native numbers, under the library's names.
use Prim.Native.Nat.{ℕ, zero, suc, ◌+◌, ◌≤◌, ◌<◌}
use mathlib.Core.Path.{◌≡◌, refl, ap}
use mathlib.Core.Bool.{Bool, true, false, ◌&&◌, ◌||◌, not}
use mathlib.Core.Logic.{◌⊎◌, inl, inr}
use mathlib.Core.Option.{Option, none, some}
use mathlib.Core.List.{List, [], ◌∷◌, ◌++◌}
use native.Mathlib.Omega.{arith}
use webhook_broker.Base.Tests.{◌==◌, if◌then◌else◌, Bool-cases}

module _ {ℓ} {A : Type ℓ} where
  abbrev pub length : List A → ℕ
  length [] = 0
  length (x ∷ xs) = suc (length xs)

  abbrev pub get_elem? : List A → ℕ → Option A
  get_elem? [] i = none
  get_elem? (x ∷ xs) zero = some x
  get_elem? (x ∷ xs) (suc i) = get_elem? xs i

  -- The list without its element at an index.
  abbrev pub erase_at : List A → ℕ → List A
  erase_at [] i = []
  erase_at (x ∷ xs) zero = xs
  erase_at (x ∷ xs) (suc i) = x ∷ erase_at xs i

  abbrev pub keep_if : (A → Bool) → List A → List A
  keep_if p [] = []
  keep_if p (x ∷ xs) = let rest = keep_if p xs in if p x then x ∷ rest else rest

  abbrev pub take : ℕ → List A → List A
  take zero xs = []
  take (suc n) [] = []
  take (suc n) (x ∷ xs) = x ∷ take n xs

  abbrev pub drop : ℕ → List A → List A
  drop zero xs = xs
  drop (suc n) [] = []
  drop (suc n) (x ∷ xs) = drop n xs

  -- Every element satisfies the predicate.
  abbrev pub All {κ} : (A → Type κ) → List A → Type κ
  All P [] = Unit
  All P (x ∷ xs) = P x × All P xs

  pub All-append {κ} : (P : A → Type κ) (xs ys : List A) → All P xs → All P ys → All P (xs ++ ys)
  All-append P [] ys a b = b
  All-append P (x ∷ xs) ys a b = (a.0, All-append P xs ys a.1 b)

  pub All-keep_if {κ} :
      (P : A → Type κ) (p : A → Bool) (xs : List A) → All P xs → All P (keep_if p xs)
  All-keep_if P p [] h = tt
  All-keep_if P p (x ∷ xs) h = elim (Bool-cases (p x)) [
    | inl e ↦ rw e (h.0, All-keep_if P p xs h.1)
    | inr e ↦ rw e (All-keep_if P p xs h.1)
  ]

  pub keep_if_ext :
      (p q : A → Bool) (xs : List A) → All (λ x. p x ≡ q x) xs → keep_if p xs ≡ keep_if q xs
  keep_if_ext p q [] h = refl
  keep_if_ext p q (x ∷ xs) h = rw (h.0, keep_if_ext p q xs h.1) refl

  pub append-take-drop : (n : ℕ) (xs : List A) → take n xs ++ drop n xs ≡ xs
  append-take-drop zero xs = refl
  append-take-drop (suc n) [] = refl
  append-take-drop (suc n) (x ∷ xs) = ap (λ ys. x ∷ ys) (append-take-drop n xs)

  pub length-drop-le : (n : ℕ) (xs : List A) → length (drop n xs) ≤ length xs
  length-drop-le zero xs = omega arith
  length-drop-le (suc n) [] = omega arith
  length-drop-le (suc n) (x ∷ xs) = omega (arith, length-drop-le n xs)

  pub List-cases : (xs : List A) → (xs ≡ []) ⊎ ((x : A) × (ys : List A) × (xs ≡ x ∷ ys))
  List-cases [] = inl refl
  List-cases (x ∷ xs) = inr (x, xs, refl)

  pub length-append : (xs ys : List A) → length (xs ++ ys) ≡ length xs + length ys
  length-append [] ys = omega arith
  length-append (x ∷ xs) ys = omega (arith, length-append xs ys)

  pub length-take-le : (n : ℕ) (xs : List A) → length (take n xs) ≤ n
  length-take-le zero xs = omega arith
  length-take-le (suc n) [] = omega arith
  length-take-le (suc n) (x ∷ xs) = omega (arith, length-take-le n xs)

-- Lists of addresses.
abbrev pub member : ℕ → List ℕ → Bool
member a [] = false
member a (x ∷ xs) = (a == x) || member a xs

abbrev pub Distinct : List ℕ → Type 0
Distinct [] = Unit
Distinct (x ∷ xs) = (member x xs ≡ false) × Distinct xs

pub member-append : (a : ℕ) (xs ys : List ℕ) → member a (xs ++ ys) ≡ (member a xs || member a ys)
member-append a [] ys = refl
member-append a (x ∷ xs) ys = ground (arith, member-append a xs ys)

pub Distinct-snoc :
    (a : ℕ) (xs : List ℕ) → Distinct xs → member a xs ≡ false → Distinct (xs ++ a ∷ [])
Distinct-snoc a [] d h = (refl, tt)
Distinct-snoc a (x ∷ xs) d h =
    (ground (arith, member-append x xs (a ∷ [])), Distinct-snoc a xs d.1 (ground arith))

-- Where an index falls in a list with one more element at its end.
module _ {ℓ} {A : Type ℓ} where
  pub get_elem?-append :
      (xs ys : List A) (i : ℕ) (a : A)
      → get_elem? xs i ≡ some a
      → (get_elem? (xs ++ ys) i ≡ some a) × (i < length xs)
  get_elem?-append [] ys i a e = cc
  get_elem?-append (x ∷ xs) ys zero a e = (e, omega arith)
  get_elem?-append (x ∷ xs) ys (suc i) a e =
      let (r, lt) = get_elem?-append xs ys i a e in (r, omega arith)

  pub get_elem?-length : (xs : List A) (a : A) → get_elem? (xs ++ a ∷ []) (length xs) ≡ some a
  get_elem?-length [] a = refl
  get_elem?-length (x ∷ xs) a = get_elem?-length xs a

  pub get_elem?-snoc :
      (xs : List A) (a : A) (i : ℕ) (b : A)
      → get_elem? (xs ++ a ∷ []) i ≡ some b
      → ((get_elem? xs i ≡ some b) × (i < length xs)) ⊎ ((i ≡ length xs) × (a ≡ b))
  get_elem?-snoc [] a zero b e = inr (refl, cc)
  get_elem?-snoc [] a (suc i) b e = cc
  get_elem?-snoc (x ∷ xs) a zero b e = inl (e, omega arith)
  get_elem?-snoc (x ∷ xs) a (suc i) b e = elim (get_elem?-snoc xs a i b e) [
    | inl (r, lt) ↦ inl (r, omega arith)
    | inr (r, same) ↦ inr (omega arith, same)
  ]

-- Membership after a filter, and after the element at an index is taken out.
pub member-keep_if :
    (p : ℕ → Bool) (a : ℕ) (xs : List ℕ) → member a (keep_if p xs) ≡ (member a xs && p a)
member-keep_if p a [] = refl
member-keep_if p a (x ∷ xs) = ground (arith, member-keep_if p a xs)

pub Distinct-keep_if : (p : ℕ → Bool) (xs : List ℕ) → Distinct xs → Distinct (keep_if p xs)
Distinct-keep_if p [] d = tt
Distinct-keep_if p (x ∷ xs) d = ground (arith, member-keep_if p x xs, Distinct-keep_if p xs d.1)

pub member-get_elem? : (xs : List ℕ) (i a : ℕ) → get_elem? xs i ≡ some a → member a xs ≡ true
member-get_elem? [] i a e = cc
member-get_elem? (x ∷ xs) zero a e = ground arith
member-get_elem? (x ∷ xs) (suc i) a e = ground (arith, member-get_elem? xs i a)

pub get_elem?-of-member :
    (xs : List ℕ) (a : ℕ) → member a xs ≡ true → (i : ℕ) × (get_elem? xs i ≡ some a)
get_elem?-of-member [] a m = cc
get_elem?-of-member (x ∷ xs) a m = elim (Bool-cases (a == x)) [
  | inl e ↦ (zero, ground arith)
  | inr n ↦ let (i, e) = get_elem?-of-member xs a (ground arith) in (suc i, e)
]

pub member-erase_at :
    (xs : List ℕ) (i a b : ℕ)
    → Distinct xs
    → get_elem? xs i ≡ some a
    → member b (erase_at xs i) ≡ (member b xs && not (a == b))
member-erase_at [] i a b d e = cc
member-erase_at (x ∷ xs) zero a b d e = ground arith
member-erase_at (x ∷ xs) (suc i) a b d e =
    ground (arith, member-erase_at xs i a b d.1 e, member-get_elem? xs i a)

member-erase_at-false :
    (xs : List ℕ) (i b : ℕ) → member b xs ≡ false → member b (erase_at xs i) ≡ false
member-erase_at-false [] i b m = refl
member-erase_at-false (x ∷ xs) zero b m = ground arith
member-erase_at-false (x ∷ xs) (suc i) b m = ground (arith, member-erase_at-false xs i b)

pub Distinct-erase_at : (xs : List ℕ) (i : ℕ) → Distinct xs → Distinct (erase_at xs i)
Distinct-erase_at [] i d = tt
Distinct-erase_at (x ∷ xs) zero d = d.1
Distinct-erase_at (x ∷ xs) (suc i) d =
    (member-erase_at-false xs i x d.0, Distinct-erase_at xs i d.1)
