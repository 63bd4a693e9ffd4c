-- ===== src/Storage/Ranks.antt =====
-- Lists sorted by a falling rank, and what stays of them below one: for the pages of storage/rdbms.go.
use webhook_broker.Base.{
  ℕ, zero, suc, ◌≤◌, ◌<◌, Bool, true, false, ltb, if◌then◌else◌, List, [], ◌∷◌, ◌++◌, take, drop,
  keep_if, length, All, ◌≡◌, refl, ap, sym, ◌∙◌, ◌≢◌, arith, Bool-cases, inl, inr,
}
use webhook_broker.Storage.Tables.{count_where}
use webhook_broker.Storage.Pages.{last_row}

module _ {ℓ} {A : Type ℓ} (rank : A → ℕ) where
  -- Sorting by falling rank.
  unfoldable pub rank_insert : A → List A → List A
  rank_insert x [] = x ∷ []
  rank_insert x (y ∷ ys) =
      let below = rank_insert x ys in if ltb (rank x) (rank y) then y ∷ below else x ∷ y ∷ ys

  unfoldable pub by_rank : List A → List A
  unfolding rank_insert
  by_rank [] = []
  by_rank (x ∷ xs) = rank_insert x (by_rank xs)

  abbrev pub below : ℕ → A → Bool
  below k x = ltb (rank x) k

  abbrev pub Falling : List A → Type 0
  Falling [] = Unit
  Falling (x ∷ xs) = All (λ y. rank y < rank x) xs × Falling xs

  -- No two rows have one rank.
  abbrev pub Apart : List A → Type 0
  Apart [] = Unit
  Apart (x ∷ xs) = All (λ y. rank x ≢ rank y) xs × Apart xs

  module _ {κ} (P : A → Type κ) where
    pub All-rank_insert : (x : A) (ys : List A) → P x → All P ys → All P (rank_insert x ys)
    unfolding rank_insert
    All-rank_insert x [] a b = (a, tt)
    All-rank_insert x (y ∷ ys) a b = elim (Bool-cases (ltb (rank x) (rank y))) [
      | inl e ↦ rw e (b.0, All-rank_insert x ys a b.1)
      | inr e ↦ rw e (a, b)
    ]

    pub All-by_rank : (xs : List A) → All P xs → All P (by_rank xs)
    unfolding by_rank
    All-by_rank [] h = tt
    All-by_rank (x ∷ xs) h = All-rank_insert x (by_rank xs) h.0 (All-by_rank xs h.1)

  All-lower : (a b : ℕ) (ys : List A) → a ≤ b → All (λ y. rank y < a) ys → All (λ y. rank y < b) ys
  All-lower a b [] le h = tt
  All-lower a b (y ∷ ys) le h = (omega arith, All-lower a b ys le h.1)

  rank_insert-Falling :
      (x : A) (ys : List A)
      → All (λ y. rank x ≢ rank y) ys
      → Falling ys
      → Falling (rank_insert x ys)
  unfolding rank_insert
  rank_insert-Falling x [] apart h = (tt, tt)
  rank_insert-Falling x (y ∷ ys) apart h = elim (Bool-cases (ltb (rank x) (rank y))) [
    | inl e ↦ rw e (
      All-rank_insert (λ z. rank z < rank y) x ys (ground arith) h.0,
      rank_insert-Falling x ys apart.1 h.1,
    )
    | inr e ↦
        let lt : rank y < rank x = ground (arith, apart.0) in
        rw e ((lt, All-lower (rank y) (rank x) ys (omega arith) h.0), h)
  ]

  pub by_rank-Falling : (xs : List A) → Apart xs → Falling (by_rank xs)
  unfolding by_rank
  by_rank-Falling [] h = tt
  by_rank-Falling (x ∷ xs) h =
      rank_insert-Falling x (by_rank xs) (All-by_rank (λ y. rank x ≢ rank y) xs h.0)
        (by_rank-Falling xs h.1)

  keep_if-rank_insert :
      (k : ℕ) (x : A) (ys : List A)
      → keep_if (below k) (rank_insert x ys)
        ≡ (if below k x then rank_insert x (keep_if (below k) ys) else keep_if (below k) ys)
  unfolding rank_insert
  keep_if-rank_insert k x [] = refl
  keep_if-rank_insert k x (y ∷ ys) = elim (Bool-cases (ltb (rank x) (rank y))) [
    | inl under ↦ elim (Bool-cases (below k y)) [
      | inl kept ↦
          let low : below k x ≡ true = ground arith in
          let ih = keep_if-rank_insert k x ys in rw (under, kept, ih, low, under) refl
      | inr lost ↦ rw (under, lost) (keep_if-rank_insert k x ys)
    ]
    | inr over ↦ elim (Bool-cases (below k x)) [
      | inl low ↦ let kept : below k y ≡ true = ground arith in rw (over, low, kept, over) refl
      | inr high ↦ rw (over, high) refl
    ]
  ]

  pub keep_if-by_rank :
      (k : ℕ) (xs : List A) → by_rank (keep_if (below k) xs) ≡ keep_if (below k) (by_rank xs)
  unfolding by_rank
  keep_if-by_rank k [] = refl
  keep_if-by_rank k (x ∷ xs) = elim (Bool-cases (below k x)) [
    | inl low ↦ rw low (
        ap (rank_insert x) (keep_if-by_rank k xs)
        ∙ sym (keep_if-rank_insert k x (by_rank xs) ∙ rw low refl))
    | inr high ↦
        rw high (keep_if-by_rank k xs ∙ sym (keep_if-rank_insert k x (by_rank xs) ∙ rw high refl))
  ]

  last_row-le :
      (n : ℕ) (x : A) (xs : List A) → Falling (x ∷ xs) → rank (last_row x (take n xs)) ≤ rank x
  last_row-le zero x xs h = omega arith
  last_row-le (suc n) x [] h = omega arith
  last_row-le (suc n) x (y ∷ ys) h = omega (arith, last_row-le n y ys h.1, h.0.0)

  All-below : (k : ℕ) (xs : List A) → All (λ y. rank y < k) xs → keep_if (below k) xs ≡ xs
  All-below k [] h = refl
  All-below k (x ∷ xs) h =
      let low : below k x ≡ true = ground arith in rw (low, All-below k xs h.1) refl

  rows_below :
      (n : ℕ) (x : A) (xs : List A)
      → Falling (x ∷ xs)
      → keep_if (below (rank (last_row x (take n xs)))) (x ∷ xs) ≡ drop n xs
  rows_below zero x xs h =
      let high : below (rank x) x ≡ false = ground arith in rw high (All-below (rank x) xs h.0)
  rows_below (suc n) x [] h = let high : below (rank x) x ≡ false = ground arith in rw high refl
  rows_below (suc n) x (y ∷ ys) h =
      let k = rank (last_row y (take n ys)) in
      let le = last_row-le n y ys h.1 in
      let high : below k x ≡ false = ground (arith, le, h.0.0) in rw high (rows_below n y ys h.1)

  -- Below the last row of a page are the rows after it.
  pub rows_after :
      (n : ℕ) (before : List A) (x : A) (xs : List A)
      → Falling (before ++ x ∷ xs)
      → keep_if (below (rank (last_row x (take n xs)))) (before ++ x ∷ xs) ≡ drop n xs
  rows_after n [] x xs h = rows_below n x xs h
  rows_after n (b ∷ bs) x xs h =
      let le = last_row-le n x xs (tail bs h.1) in
      let k = rank (last_row x (take n xs)) in
      let high : below k b ≡ false = ground (arith, le, middle bs h.0) in
      rw high (rows_after n bs x xs h.1)
    where
      tail : (bs : List A) → Falling (bs ++ x ∷ xs) → Falling (x ∷ xs)
      tail [] f = f
      tail (c ∷ cs) f = tail cs f.1

      middle : (bs : List A) → All (λ y. rank y < rank b) (bs ++ x ∷ xs) → rank x < rank b
      middle [] f = f.0
      middle (c ∷ cs) f = middle cs f.1

  count_where-rank_insert :
      (p : A → Bool) (x : A) (xs : List A)
      → count_where p (rank_insert x xs) ≡ count_where p (x ∷ xs)
  unfolding rank_insert count_where
  count_where-rank_insert p x [] = refl
  count_where-rank_insert p x (y ∷ ys) = ground (arith, count_where-rank_insert p x ys)

  pub count_where-by_rank :
      (p : A → Bool) (xs : List A) → count_where p (by_rank xs) ≡ count_where p xs
  unfolding by_rank count_where
  count_where-by_rank p [] = refl
  count_where-by_rank p (x ∷ xs) =
      ground (arith, count_where-rank_insert p x (by_rank xs), count_where-by_rank p xs)

  length_count : (xs : List A) → count_where (λ (x : A). true) xs ≡ length xs
  unfolding count_where
  length_count [] = refl
  length_count (x ∷ xs) = ap suc (length_count xs)

  pub length-by_rank : (xs : List A) → length (by_rank xs) ≡ length xs
  length-by_rank xs =
      sym (length_count (by_rank xs)) ∙ count_where-by_rank (λ (x : A). true) xs ∙ length_count xs
