-- ===== src/Storage/Walking.antt =====
-- The pages of storage/rdbms.go cover a list: a client that follows the links to the next page.
use mathlib.Core.List.{append_assoc}
use webhook_broker.Base.{
  ℕ, zero, suc, ◌≤◌, ◌<◌, Bool, true, ltb, leb, Option, none, some, List, [], ◌∷◌, ◌++◌, take, drop,
  keep_if, length, All, All-keep_if, keep_if_ext, append-take-drop, length-drop-le, ◌≡◌, refl, ap,
  sym, ◌∙◌, subst, arith, Bool-cases, inl, inr,
}
use webhook_broker.Text.Strings.{Bytes}
use webhook_broker.Data.Cursors.{Cursor, Pagination}
use webhook_broker.Storage.Tables.{count_where}
use webhook_broker.Storage.Pages.{
  in_page, later, insert_row, order_rows, rows_of_page, last_row, around, get_list, walk,
}
use webhook_broker.Storage.Ranks.{
  rank_insert, by_rank, below, Falling, Apart, All-by_rank, by_rank-Falling, keep_if-by_rank,
  rows_after, length-by_rank, count_where-by_rank,
}

module _ {ℓ} {A : Type ℓ} (precedes : Bytes → Bytes → Bool) (cursor : A → Cursor)
    (rank : A → ℕ) where
  -- The order of the ids and of the times is that of the ranks.
  abbrev pub Ordered : A → A → Type 0
  Ordered x y =
      (precedes (cursor x).id (cursor y).id ≡ ltb (rank x) (rank y))
      × (rank x ≤ rank y → (cursor x).timestamp ≤ (cursor y).timestamp)

  abbrev pub Aligned : A → A → Type 0
  Aligned x y = Ordered x y × Ordered y x

  later_lem : (x y : A) → Aligned x y → later precedes cursor y x ≡ ltb (rank x) (rank y)
  later_lem x y h = elim (Bool-cases (leb (rank x) (rank y))) [
    | inl le ↦ let at_most = h.0.1 (ground arith) in ground (arith, h.0.0, at_most, h.1.1)
    | inr gt ↦ let at_least = h.1.1 (ground arith) in ground (arith, h.0.0, at_least)
  ]

  insert_row-rank_insert :
      (x : A) (ys : List A)
      → All (Aligned x) ys
      → insert_row precedes cursor x ys ≡ rank_insert rank x ys
  unfolding insert_row rank_insert
  insert_row-rank_insert x [] h = refl
  insert_row-rank_insert x (y ∷ ys) h = rw (later_lem x y h.0, insert_row-rank_insert x ys h.1) refl

  abbrev pub AllAligned : List A → Type 0
  AllAligned rows = All (λ x. All (Aligned x) rows) rows

  drop_one :
      (x : A) (xs ys : List A)
      → All (λ y. All (Aligned y) (x ∷ ys)) xs
      → All (λ y. All (Aligned y) ys) xs
  drop_one x [] ys h = tt
  drop_one x (z ∷ zs) ys h = (h.0.1, drop_one x zs ys h.1)

  order_rows-by_rank :
      (xs : List A) → AllAligned xs → order_rows precedes cursor xs ≡ by_rank rank xs
  unfolding order_rows by_rank
  order_rows-by_rank [] h = refl
  order_rows-by_rank (x ∷ xs) h =
      rw (order_rows-by_rank xs (drop_one x xs xs h.1))
        (insert_row-rank_insert x (by_rank rank xs) (All-by_rank rank (Aligned x) xs h.0.1))

  abbrev pub following : Option Cursor → Pagination
  following c = record { next = c; previous = none }

  in_page_lem :
      (c m : A)
      → Aligned c m
      → in_page precedes cursor (following (some (cursor c))) m ≡ below rank (rank c) m
  unfolding in_page
  in_page_lem c m h = elim (Bool-cases (below rank (rank c) m)) [
    | inl low ↦
        let le = h.1.1 (ground arith) in
        let small : leb (cursor m).timestamp (cursor c).timestamp ≡ true = ground (arith, le) in
        rw (h.1.0, low, small) refl
    | inr high ↦ rw (h.1.0, high) refl
  ]

  in_pages :
      (c : A) (rows : List A)
      → All (Aligned c) rows
      → All
          (λ m. in_page precedes cursor (following (some (cursor c))) m ≡ below rank (rank c) m)
          rows
  in_pages c [] h = tt
  in_pages c (m ∷ ms) h = (in_page_lem c m h.0, in_pages c ms h.1)

  kept-Aligned :
      (p : A → Bool) (xs ys : List A)
      → All (λ x. All (Aligned x) ys) xs
      → All (λ x. All (Aligned x) (keep_if p ys)) xs
  kept-Aligned p [] ys h = tt
  kept-Aligned p (x ∷ xs) ys h = (All-keep_if (Aligned x) p ys h.0, kept-Aligned p xs ys h.1)

  AllAligned-keep_if : (p : A → Bool) (xs : List A) → AllAligned xs → AllAligned (keep_if p xs)
  AllAligned-keep_if p xs h =
      All-keep_if (λ x. All (Aligned x) (keep_if p xs)) p xs (kept-Aligned p xs xs h)

  last_row_of {κ} :
      (P : A → Type κ) (n : ℕ) (before : List A) (x : A) (xs : List A)
      → All P (before ++ x ∷ xs)
      → P (last_row x (take n xs))
  last_row_of P n (b ∷ bs) x xs h = last_row_of P n bs x xs h.1
  last_row_of P zero [] x xs h = h.0
  last_row_of P (suc n) [] x [] h = h.0
  last_row_of P (suc n) [] x (y ∷ ys) h = last_row_of P n [] y ys h.1

  module _ (rows : List A) (aligned : AllAligned rows) (apart : Apart rank rows) (n : ℕ) where
    -- What the query gives, without its limit.
    abbrev matched : Option Cursor → List A
    matched c = order_rows precedes cursor (keep_if (in_page precedes cursor (following c)) rows)

    matched_after :
        (c : A)
        → All (Aligned c) rows
        → matched (some (cursor c)) ≡ keep_if (below rank (rank c)) (by_rank rank rows)
    matched_after c h =
        ap (order_rows precedes cursor) (
          keep_if_ext (in_page precedes cursor (following (some (cursor c)))) (below rank (rank c))
            rows (in_pages c rows h))
        ∙ order_rows-by_rank (keep_if (below rank (rank c)) rows)
            (AllAligned-keep_if (below rank (rank c)) rows aligned)
        ∙ keep_if-by_rank rank (rank c) rows

    page_lem :
        (from : Option Cursor)
        → let page = take (suc n) (matched from) in
          get_list precedes cursor (suc n) (following from) rows
          ≡ some (page, around precedes cursor page)
    unfolding get_list rows_of_page
    page_lem none = refl
    page_lem (some c) = refl

    walk_from :
        (fuel : ℕ) (from : Option Cursor) (before rest : List A)
        → by_rank rank rows ≡ before ++ rest
        → matched from ≡ rest
        → length rest < fuel
        → walk precedes cursor (suc n) fuel from rows ≡ rest
    unfolding walk
    walk_from zero from before rest e found h = absurd (omega arith)
    walk_from (suc fuel) from before [] e found h = rw (walk, page_lem from, found) refl
    walk_from (suc fuel) from before (x ∷ xs) e found h =
        let c = last_row x (take n xs) in
        let falls = subst (Falling rank) e (by_rank-Falling rank rows apart) in
        let near =
          last_row_of (λ y. All (Aligned y) rows) n before x xs
            (subst (All (λ y. All (Aligned y) rows)) e
              (All-by_rank rank (λ y. All (Aligned y) rows) rows aligned)) in
        let next =
          matched_after c near
          ∙ ap (keep_if (below rank (rank c))) e
          ∙ rows_after rank n before x xs falls in
        let split : before ++ x ∷ xs ≡ (before ++ x ∷ take n xs) ++ drop n xs =
          ap (λ ys. before ++ x ∷ ys) (sym (append-take-drop n xs))
          ∙ sym (append_assoc before (x ∷ take n xs) (drop n xs)) in
        let ih =
          walk_from fuel (some (cursor c)) (before ++ x ∷ take n xs) (drop n xs) (e ∙ split) next
            (omega (arith, length-drop-le n xs)) in
        rw (walk, page_lem from, found) (rw (found, ih) (ap (λ ys. x ∷ ys) (append-take-drop n xs)))

    true_everywhere : (xs : List A) → keep_if (in_page precedes cursor (following none)) xs ≡ xs
    unfolding in_page
    true_everywhere [] = refl
    true_everywhere (x ∷ xs) = ap (λ ys. x ∷ ys) (true_everywhere xs)

    -- From the first page on, the links to the next page lead through every row once, by falling
    -- rank; with one request more than there are rows a page is empty.
    pub walk-by_rank :
        (fuel : ℕ)
        → length rows < fuel
        → (walk precedes cursor (suc n) fuel none rows ≡ by_rank rank rows)
          × Falling rank (by_rank rank rows)
          × ((p : A → Bool) → count_where p (by_rank rank rows) ≡ count_where p rows)
    walk-by_rank fuel h = (
      walk_from fuel none [] (by_rank rank rows) refl
          (ap (order_rows precedes cursor) (true_everywhere rows) ∙ order_rows-by_rank rows aligned)
          (omega (arith, length-by_rank rank rows)),
      by_rank-Falling rank rows apart,
      λ p. count_where-by_rank rank p rows,
    )
