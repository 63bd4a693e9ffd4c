-- ===== src/Storage/Pages.antt =====
-- The lists by page of storage/*.go: the clauses that storage/rdbms.go appends to a query, and the pages
-- that a list then gives. A row has its cursor, and `precedes` is the database's order of ids.
use webhook_broker.Base.{
  ℕ, zero, suc, Bool, true, ◌&&◌, ◌==◌, ltb, leb, if◌then◌else◌, Option, none, some, List, [], ◌∷◌,
  ◌++◌, take, keep_if, is_some,
}
use webhook_broker.Text.Strings.{Bytes}
use webhook_broker.Data.Cursors.{Cursor, Pagination}

-- The WHERE clause of getPaginationQueryFragmentWithConfigurablePageSizeWithAlias, with the arguments of
-- getPaginationTimestampQueryArgs.
abbrev pub after_next : (Bytes → Bytes → Bool) → Option Cursor → Cursor → Bool
after_next precedes none m = true
after_next precedes (some c) m = precedes m.id c.id && leb m.timestamp c.timestamp

abbrev pub before_previous : (Bytes → Bytes → Bool) → Option Cursor → Cursor → Bool
before_previous precedes none m = true
before_previous precedes (some c) m = precedes c.id m.id && leb c.timestamp m.timestamp

abbrev pub last_row {ℓ} : {A : Type ℓ} → A → List A → A
last_row x [] = x
last_row x (y ∷ ys) = last_row y ys

module _ {ℓ} {A : Type ℓ} (precedes : Bytes → Bytes → Bool) (cursor : A → Cursor) where
  unfoldable pub in_page : Pagination → A → Bool
  in_page p x =
      after_next precedes p.next (cursor x) && before_previous precedes p.previous (cursor x)

  -- ORDER BY createdAt desc, id desc
  abbrev pub later : A → A → Bool
  later x y =
      if (cursor x).timestamp == (cursor y).timestamp
      then precedes (cursor y).id (cursor x).id
      else ltb (cursor y).timestamp (cursor x).timestamp

  unfoldable pub insert_row : A → List A → List A
  insert_row x [] = x ∷ []
  insert_row x (y ∷ ys) = let below = insert_row x ys in if later y x then y ∷ below else x ∷ y ∷ ys

  unfoldable pub order_rows : List A → List A
  unfolding insert_row
  order_rows [] = []
  order_rows (x ∷ xs) = insert_row x (order_rows xs)

  -- LIMIT
  unfoldable pub rows_of_page : ℕ → Pagination → List A → List A
  unfolding in_page order_rows
  rows_of_page limit p rows = take limit (order_rows (keep_if (in_page p) rows))

  -- The pagination that a list gives with its rows.
  abbrev pub around : List A → Pagination
  around [] = record { next = none; previous = none }
  around (x ∷ xs) = record { next = some (cursor (last_row x xs)); previous = some (cursor x) }

  -- GetList, on a database that answers: `none` is ErrPaginationDeadlock.
  unfoldable pub get_list : ℕ → Pagination → List A → Option (List A × Pagination)
  unfolding rows_of_page
  get_list limit p rows =
      if is_some p.next && is_some p.previous
      then none
      else (let page = rows_of_page limit p rows in some (page, around page))

  -- A client that follows the links to the next page, so many at most, until a page is empty.
  unfoldable pub walk : ℕ → ℕ → Option Cursor → List A → List A
  unfolding get_list
  walk limit zero from rows = []
  walk limit (suc fuel) from rows =
      elim (get_list limit (record { next = from; previous = none }) rows) [
        | none ↦ []
        | some (page, links) ↦ elim page [
          | [] ↦ []
          | x ∷ xs ↦ (x ∷ xs) ++ walk limit fuel links.next rows
        ]
      ]
