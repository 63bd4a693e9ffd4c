-- ===== src/Storage/Counts.antt =====
-- Counting the rows that pass a test, through each kind of statement.
use webhook_broker.Base.{
  ℕ, zero, suc, ◌+◌, ◌≤◌, inl, inr, Bool, true, false, ◌&&◌, not, some, List, [], ◌∷◌, ◌++◌, map,
  keep_if, take, ◌≡◌, refl, arith, Option-cases,
}
use webhook_broker.Storage.Tables.{
  JobRow, ParkedRow, Tables, count_where, delete_where, update_where,
}
use webhook_broker.Storage.Rows.{insert_job, insert_jobs, insert_parked, insert_all_parked}
use webhook_broker.Storage.Parking.{insert_ordered, order_rows}

module _ {ℓ} {A : Type ℓ} where
  pub count_append :
      (p : A → Bool) (xs ys : List A)
      → count_where p (xs ++ ys) ≡ count_where p xs + count_where p ys
  unfolding count_where
  count_append p [] ys = omega arith
  count_append p (x ∷ xs) ys = ground (arith, count_append p xs ys)

  pub count_keep_if :
      (p q : A → Bool) (xs : List A)
      → count_where p (keep_if q xs) ≡ count_where (λ x. q x && p x) xs
  unfolding count_where
  count_keep_if p q [] = refl
  count_keep_if p q (x ∷ xs) = ground (arith, count_keep_if p q xs)

  pub count_take_le :
      (p : A → Bool) (n : ℕ) (xs : List A) → count_where p (take n xs) ≤ count_where p xs
  unfolding count_where
  count_take_le p zero xs = omega arith
  count_take_le p (suc n) [] = omega arith
  count_take_le p (suc n) (x ∷ xs) = ground (arith, count_take_le p n xs)

  -- The rows that a DELETE leaves and those that it takes.
  pub count_delete :
      (p q : A → Bool) (xs : List A)
      → count_where p (delete_where q xs) + count_where (λ x. q x && p x) xs ≡ count_where p xs
  unfolding count_where delete_where
  count_delete p q [] = refl
  count_delete p q (x ∷ xs) = ground (arith, count_delete p q xs)

  -- The rows that pass one test, by another.
  pub count_split :
      (p q : A → Bool) (xs : List A)
      → count_where (λ x. q x && p x) xs + count_where (λ x. q x && not (p x)) xs ≡ count_where q xs
  unfolding count_where
  count_split p q [] = refl
  count_split p q (x ∷ xs) = ground (arith, count_split p q xs)

  pub count_and_le :
      (p q : A → Bool) (xs : List A) → count_where (λ x. q x && p x) xs ≤ count_where p xs
  unfolding count_where
  count_and_le p q [] = omega arith
  count_and_le p q (x ∷ xs) = ground (arith, count_and_le p q xs)

  pub count_le :
      (p q : A → Bool)
      → ((x : A) → p x ≡ true → q x ≡ true)
      → (xs : List A) → count_where p xs ≤ count_where q xs
  unfolding count_where
  count_le p q e [] = omega arith
  count_le p q e (x ∷ xs) = ground (arith, e x, count_le p q e xs)

  -- A test that is stronger and passes as often passes the same rows.
  pub count_squeeze :
      (p q r : A → Bool)
      → ((x : A) → p x ≡ true → q x ≡ true)
      → (xs : List A) → count_where q xs ≤ count_where p xs
      → count_where (λ x. p x && r x) xs ≡ count_where (λ x. q x && r x) xs
  count_squeeze p q r e xs h = omega (
    arith,
    h,
    count_split r p xs,
    count_split r q xs,
    count_le (λ x. p x && r x) (λ x. q x && r x) (λ x t. ground (arith, e x)) xs,
    count_le (λ x. p x && not (r x)) (λ x. q x && not (r x)) (λ x t. ground (arith, e x)) xs,
  )

  -- Two tests that agree count the same.
  pub count_ext :
      (p q : A → Bool) → ((x : A) → p x ≡ q x) → (xs : List A) → count_where p xs ≡ count_where q xs
  unfolding count_where
  count_ext p q e [] = refl
  count_ext p q e (x ∷ xs) = ground (arith, e x, count_ext p q e xs)

  -- An UPDATE of rows that pass `q` to rows that do not pass `p`.
  pub count_update :
      (p q : A → Bool) (f : A → A)
      → ((x : A) → p (f x) ≡ false)
      → (xs : List A)
      → count_where p (update_where q f xs) + count_where (λ x. q x && p x) xs ≡ count_where p xs
  unfolding count_where update_where
  count_update p q f e [] = refl
  count_update p q f e (x ∷ xs) = ground (arith, e x, count_update p q f e xs)

  -- An UPDATE keeps the rows of a test that its condition excludes.
  pub count_update_le :
      (p q : A → Bool) (f : A → A)
      → ((x : A) → q x ≡ true → p x ≡ true → p (f x) ≡ true)
      → (xs : List A) → count_where p xs ≤ count_where p (update_where q f xs)
  unfolding count_where update_where
  count_update_le p q f e [] = omega arith
  count_update_le p q f e (x ∷ xs) = ground (arith, e x, count_update_le p q f e xs)

  -- An UPDATE keeps a test that does not read what it sets.
  pub count_update_same :
      (p q : A → Bool) (f : A → A)
      → ((x : A) → p (f x) ≡ p x)
      → (xs : List A) → count_where p (update_where q f xs) ≡ count_where p xs
  unfolding count_where update_where
  count_update_same p q f e [] = refl
  count_update_same p q f e (x ∷ xs) = ground (arith, e x, count_update_same p q f e xs)

  pub count_delete_le :
      (p q : A → Bool)
      → ((x : A) → q x ≡ true → p x ≡ false)
      → (xs : List A) → count_where p xs ≤ count_where p (delete_where q xs)
  unfolding count_where delete_where
  count_delete_le p q e [] = omega arith
  count_delete_le p q e (x ∷ xs) = ground (arith, e x, count_delete_le p q e xs)

pub count_map {ℓ κ} :
    {A : Type ℓ} {B : Type κ} (p : B → Bool) (f : A → B) (xs : List A)
    → count_where p (map f xs) ≡ count_where (λ x. p (f x)) xs
unfolding count_where
count_map p f [] = refl
count_map p f (x ∷ xs) = ground (arith, count_map p f xs)

pub count_order_rows :
    (p : ParkedRow → Bool) (rows : List ParkedRow)
    → count_where p (order_rows rows) ≡ count_where p rows
unfolding count_where order_rows
count_order_rows p [] = refl
count_order_rows p (r ∷ rs) = ground (arith, inserted r (order_rows rs), count_order_rows p rs)
  where
    inserted :
        (r : ParkedRow) (qs : List ParkedRow)
        → count_where p (insert_ordered r qs) ≡ count_where p (r ∷ qs)
    inserted r [] = refl
    inserted r (q ∷ qs) = ground (arith, inserted r qs)

pub count_insert_jobs :
    (p : JobRow → Bool) (rs rows rows' : List JobRow)
    → insert_jobs rs rows ≡ some rows'
    → count_where p rows' ≡ count_where p rows + count_where p rs
unfolding insert_jobs insert_job count_where
count_insert_jobs p [] rows rows' h = ground arith
count_insert_jobs p (r ∷ rs) rows rows' h = elim (Option-cases (insert_job r rows)) [
  | inl e ↦ ground arith
  | inr (mid, e) ↦ ground (arith, count_insert_jobs p rs mid rows', count_append p rows (r ∷ []))
]

-- INSERT INTO job_parking changes no other table, and adds the rows, each with its own seq.
pub count_insert_parked :
    (p : ParkedRow → Bool)
    → ((r : ParkedRow) (n : ℕ) → p (record r { seq = n }) ≡ p r)
    → (rs : List ParkedRow) (t t' : Tables) → insert_all_parked rs t ≡ some t'
    → (t'.job ≡ t.job)
      × (count_where p t'.job_parking ≡ count_where p t.job_parking + count_where p rs)
unfolding insert_all_parked insert_parked count_where
count_insert_parked p seqless [] t t' h = (ground arith, ground arith)
count_insert_parked p seqless (r ∷ rs) t t' h = elim (Option-cases (insert_parked r t)) [
  | inl e ↦ ground arith
  | inr (mid, e) ↦
      let ih = count_insert_parked p seqless rs mid t' (ground arith) in
      let row = record r { seq = t.next_seq } in
      (
        ground (arith, ih.0),
        ground (arith, ih.1, count_append p t.job_parking (row ∷ []), seqless r t.next_seq),
      )
]
