-- ===== src/Storage/RowKeys.antt =====
-- Rows of storage/channelrepo.go and producerrepo.go by their keys.
use mathlib.Core.Option
use webhook_broker.Base.{
  ◌≤◌, String, Bool, false, str_eq, eq_iff, if◌then◌else◌, Option, none, some, List, [], ◌∷◌, ◌++◌,
  ◌≡◌, refl, arith, inl, inr, Bool-cases,
}
use webhook_broker.Data.{Clock, MessageStakeholder, is_empty, channel_quick_fix, producer_quick_fix}
use webhook_broker.Storage.Tables.{count_where, update_where}
use webhook_broker.Storage.Stakeholders.{find_row, Kind, channel_kind, producer_kind}

-- What the stakeholders' kinds have in common.
pub record KindLaws {A : Type 0} (kind : Kind A) : Type 0 where
  pub key-with :
      (s : MessageStakeholder) (a : A) → kind.key (kind.with_stakeholder s a) ≡ kind.key a
  pub stakeholder-with :
      (s : MessageStakeholder) (a : A) → kind.stakeholder (kind.with_stakeholder s a) ≡ s
  pub key-quick_fix :
      (now : Clock) (fresh : String) (a : A) → kind.key (kind.quick_fix now fresh a) ≡ kind.key a
  pub token-quick_fix :
      (now : Clock) (fresh : String) (a : A)
      → (kind.stakeholder (kind.quick_fix now fresh a)).token ≡ (kind.stakeholder a).token
  pub name-quick_fix :
      (now : Clock) (fresh : String) (a : A)
      → is_empty (kind.stakeholder a).name ≡ false
      → (kind.stakeholder (kind.quick_fix now fresh a)).name ≡ (kind.stakeholder a).name

abbrev pub channel_laws : KindLaws channel_kind
unfolding channel_quick_fix
channel_laws = record {
  key-with = λ s a. refl;
  stakeholder-with = λ s a. refl;
  key-quick_fix = λ now fresh a. refl;
  token-quick_fix = λ now fresh a. refl;
  name-quick_fix = λ now fresh a h. rw h refl;
}

abbrev pub producer_laws : KindLaws producer_kind
unfolding producer_quick_fix
producer_laws = record {
  key-with = λ s a. refl;
  stakeholder-with = λ s a. refl;
  key-quick_fix = λ now fresh a. refl;
  token-quick_fix = λ now fresh a. refl;
  name-quick_fix = λ now fresh a h. rw h refl;
}

module _ {A : Type 0} (kind : Kind A) (laws : KindLaws kind) (like : String → String → Bool) where
  abbrev pub keyed : String → A → Bool
  keyed k a = str_eq (kind.key a) k

  -- The row of a key.
  abbrev pub row_of : String → List A → Option A
  row_of k rows = find_row (keyed k) rows

  -- UNIQUE of the key
  abbrev pub UniqueKeys : List A → Type 0
  UniqueKeys rows = (k : String) → count_where (keyed k) rows ≤ 1

  pub row_of-update :
      (j k : String) (f : A → A)
      → ((a : A) → kind.key (f a) ≡ kind.key a)
      → (rows : List A)
      → row_of k (update_where (keyed j) f rows)
        ≡ (if str_eq j k then Option.map f (row_of k rows) else row_of k rows)
  unfolding find_row update_where
  row_of-update j k f same [] = ground arith
  row_of-update j k f same (a ∷ rest) = ground (
    arith,
    same a,
    row_of-update j k f same rest,
    eq_iff (kind.key a) j,
    eq_iff (kind.key a) k,
    eq_iff j k,
  )

  pub row_of-append :
      (k : String) (rows : List A) (a : A)
      → count_where (keyed k) rows ≡ 0
      → row_of k (rows ++ a ∷ []) ≡ (if keyed k a then some a else none)
  unfolding find_row count_where
  row_of-append k [] a h = refl
  row_of-append k (x ∷ xs) a h = elim (Bool-cases (keyed k x)) [
    | inl e ↦ absurd (ground arith)
    | inr e ↦ rw e (row_of-append k xs a (ground arith))
  ]

  pub row_of-append_other :
      (k : String) (rows : List A) (a : A)
      → keyed k a ≡ false
      → row_of k (rows ++ a ∷ []) ≡ row_of k rows
  unfolding find_row
  row_of-append_other k [] a h = rw h refl
  row_of-append_other k (x ∷ xs) a h = elim (Bool-cases (keyed k x)) [
    | inl e ↦ rw e refl
    | inr e ↦ rw e (row_of-append_other k xs a h)
  ]

  pub find_row_ext :
      (p q : A → Bool) (rows : List A) → ((x : A) → p x ≡ q x) → find_row p rows ≡ find_row q rows
  unfolding find_row
  find_row_ext p q [] h = refl
  find_row_ext p q (x ∷ xs) h = rw (h x, find_row_ext p q xs h) refl

  pub find_row-keyed :
      (k : String) (rows : List A) (a : A) → row_of k rows ≡ some a → kind.key a ≡ k
  unfolding find_row
  find_row-keyed k [] a h = absurd (ground arith)
  find_row-keyed k (x ∷ xs) a h = elim (Bool-cases (keyed k x)) [
    | inl e ↦ ground (arith, eq_iff (kind.key x) k)
    | inr e ↦ find_row-keyed k xs a (ground arith)
  ]
