-- ===== src/Storage/Storing.antt =====
-- Store of storage/channelrepo.go and producerrepo.go: what Get finds after it.
use webhook_broker.Base.{
  ℕ, String, Bool, true, false, ◌||◌, not, ◌==◌, str_eq, eq_iff, str_eq_refl, if◌then◌else◌, Option,
  none, some, List, [], ◌∷◌, ◌++◌, ◌≡◌, ◌⊎◌, refl, ap, sym, ◌∙◌, subst, arith, inl, inr, Bool-cases,
}
use webhook_broker.Data.{Clock, is_empty}
use webhook_broker.Storage.Tables.{count_where, update_where}
use webhook_broker.Storage.Transactions.{
  Error, db_error, duplicate_key, no_rows_updated, invalid_state_to_save, Database,
}
use webhook_broker.Storage.Counts.{count_append, count_le, count_update_same}
use webhook_broker.Storage.Stakeholders.{
  write_single, Kind, get_by_key, renamed, stored_row, same_row, update_row, insert_new, store,
}
use webhook_broker.Storage.RowKeys.{
  KindLaws, keyed, row_of, UniqueKeys, row_of-update, row_of-append, row_of-append_other,
  find_row_ext, find_row-keyed,
}

-- A write that fails changes no row, and one that succeeds is its statement, for one row.
pub write_single_cases {ℓ} :
    {A : Type ℓ} (db : Database) (statement : List A → Option (List A × ℕ)) (rows : List A)
    → let (rows', err) = write_single db statement rows in
      ((err ≡ none) × (statement rows ≡ some (rows', 1)))
      ⊎ ((e : Error) × (err ≡ some e) × (rows' ≡ rows))
unfolding write_single
write_single_cases {A = A} db statement rows = go (statement rows) refl
  where
    go :
        (o : Option (List A × ℕ))
        → statement rows ≡ o
        → let (rows', err) = write_single db statement rows in
          ((err ≡ none) × (statement rows ≡ some (rows', 1)))
          ⊎ ((e : Error) × (err ≡ some e) × (rows' ≡ rows))
    go o e = elim (Bool-cases (db.begin_fails || db.exec_fails 0)) [
      | inl broken ↦ inr (db_error, rw broken refl, rw broken refl)
      | inr works ↦ cases o e works
    ]
      where
        cases :
            (o' : Option (List A × ℕ))
            → statement rows ≡ o'
            → (db.begin_fails || db.exec_fails 0) ≡ false
            → let (rows', err) = write_single db statement rows in
              ((err ≡ none) × (statement rows ≡ some (rows', 1)))
              ⊎ ((x : Error) × (err ≡ some x) × (rows' ≡ rows))
        cases none f works = inr (duplicate_key, rw (works, f) refl, rw (works, f) refl)
        cases (some (rows', n)) f works = elim (Bool-cases (n == 1)) [
          | inl one ↦ elim (Bool-cases db.commit_fails) [
            | inl c ↦ inr (db_error, rw (works, f, one, c) refl, rw (works, f, one, c) refl)
            | inr c ↦ inl (rw (works, f, one, c) refl, ground (arith, works, f, one, c))
          ]
          | inr other ↦ inr (no_rows_updated, rw (works, f, other) refl, rw (works, f, other) refl)
        ]

-- An alternative that is known where a test fails.
pub unless {ℓ} : {P : Type ℓ} (b : Bool) → (b ≡ false → P) → (b ≡ true) ⊎ P
unless b h = elim (Bool-cases b) [ inl e ↦ inl e | inr e ↦ inr (h e) ]

pub otherwise {ℓ} : {P : Type ℓ} {b : Bool} → (b ≡ true) ⊎ P → b ≡ false → P
otherwise (inl e) h = absurd (ground arith)
otherwise (inr p) h = p

module _ {A : Type 0} (kind : Kind A) (laws : KindLaws kind) (like : String → String → Bool) where
  module _ (db : Database) (a : A) (rows : List A) where
    -- A time of a row is that of the object, or what the column keeps of it.
    abbrev KeptTime : ℕ → ℕ → Type 0
    KeptTime row given = (row ≡ given) ⊎ (row ≡ db.stored_time given)

    -- A row and the object that Store returns for it.
    abbrev pub RowFor : A → A → Type 0
    RowFor r b =
        let s = kind.stakeholder r in
        let o = kind.stakeholder b in
        (kind.key r ≡ kind.key b)
        × (s.base.id ≡ o.base.id)
        × (s.name ≡ o.name)
        × (s.token ≡ o.token)
        × KeptTime s.base.created_at o.base.created_at
        × KeptTime s.base.updated_at o.base.updated_at

    -- The other keys' rows stay, keys stay unique, and the write either did what it was asked to or
    -- changed nothing.
    abbrev pub Stored : List A → A → Option Error → Type 0
    Stored rows' b err =
        ((k : String)
          → (str_eq (kind.key a) k ≡ true)
            ⊎ (row_of kind laws like k rows' ≡ row_of kind laws like k rows))
        × UniqueKeys kind laws like rows'
        × (((r : A) × (err ≡ none)
              × (row_of kind laws like (kind.key a) rows' ≡ some r)
              × RowFor r b
              × ((kind.stakeholder b).token ≡ (kind.stakeholder a).token)
              × ((is_empty (kind.stakeholder a).name ≡ true)
                  ⊎ ((kind.stakeholder b).name ≡ (kind.stakeholder a).name)))
            ⊎ ((e : Error) × (err ≡ some e) × (rows' ≡ rows)))

    unchanged :
        (rows' : List A) (b : A) (err : Option Error) (e : Error)
        → UniqueKeys kind laws like rows
        → err ≡ some e
        → rows' ≡ rows
        → Stored rows' b err
    unchanged rows' b err e unique failed same = (
      λ k. inr (ap (row_of kind laws like k) same),
      subst (UniqueKeys kind laws like) (sym same) unique,
      inr (e, failed, same),
    )

    -- A new row whose key no row has.
    appended :
        (fixed row : A)
        → kind.key fixed ≡ kind.key a
        → kind.key row ≡ kind.key fixed
        → count_where (same_row kind like fixed) rows ≡ 0
        → UniqueKeys kind laws like rows
        → ((k : String)
            → str_eq (kind.key a) k ≡ false
            → row_of kind laws like k (rows ++ row ∷ []) ≡ row_of kind laws like k rows)
          × UniqueKeys kind laws like (rows ++ row ∷ [])
          × (row_of kind laws like (kind.key a) (rows ++ row ∷ []) ≡ some row)
    unfolding count_where
    appended fixed row same_key row_key free unique =
        let none_of : (k : String)
            → keyed kind laws like k row ≡ true
            → count_where (keyed kind laws like k) rows ≡ 0 =
          λ k e. omega (
            arith,
            free,
            count_le (keyed kind laws like k) (same_row kind like fixed)
                (λ x h. ground (
                  arith,
                  eq_iff (kind.key x) k,
                  eq_iff (kind.key row) k,
                  row_key,
                  eq_iff (kind.key x) (kind.key fixed),
                ))
                rows,
          ) in
        (
          λ k h. row_of-append_other kind laws like k rows row (rw (row_key, same_key) h),
          λ k. elim (Bool-cases (keyed kind laws like k row)) [
            | inl e ↦
                ground
                  (arith, count_append (keyed kind laws like k) rows (row ∷ []), none_of k e, e)
            | inr e ↦
                ground (arith, count_append (keyed kind laws like k) rows (row ∷ []), unique k, e)
          ],
          (let own : keyed kind laws like (kind.key a) row ≡ true =
                rw (row_key, same_key) (str_eq_refl (kind.key a)) in
              row_of-append kind laws like (kind.key a) rows row (none_of (kind.key a) own)
              ∙ rw own refl),
        )

    inserted :
        (fixed : A) (rows' : List A)
        → if◌then◌else◌ {A = Option (List A × ℕ)}
            (count_where (same_row kind like fixed) rows == 0)
            (some (rows ++ stored_row kind like db fixed ∷ [], 1))
            none
          ≡ some (rows', 1)
        → (count_where (same_row kind like fixed) rows ≡ 0)
          × (rows' ≡ rows ++ stored_row kind like db fixed ∷ [])
    inserted fixed rows' did = ground arith

    insert_new-Stored :
        (now : Clock) (fresh : String)
        → UniqueKeys kind laws like rows
        → let (rows', b, err) = insert_new kind like db now fresh a rows in Stored rows' b err
    unfolding insert_new
    insert_new-Stored now fresh unique =
        let fixed = kind.quick_fix now fresh a in
        elim (Bool-cases (kind.is_valid fixed)) [
          | inr bad ↦ rw bad (
              unchanged rows fixed (some invalid_state_to_save) invalid_state_to_save unique refl
                refl)
          | inl good ↦
              let row = stored_row kind like db fixed in
              let statement = λ (rs : List A).
                (if count_where (same_row kind like fixed) rs == 0
                  then some (rs ++ stored_row kind like db fixed ∷ [], 1)
                  else none) in
              let w = write_single db statement rows in
              rw good (elim (write_single_cases db statement rows) [
                | inr (e, failed, same) ↦ unchanged w.0 fixed w.1 e unique failed same
                | inl (ok, did) ↦
                    let (free, grown) = inserted fixed w.0 did in
                    let (others, keys, own) =
                      appended fixed row (laws.key-quick_fix now fresh a) (laws.key-with _ fixed)
                        free unique in
                    let kept = laws.stakeholder-with _ fixed in
                    (
                      λ k. unless _ (λ h. ap (row_of kind laws like k) grown ∙ others k h),
                      subst (UniqueKeys kind laws like) (sym grown) keys,
                      inl (
                        row,
                        ok,
                        ap (row_of kind laws like (kind.key a)) grown ∙ own,
                        (
                          laws.key-with _ fixed,
                          ap (λ x. x.base.id) kept,
                          ap (λ x. x.name) kept,
                          ap (λ x. x.token) kept,
                          inr (ap (λ x. x.base.created_at) kept),
                          inr (ap (λ x. x.base.updated_at) kept),
                        ),
                        laws.token-quick_fix now fresh a,
                        unless _ (laws.name-quick_fix now fresh a),
                      ),
                    )
              ])
        ]

    update_row-Stored :
        (old : A) (now : ℕ)
        → row_of kind laws like (kind.key a) rows ≡ some old
        → UniqueKeys kind laws like rows
        → let s = kind.stakeholder a in
          let (rows', b, err) = update_row kind like db old s.name s.token now rows in
          Stored rows' b err
    unfolding update_row
    update_row-Stored old now found unique =
        let s = kind.stakeholder a in
        let mine = find_row-keyed kind laws like (kind.key a) rows old found in
        let f = renamed kind like s.name s.token (db.stored_time now) in
        let given = renamed kind like s.name s.token now old in
        let o = kind.stakeholder old in
        let of_row =
          laws.stakeholder-with
            (record o {
              name = s.name;
              token = s.token;
              base = record (o.base) { updated_at = db.stored_time now };
            })
            old in
        let of_object =
          laws.stakeholder-with
            (record o {
              name = s.name;
              token = s.token;
              base = record (o.base) { updated_at = now };
            })
            old in
        let p = keyed kind laws like (kind.key old) in
        let statement = λ (rs : List A). some (update_where p f rs, count_where p rs) in
        let w = write_single db statement rows in
        let keeps : (x : A) → kind.key (f x) ≡ kind.key x = λ x. laws.key-with _ x in
        elim (write_single_cases db statement rows) [
          | inr (e, failed, same) ↦ unchanged w.0 given w.1 e unique failed same
          | inl (ok, did) ↦
              let grown : w.0 ≡ update_where p f rows = ground arith in
              (
                λ k. unless _ (λ h.
                    ap (row_of kind laws like k) grown
                    ∙ row_of-update kind laws like (kind.key old) k f keeps rows
                    ∙ rw (mine, h) refl),
                subst (UniqueKeys kind laws like) (sym grown) (λ k.
                    rw
                      (count_update_same (keyed kind laws like k) p f
                        (λ x. ap (λ t. str_eq t k) (keeps x)) rows)
                      (unique k)),
                inl (
                  f old,
                  ok,
                  ap (row_of kind laws like (kind.key a)) grown
                      ∙ row_of-update kind laws like (kind.key old) (kind.key a) f keeps rows
                      ∙ rw (mine, str_eq_refl (kind.key a), found) refl,
                  (
                    laws.key-with _ old ∙ sym (laws.key-with _ old),
                    ap (λ x. x.base.id) of_row ∙ sym (ap (λ x. x.base.id) of_object),
                    ap (λ x. x.name) of_row ∙ sym (ap (λ x. x.name) of_object),
                    ap (λ x. x.token) of_row ∙ sym (ap (λ x. x.token) of_object),
                    inl (
                        ap (λ x. x.base.created_at) of_row
                        ∙ sym (ap (λ x. x.base.created_at) of_object)),
                    inr (
                        ap (λ x. x.base.updated_at) of_row
                        ∙ sym (ap (λ x. db.stored_time x.base.updated_at) of_object)),
                  ),
                  ap (λ t. t.token) (laws.stakeholder-with _ old),
                  inr (ap (λ t. t.name) (laws.stakeholder-with _ old)),
                ),
              )
        ]

    get_by_key-some :
        (query_fails : Bool) (old : A)
        → ((x : String) → like x (kind.key a) ≡ str_eq x (kind.key a))
        → get_by_key kind like query_fails (kind.key a) rows ≡ some old
        → row_of kind laws like (kind.key a) rows ≡ some old
    unfolding get_by_key
    get_by_key-some query_fails old plain h =
        find_row_ext kind laws like (keyed kind laws like (kind.key a))
          (λ x. like (kind.key x) (kind.key a)) rows (λ x. sym (plain (kind.key x)))
        ∙ ground arith

    -- Store, whatever fails: the other keys' rows stay, no key has two rows, and either it returns an
    -- error and has changed nothing, or it returns an object that has the name, unless that was empty,
    -- and the token that it was given and that agrees with the row that its key then has, but that a
    -- time of the row may be what the column keeps of the object's. No wildcard of LIKE is in the key,
    -- and no two rows had one key before.
    pub store-Stored :
        (query_fails : Bool) (now : Clock) (fresh : String)
        → ((x : String) → like x (kind.key a) ≡ str_eq x (kind.key a))
        → UniqueKeys kind laws like rows
        → let (rows', b, err) = store kind like db query_fails now fresh a rows in
          Stored rows' b err
    unfolding store
    store-Stored query_fails now fresh plain unique =
        go (get_by_key kind like query_fails (kind.key a) rows) refl
      where
        go :
            (o : Option A)
            → get_by_key kind like query_fails (kind.key a) rows ≡ o
            → let (rows', b, err) = store kind like db query_fails now fresh a rows in
              Stored rows' b err
        go none e = rw (store, e) (insert_new-Stored now fresh unique)
        go (some old) e =
            let s = kind.stakeholder a in
            let o = kind.stakeholder old in
            let found = get_by_key-some query_fails old plain e in
            elim (Bool-cases (not (str_eq s.name o.name) || not (str_eq s.token o.token))) [
              | inr same ↦
                  rw (store, e, same)
                    (
                      λ k. inr refl,
                      unique,
                      inl (
                        old,
                        refl,
                        found,
                        (refl, refl, refl, refl, inl refl, inl refl),
                        sym ((eq_iff s.token o.token).0 (ground (arith, same))),
                        inr (sym ((eq_iff s.name o.name).0 (ground (arith, same)))),
                      ),
                    )
              | inl differ ↦ elim (Bool-cases (kind.is_valid a)) [
                | inr bad ↦
                    rw (store, e, differ, bad)
                      (unchanged rows a (some invalid_state_to_save) invalid_state_to_save unique
                        refl refl)
                | inl good ↦
                    rw (store, e, differ, good) (update_row-Stored old (now 0) found unique)
              ]
            ]
