-- ===== src/Data/Clocks.antt =====
-- storage/data/common.go: the fields that every stored object has.
-- A time is a count of nanoseconds from Go's zero time, so `IsZero` is `== 0`. Reading `i` of a
-- `Clock` is what the i-th `time.Now()` of a function returns, and `fresh` what xid.New() does.
-- An xid is its text form.
use webhook_broker.Base.{ℕ, String, Bool, ◌&&◌, ◌||◌, not, str_eq, ◌==◌, if◌then◌else◌}

abbrev pub Clock : Type 0
Clock = ℕ → ℕ

-- The text of the xid whose twelve bytes are zero.
abbrev pub nil_id : String
nil_id = "00000000000000000000"

pub record BasePaginateable : Type 0 where
  pub id : String
  pub created_at : ℕ
  pub updated_at : ℕ

abbrev pub is_empty : String → Bool
is_empty s = str_eq s ""

abbrev pub is_zero : ℕ → Bool
is_zero t = t == 0

-- `QuickFix` of BasePaginateable; the Boolean says whether anything was changed.
unfoldable pub base_quick_fix : Clock → String → BasePaginateable → BasePaginateable × Bool
base_quick_fix now fresh b = (
  record {
    id = if str_eq b.id nil_id then fresh else b.id;
    created_at = if is_zero b.created_at then now 0 else b.created_at;
    updated_at = if is_zero b.updated_at then now 1 else b.updated_at;
  },
  str_eq b.id nil_id || (is_zero b.created_at || is_zero b.updated_at),
)

-- setValIfBothNotEmpty: the source's value, and whether it was replaced by the fallback.
unfoldable pub set_val_if_both_not_empty : String → String → String × Bool
set_val_if_both_not_empty src fallback =
    let changes = is_empty src && not (is_empty fallback) in
    (if changes then fallback else src, changes)
