-- ===== src/Data/Cursors.antt =====
-- The cursors of storage/data/common.go, and the pages that controllers/router.go reads from a request's
-- query and links to. `times` is time.Time's text in RFC 3339 with nanoseconds; a query's values come
-- as they were set.
pub mod RoundTrip
use webhook_broker.Base.{
  ℕ, Bool, false, ◌==◌, Option, none, some, List, [], ◌∷◌, ◌++◌, All, ◌≡◌, refl,
}
use webhook_broker.Text.Strings.{Bytes, codes, split, Without, split-Without, split-append}
use webhook_broker.Text.Base64.{encode, decode, IsByte, decode-encode}
use webhook_broker.Data.Clocks.{BasePaginateable}

pub record Cursor : Type 0 where
  pub id : Bytes
  pub timestamp : ℕ

pub record Pagination : Type 0 where
  pub next : Option Cursor
  pub previous : Option Cursor

pub record TimeText : Type 0 where
  pub format : ℕ → Bytes
  pub parse : Bytes → Option ℕ

-- GetCursor
abbrev pub get_cursor : BasePaginateable → Cursor
get_cursor b = record { id = codes b.id; timestamp = b.created_at }

-- NewPagination
unfoldable pub new_pagination : Option BasePaginateable → Option BasePaginateable → Pagination
new_pagination after before = record {
  next = elim after [ none ↦ none | some a ↦ some (get_cursor a) ];
  previous = elim before [ none ↦ none | some b ↦ some (get_cursor b) ];
}

-- cursorSeparator
abbrev pub bar : ℕ
bar = b'|'

-- The values of `next` and `previous` in a query, "" for one that is missing.
pub record PageQuery : Type 0 where
  pub next : Bytes
  pub previous : Bytes

module _ (times : TimeText) where
  -- Cursor.String
  unfoldable pub cursor_text : Cursor → Bytes
  cursor_text c = encode (c.id ++ bar ∷ times.format c.timestamp)

  abbrev pub read_splits : List Bytes → Option Cursor
  read_splits [] = none
  read_splits (a ∷ []) = none
  read_splits (a ∷ b ∷ []) = elim (times.parse b) [
    | none ↦ none
    | some t ↦ some (record { id = a; timestamp = t })
  ]
  read_splits (a ∷ b ∷ c ∷ rest) = none

  -- ParseCursor, `none` for an error.
  unfoldable pub parse_cursor : Bytes → Option Cursor
  parse_cursor s = elim (decode s) [ none ↦ none | some text ↦ read_splits (split bar text) ]

  abbrev pub read_cursor : Bytes → Option Cursor
  read_cursor [] = none
  read_cursor (c ∷ cs) = parse_cursor (c ∷ cs)

  -- getPagination
  unfoldable pub get_pagination : PageQuery → Pagination
  get_pagination q = record { next = read_cursor q.next; previous = read_cursor q.previous }

  abbrev pub link : Option Cursor → Option Bytes
  link none = none
  link (some c) = some (cursor_text c)

  -- getPaginationLinks: the query of the link to the next page, and to the previous one.
  unfoldable pub get_pagination_links : Pagination → Option PageQuery × Option PageQuery
  get_pagination_links p = (
    elim (link p.next) [ none ↦ none | some s ↦ some (record { next = s; previous = [] }) ],
    elim (link p.previous) [ none ↦ none | some s ↦ some (record { next = []; previous = s }) ],
  )
