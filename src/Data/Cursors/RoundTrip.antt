-- ===== src/Data/Cursors/RoundTrip.antt =====
-- Cursors, storage/data/common.go, and the links between pages, controllers/router.go, read again.
use webhook_broker.Config.DispatchPause.{second}
use webhook_broker.Base.{ℕ, ◌*◌, ◌<◌, none, some, [], ◌∷◌, ◌++◌, All, All-append, ◌≡◌, refl, arith}
use webhook_broker.Text.Strings.{Bytes, split, Without, split-Without, split-append}
use webhook_broker.Text.Base64.{decode, IsByte, decode-encode}
use webhook_broker.Data.Cursors.{
  Cursor, Pagination, TimeText, PageQuery, bar, read_splits, read_cursor, cursor_text, parse_cursor,
  get_pagination, get_pagination_links,
}

-- The first instant that RFC 3339 cannot write: it has four digits for the year.
abbrev pub year_10000 : ℕ
year_10000 = 315537897600 * second

-- What the documentation says of a time's text: it is read again, and holds no bar.
pub record TimeLaws (times : TimeText) : Type 0 where
  pub reads : (t : ℕ) → t < year_10000 → times.parse (times.format t) ≡ some t
  pub no_bar : (t : ℕ) → Without bar (times.format t)
  pub bytes : (t : ℕ) → All IsByte (times.format t)

module _ (times : TimeText) (laws : TimeLaws times) where
  abbrev pub IsPlain : Cursor → Type 0
  IsPlain c = Without bar c.id × All IsByte c.id × (c.timestamp < year_10000)

  parse_cursor-cursor_text :
      (c : Cursor) → IsPlain c → parse_cursor times (cursor_text times c) ≡ some c
  unfolding parse_cursor cursor_text
  parse_cursor-cursor_text c plain =
      let stamp = times.format c.timestamp in
      let text = c.id ++ bar ∷ stamp in
      rw
        (
          parse_cursor,
          decode-encode text
              (All-append IsByte c.id (bar ∷ stamp) plain.1 (omega arith, laws.bytes c.timestamp)),
          split-append bar c.id stamp plain.0,
          split-Without bar stamp (laws.no_bar c.timestamp),
          read_splits,
          laws.reads c.timestamp plain.2,
        )
        refl

  read_cursor-parse_cursor :
      (s : Bytes) (c : Cursor) → parse_cursor times s ≡ some c → read_cursor times s ≡ some c
  unfolding parse_cursor decode split
  read_cursor-parse_cursor [] c h = absurd (ground arith)
  read_cursor-parse_cursor (b ∷ bs) c h = h

  read_cursor-cursor_text :
      (c : Cursor) → IsPlain c → read_cursor times (cursor_text times c) ≡ some c
  read_cursor-cursor_text c plain =
      read_cursor-parse_cursor (cursor_text times c) c (parse_cursor-cursor_text c plain)

  -- The link to the next page asks for the page after the cursor, and the link to the previous page
  -- for the one before, whatever text without a bar the id is; the times are before the year 10000.
  pub get_pagination-get_pagination_links :
      (p : Pagination) (next previous : Cursor)
      → p.next ≡ some next
      → p.previous ≡ some previous
      → IsPlain next
      → IsPlain previous
      → (onward : PageQuery) × (back : PageQuery) × (get_pagination_links times p
          ≡ (some onward, some back))
        × (get_pagination times onward ≡ record { next = some next; previous = none })
        × (get_pagination times back ≡ record { next = none; previous = some previous })
  unfolding get_pagination get_pagination_links
  get_pagination-get_pagination_links p next previous e f plain_next plain_previous = (
    record { next = cursor_text times next; previous = [] },
    record { next = []; previous = cursor_text times previous },
    rw (e, f) refl,
    rw (read_cursor-cursor_text next plain_next) refl,
    rw (read_cursor-cursor_text previous plain_previous) refl,
  )
