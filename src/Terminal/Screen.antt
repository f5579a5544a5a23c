-- ===== src/Terminal/Screen.antt =====
-- kernel/kernel.c: scrolling and the cursor of the text screen.
use tuple_os.Common.{
  ℕ, zero, suc, ◌+◌, ◌-◌, ◌*◌, ◌≤◌, ◌<◌, ◌≡◌, ◌≢◌, refl, ◌∙◌, Bool, true, false, arith, ltb, leb,
  ◌==◌, ◌&&◌, if◌then◌else◌, List, [], ◌∷◌, update, fill_with, fill_with_lem,
}
use tuple_os.Terminal.{
  Terminal, vga_width, vga_height, vga_entry, blank, scroll_row, scroll_rows, scroll, next_row,
  vga_entry_color, step_back, erase, advance, putchar, putentryat, update_cursor, write, clear_rows,
  initialize,
}

scroll_row_lem :
    (n x y : ℕ) (m : ℕ → ℕ) (j : ℕ)
    → x + n ≤ 80
    → scroll_row n x y m j
      ≡ (if leb (y * 80 + x) j && ltb j (y * 80 + x + n) then m (j + 80) else m j)
unfolding scroll_row
scroll_row_lem zero x y m j h = ground arith
scroll_row_lem (suc n) x y m j h =
    ground (arith, scroll_row_lem n (x + 1) y (update m (y * 80 + x) (m ((y + 1) * 80 + x))) j)

scroll_rows_lem :
    (n y : ℕ) (m : ℕ → ℕ) (j : ℕ)
    → scroll_rows n y m j ≡ (if leb (y * 80) j && ltb j ((y + n) * 80) then m (j + 80) else m j)
unfolding scroll_rows
scroll_rows_lem zero y m j = ground arith
scroll_rows_lem (suc n) y m j = ground (
  arith,
  scroll_rows_lem n (y + 1) (scroll_row 80 0 y m) j,
  scroll_row_lem 80 0 y m j,
  scroll_row_lem 80 0 y m (j + 80),
)

-- `terminal_scroll` moves every row up by one, blanks the last row in the current colour, and writes
-- nothing behind the screen.
pub scroll_lem :
    (t : Terminal) (j : ℕ)
    → (scroll t).buffer j ≡ (
        if ltb j (24 * 80)
        then t.buffer (j + 80)
        else if ltb j (25 * 80)
        then blank t.color
        else t.buffer j)
unfolding scroll
scroll_lem t j = ground (
  arith,
  fill_with_lem 80 (24 * 80) (λ _. blank t.color) (scroll_rows 24 0 t.buffer) j,
  scroll_rows_lem 24 0 t.buffer j,
)

-- The cursor is on the screen.
abbrev pub IsOnScreen : Terminal → Type 0
IsOnScreen t = (t.row < vga_height) × (t.column < vga_width)

next_row-IsOnScreen : (t : Terminal) → t.row < 25 → t.column < 80 → IsOnScreen (next_row t)
unfolding next_row scroll
next_row-IsOnScreen t r c = ground arith

advance-IsOnScreen : (t : Terminal) → IsOnScreen t → IsOnScreen (advance t)
unfolding advance next_row scroll
advance-IsOnScreen t s = ground arith

-- `terminal_putchar` keeps the cursor on the screen, whatever the character.
pub putchar-IsOnScreen : (c : ℕ) (t : Terminal) → IsOnScreen t → IsOnScreen (putchar c t)
unfolding putchar erase step_back putentryat update_cursor
putchar-IsOnScreen c t s = ground (
  arith,
  next_row-IsOnScreen (record t { column = 0 }),
  advance-IsOnScreen (putentryat t c t.color t.column t.row) s,
)

next_row_bounded : (t : Terminal) (j : ℕ) → 2000 ≤ j → (next_row t).buffer j ≡ t.buffer j
unfolding next_row
next_row_bounded t j h = ground (arith, scroll_lem t j)

-- `terminal_putchar` writes to the 2000 cells of the screen only.
pub putchar_bounded :
    (c : ℕ) (t : Terminal) (j : ℕ) → IsOnScreen t → 2000 ≤ j → (putchar c t).buffer j ≡ t.buffer j
unfolding putchar erase step_back putentryat update_cursor advance
putchar_bounded c t j s h = ground (
  arith,
  next_row_bounded (record t { column = 0 }) j h,
  next_row_bounded (record (putentryat t c t.color t.column t.row) { column = 0 }) j h,
)

-- The cell of a character, and the cursor's number.
abbrev pub here : Terminal → ℕ
here t = t.row * vga_width + t.column

-- A printable character on a screen that need not scroll goes to the cell under the cursor, in the
-- current colour, the cursor moves one cell on and the hardware is told; no other cell changes.
pub putchar_printable :
    (c : ℕ) (t : Terminal)
    → IsOnScreen t
    → c ≢ 8
    → c ≢ 10
    → here t + 1 < 2000
    → let u = putchar c t in
      (here u ≡ here t + 1)
      × (u.cursor ≡ here u)
      × ((j : ℕ) → u.buffer j ≡ (if here t == j then vga_entry c t.color else t.buffer j))
unfolding putchar putentryat update_cursor advance next_row
putchar_printable c t s n8 n10 room = (ground arith, ground arith, λ j. ground arith)

-- A backspace behind a printable character, on a screen that need not scroll, brings the cursor back and
-- leaves a blank in the current colour in the one cell that changed.
pub putchar_backspace :
    (c : ℕ) (t : Terminal)
    → IsOnScreen t
    → c ≢ 8
    → c ≢ 10
    → here t + 1 < 2000
    → let u = putchar 8 (putchar c t) in
      (u.row ≡ t.row)
      × (u.column ≡ t.column)
      × ((j : ℕ) → u.buffer j ≡ (if here t == j then blank t.color else t.buffer j))
unfolding putchar erase step_back putentryat update_cursor advance next_row
putchar_backspace c t s n8 n10 room = (ground arith, ground arith, λ j. ground arith)

-- A newline at the last row scrolls, elsewhere it goes to the next row; either way the cursor is in the
-- first column.
pub putchar_newline :
    (t : Terminal) (j : ℕ)
    → IsOnScreen t
    → let u = putchar 10 t in
      (u.column ≡ 0)
      × (u.row ≡ (if t.row == 24 then 24 else t.row + 1))
      × (u.buffer j ≡ (if t.row == 24 then (scroll t).buffer j else t.buffer j))
      × (u.cursor ≡ t.cursor)
unfolding putchar next_row scroll
putchar_newline t j s =
    let last : (t.row + 1 == vga_height) ≡ (t.row == 24) = ground arith in
    (ground arith, ground arith, rw last (row_cells (t.row == 24)), ground arith)
  where
    row_cells :
        (b : Bool)
        → (if b
              then record (scroll (record t { column = 0 })) { row = vga_height - 1 }
              else record t { row = t.row + 1; column = 0 }).buffer
            j
          ≡ (if b then (scroll t).buffer j else t.buffer j)
    row_cells true = refl
    row_cells false = refl

-- `terminal_write` keeps the cursor on the screen and writes to the screen's cells only.
pub write-IsOnScreen :
    (chars : List ℕ) (n : ℕ) (t : Terminal)
    → IsOnScreen t
    → IsOnScreen (write chars n t) × ((j : ℕ) → 2000 ≤ j → (write chars n t).buffer j ≡ t.buffer j)
unfolding write
write-IsOnScreen chars zero t s = (s, λ j h. refl)
write-IsOnScreen [] (suc n) t s = (s, λ j h. refl)
write-IsOnScreen (c ∷ cs) (suc n) t s =
    let rest = write-IsOnScreen cs n (putchar c t) (putchar-IsOnScreen c t s) in
    (rest.0, λ j h. rest.1 j h ∙ putchar_bounded c t j s h)

clear_rows_lem :
    (n y entry : ℕ) (m : ℕ → ℕ) (j : ℕ)
    → clear_rows n y entry m j ≡ (if leb (y * 80) j && ltb j ((y + n) * 80) then entry else m j)
unfolding clear_rows
clear_rows_lem zero y entry m j = ground arith
clear_rows_lem (suc n) y entry m j = ground (
  arith,
  clear_rows_lem n (y + 1) entry (fill_with 80 (y * 80) (λ _. entry) m) j,
  fill_with_lem 80 (y * 80) (λ _. entry) m j,
)

-- `terminal_initialize` puts the cursor in the first cell and blanks the 2000 cells of the screen, and
-- those only, in light grey on black.
pub initialize_lem :
    (t : Terminal)
    → let u = initialize t in
      IsOnScreen u
      × (here u ≡ 0)
      × (u.color ≡ 7)
      × ((j : ℕ) → u.buffer j ≡ (if ltb j 2000 then blank 7 else t.buffer j))
unfolding initialize vga_entry_color
initialize_lem t = (
  (omega arith, omega arith),
  refl,
  refl,
  λ j. cleared j (clear_rows_lem 25 0 (blank 7) t.buffer j),
)
  where
    cleared :
        (j : ℕ)
        → clear_rows 25 0 (blank 7) t.buffer j
          ≡ (if leb 0 j && ltb j 2000 then blank 7 else t.buffer j)
        → clear_rows 25 0 (blank 7) t.buffer j ≡ (if ltb j 2000 then blank 7 else t.buffer j)
    cleared j e = e ∙ ground arith
