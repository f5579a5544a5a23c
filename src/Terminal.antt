-- ===== src/Terminal.antt =====
-- kernel/kernel.c and terminal.h: the VGA text screen.
pub mod Screen
use tuple_os.Common.{
  ℕ, zero, suc, ◌+◌, ◌-◌, ◌*◌, ◌/◌, ◌%◌, Bool, true, false, ltb, ◌==◌, if◌then◌else◌, bit_or, List,
  [], ◌∷◌, update, fill_with,
}

-- The globals of kernel.c, the cells of the text buffer and the cursor position that the hardware was
-- told last.
pub record Terminal : Type 0 where
  pub row : ℕ
  pub column : ℕ
  pub color : ℕ
  pub buffer : ℕ → ℕ
  pub cursor : ℕ

abbrev pub vga_width : ℕ
vga_width = 80

abbrev pub vga_height : ℕ
vga_height = 25

unfoldable pub vga_entry : ℕ → ℕ → ℕ
vga_entry uc color = bit_or uc (color * 256 % 65536)

unfoldable pub vga_entry_color : ℕ → ℕ → ℕ
vga_entry_color fg bg = bit_or fg (bg * 16) % 256

abbrev pub blank : ℕ → ℕ
blank color = vga_entry b' ' color

-- `while (str[len])` on the characters of a string.
unfoldable pub strlen : List ℕ → ℕ
strlen [] = 0
strlen (c ∷ cs) = let rest = strlen cs in if c == 0 then 0 else suc rest

-- The rows from `y` on, `n` of them, filled with one entry.
unfoldable pub clear_rows : ℕ → ℕ → ℕ → (ℕ → ℕ) → ℕ → ℕ
clear_rows zero y entry m = m
clear_rows (suc n) y entry m =
    clear_rows n (y + 1) entry (fill_with vga_width (y * vga_width) (λ _. entry) m)

unfoldable pub initialize : Terminal → Terminal
initialize t =
    let color' = vga_entry_color 7 0 in
    record t {
      row = 0;
      column = 0;
      color = color';
      buffer = clear_rows vga_height 0 (blank color') t.buffer;
    }

pub setcolor : Terminal → ℕ → Terminal
setcolor t color' = record t { color = color' }

unfoldable pub update_cursor : Terminal → Terminal
update_cursor t =
    let pos = (t.row * vga_width + t.column) % 65536 in
    record t { cursor = pos / 256 % 256 * 256 + pos % 256 }

unfoldable pub putentryat : Terminal → ℕ → ℕ → ℕ → ℕ → Terminal
putentryat t c color x y = record t {
  buffer = update t.buffer (y * vga_width + x) (vga_entry c color);
}

-- The inner loop of `terminal_scroll`, `n` cells from column `x` of row `y`.
unfoldable pub scroll_row : ℕ → ℕ → ℕ → (ℕ → ℕ) → ℕ → ℕ
scroll_row zero x y m = m
scroll_row (suc n) x y m =
    scroll_row n (x + 1) y (update m (y * vga_width + x) (m ((y + 1) * vga_width + x)))

-- Its outer loop, `n` rows from row `y`.
unfoldable pub scroll_rows : ℕ → ℕ → (ℕ → ℕ) → ℕ → ℕ
scroll_rows zero y m = m
scroll_rows (suc n) y m = scroll_rows n (y + 1) (scroll_row vga_width 0 y m)

unfoldable pub scroll : Terminal → Terminal
scroll t = record t {
  buffer =
      fill_with vga_width ((vga_height - 1) * vga_width) (λ _. blank t.color)
        (scroll_rows (vga_height - 1) 0 t.buffer);
}

-- `if (++terminal_row == VGA_HEIGHT) { ... }`
unfoldable pub next_row : Terminal → Terminal
next_row t =
    if t.row + 1 == vga_height
    then record (scroll t) { row = vga_height - 1 }
    else record t { row = t.row + 1 }

-- The move of the cursor for a backspace.
unfoldable pub step_back : Terminal → Terminal
step_back t =
    if ltb 0 t.column
    then record t { column = t.column - 1 }
    else if ltb 0 t.row
    then record t { row = t.row - 1; column = vga_width - 1 }
    else t

-- The move of the cursor behind a character.
unfoldable pub advance : Terminal → Terminal
advance t =
    if t.column + 1 == vga_width
    then next_row (record t { column = 0 })
    else record t { column = t.column + 1 }

unfoldable pub erase : Terminal → Terminal
erase t = putentryat t b' ' t.color t.column t.row

unfoldable pub putchar : ℕ → Terminal → Terminal
putchar c t =
    if c == 8
    then update_cursor (erase (step_back t))
    else if c == 10
    then next_row (record t { column = 0 })
    else update_cursor (advance (putentryat t c t.color t.column t.row))

-- `size` characters of a buffer, which is that long.
unfoldable pub write : List ℕ → ℕ → Terminal → Terminal
write chars zero t = t
write [] (suc n) t = t
write (c ∷ cs) (suc n) t = write cs n (putchar c t)

unfoldable pub writestring : List ℕ → Terminal → Terminal
writestring str t = write str (strlen str) t
