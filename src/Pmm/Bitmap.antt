-- ===== src/Pmm/Bitmap.antt =====
-- kernel/pmm.c: what the bitmap operations do to each frame's bit.
use tuple_os.Common.{
  ℕ, ◌/◌, ◌%◌, ◌<◌, ◌≡◌, refl, Bool, true, false, arith, ◌==◌, ltb, if◌then◌else◌, holds_below,
  holds_below_lem, ltb→lt, ap,
}
use tuple_os.Pmm.{byte_set, byte_clear, byte_test, bitmap_set, bitmap_clear, bitmap_test}

-- The same truth value.
abbrev same : Bool → Bool → Bool
same true b = b
same false true = false
same false false = true

same_sound : (a b : Bool) → same a b ≡ true → a ≡ b
same_sound a b h = ground arith

abbrev is_clear : ℕ → ℕ → Bool
is_clear b k = byte_test b k == 0

set_row : ℕ → ℕ → ℕ → Bool
set_row b k j = same (is_clear (byte_set b k) j) (if k == j then false else is_clear b j)

clear_row : ℕ → ℕ → ℕ → Bool
clear_row b k j = same (is_clear (byte_clear b k) j) (if k == j then true else is_clear b j)

bytes_row : ℕ → ℕ → Bool
bytes_row b k = ltb (byte_clear b k) 256

set_table : holds_below 256 (λ b. holds_below 8 (λ k. holds_below 8 (λ j. set_row b k j))) ≡ true
unfolding holds_below set_row
set_table = refl

clear_table :
    holds_below 256 (λ b. holds_below 8 (λ k. holds_below 8 (λ j. clear_row b k j))) ≡ true
unfolding holds_below clear_row
clear_table = refl

bytes_table : holds_below 256 (λ b. holds_below 8 (λ k. bytes_row b k)) ≡ true
unfolding holds_below bytes_row
bytes_table = refl

is_clear-byte_set :
    (b k j : ℕ)
    → b < 256
    → k < 8
    → j < 8
    → is_clear (byte_set b k) j ≡ (if k == j then false else is_clear b j)
unfolding set_row
is_clear-byte_set b k j hb hk hj = same_sound _ _ (
    holds_below_lem 8 (λ j. set_row b k j) j
      (holds_below_lem 8 (λ k. holds_below 8 (λ j. set_row b k j)) k
        (holds_below_lem 256 _ b set_table hb) hk)
      hj)

is_clear-byte_clear :
    (b k j : ℕ)
    → b < 256
    → k < 8
    → j < 8
    → is_clear (byte_clear b k) j ≡ (if k == j then true else is_clear b j)
unfolding clear_row
is_clear-byte_clear b k j hb hk hj = same_sound _ _ (
    holds_below_lem 8 (λ j. clear_row b k j) j
      (holds_below_lem 8 (λ k. holds_below 8 (λ j. clear_row b k j)) k
        (holds_below_lem 256 _ b clear_table hb) hk)
      hj)

byte_clear-lt : (b k : ℕ) → b < 256 → k < 8 → byte_clear b k < 256
unfolding bytes_row
byte_clear-lt b k hb hk =
    ltb→lt _ _
      (holds_below_lem 8 (λ k. bytes_row b k) k (holds_below_lem 256 _ b bytes_table hb) hk)

-- Every cell holds a byte.
abbrev pub IsBytes : (ℕ → ℕ) → Type 0
IsBytes m = (i : ℕ) → m i < 256

-- The frame's bit is clear.
unfoldable pub is_free : (ℕ → ℕ) → ℕ → Bool
unfolding bitmap_test
is_free m f = bitmap_test m f == 0

pub bitmap_set-IsBytes : (m : ℕ → ℕ) (f : ℕ) → IsBytes m → IsBytes (bitmap_set m f)
unfolding bitmap_set
bitmap_set-IsBytes m f v i = ground (arith, v i)

pub bitmap_clear-IsBytes : (m : ℕ → ℕ) (f : ℕ) → IsBytes m → IsBytes (bitmap_clear m f)
unfolding bitmap_clear
bitmap_clear-IsBytes m f v i = ground (arith, v i, v (f / 8), byte_clear-lt (m (f / 8)) (f % 8))

-- `bitmap_set` marks its frame used and leaves every other frame alone.
pub is_free-bitmap_set :
    (m : ℕ → ℕ) (f g : ℕ)
    → IsBytes m
    → is_free (bitmap_set m f) g ≡ (if f == g then false else is_free m g)
unfolding bitmap_set is_free
is_free-bitmap_set m f g v =
    ground (arith, v (f / 8), is_clear-byte_set (m (f / 8)) (f % 8) (g % 8))

-- `bitmap_clear` marks its frame free and leaves every other frame alone.
pub is_free-bitmap_clear :
    (m : ℕ → ℕ) (f g : ℕ)
    → IsBytes m
    → is_free (bitmap_clear m f) g ≡ (if f == g then true else is_free m g)
unfolding bitmap_clear is_free
is_free-bitmap_clear m f g v =
    ground (arith, v (f / 8), is_clear-byte_clear (m (f / 8)) (f % 8) (g % 8))

-- A frame's bit is read from its own byte.
pub is_free_byte : (m n : ℕ → ℕ) (f : ℕ) → m (f / 8) ≡ n (f / 8) → is_free m f ≡ is_free n f
unfolding is_free
is_free_byte m n f h = ap (λ b. byte_test b (f % 8) == 0) h
