-- ===== src/Storage/SlottedPage/Cells.antt =====
-- src/storage/slotted_page.cpp: the bytes of a page, its 16-bit and 32-bit fields, and what a write
-- leaves alone.
use curiodb.Prelude.{
  ℕ, zero, suc, ◌+◌, ◌*◌, ◌/◌, ◌%◌, ◌<◌, ◌≤◌, [], ◌∷◌, length, get_or, set, ◌≡◌, refl, arith,
  length-set, get_or-set_self, get_or-set_ne, ◌⊎◌, inr, ◌∙◌, ap,
}
use curiodb.Prelude.Bytes.{Bytes}

-- `bytes[index]`
abbrev pub byte : Bytes → ℕ → ℕ
byte page index = get_or page index 0

unfoldable pub read_u16 : Bytes → ℕ → ℕ
read_u16 page offset = byte page offset + 256 * byte page (offset + 1)

unfoldable pub read_u32 : Bytes → ℕ → ℕ
read_u32 page offset =
    byte page offset
    + 256 * (byte page (offset + 1) + 256 * (byte page (offset + 2) + 256 * byte page (offset + 3)))

unfoldable pub write_u16 : Bytes → ℕ → ℕ → Bytes
write_u16 page offset value = set (set page offset (value % 256)) (offset + 1) (value / 256 % 256)

unfoldable pub write_u32 : Bytes → ℕ → ℕ → Bytes
write_u32 page offset value =
    set
      (set (set (set page offset (value % 256)) (offset + 1) (value / 256 % 256)) (offset + 2)
        (value / 65536 % 256))
      (offset + 3) (value / 16777216 % 256)

-- `std::copy(record.begin(), record.end(), bytes.begin() + offset)`
unfoldable pub copy : Bytes → Bytes → ℕ → Bytes
copy [] page offset = page
copy (b ∷ record_rest) page offset = copy record_rest (set page offset b) (offset + 1)

-- `std::span{bytes.data() + offset, length}`
unfoldable pub slice : Bytes → ℕ → ℕ → Bytes
slice page offset zero = []
slice page offset (suc count) = byte page offset ∷ slice page (offset + 1) count

-- Two pages hold the same bytes from `offset` on, `count` of them.
abbrev pub Agree : ℕ → ℕ → Bytes → Bytes → Type 0
Agree offset count p q = (i : ℕ) → offset ≤ i → i < offset + count → byte p i ≡ byte q i

-- Two ranges do not meet.
abbrev pub Apart : ℕ → ℕ → ℕ → ℕ → Type 0
Apart offset count offset' count' = (offset + count ≤ offset') ⊎ (offset' + count' ≤ offset)

pub length-write_u16 : (p : Bytes) (o v : ℕ) → length (write_u16 p o v) ≡ length p
unfolding write_u16
length-write_u16 p o v = length-set _ _ _ ∙ length-set p o _

pub length-copy : (r p : Bytes) (o : ℕ) → length (copy r p o) ≡ length p
unfolding copy
length-copy [] p o = refl
length-copy (b ∷ r) p o = length-copy r (set p o b) (o + 1) ∙ length-set p o b

pub write_u16-Agree :
    (p : Bytes) (o v offset count : ℕ)
    → Apart o 2 offset count
    → Agree offset count (write_u16 p o v) p
unfolding write_u16
write_u16-Agree p o v offset count apart i lo hi =
    get_or-set_ne (set p o (v % 256)) (o + 1) i (v / 256 % 256) 0 (omega arith)
    ∙ get_or-set_ne p o i (v % 256) 0 (omega arith)

pub copy-Agree :
    (r p : Bytes) (o offset count : ℕ)
    → Apart o (length r) offset count
    → Agree offset count (copy r p o) p
unfolding copy
copy-Agree [] p o offset count apart i lo hi = refl
copy-Agree (b ∷ r) p o offset count apart i lo hi =
    copy_behind r (set p o b) (o + 1) i (omega arith) ∙ get_or-set_ne p o i b 0 (omega arith)
  where
    copy_behind :
        (s q : Bytes) (at j : ℕ) → (j < at) ⊎ (at + length s ≤ j) → byte (copy s q at) j ≡ byte q j
    copy_behind [] q at j h = refl
    copy_behind (c ∷ s) q at j h =
        copy_behind s (set q at c) (at + 1) j (omega arith) ∙ get_or-set_ne q at j c 0 (omega arith)

pub read_u16-Agree : (p q : Bytes) (o : ℕ) → Agree o 2 p q → read_u16 p o ≡ read_u16 q o
unfolding read_u16
read_u16-Agree p q o h =
    omega (arith, h o (omega arith) (omega arith), h (o + 1) (omega arith) (omega arith))

pub read_u32-Agree : (p q : Bytes) (o : ℕ) → Agree o 4 p q → read_u32 p o ≡ read_u32 q o
unfolding read_u32
read_u32-Agree p q o h = omega (
  arith,
  h o (omega arith) (omega arith),
  h (o + 1) (omega arith) (omega arith),
  h (o + 2) (omega arith) (omega arith),
  h (o + 3) (omega arith) (omega arith),
)

pub slice-Agree : (p q : Bytes) (o n : ℕ) → Agree o n p q → slice p o n ≡ slice q o n
unfolding slice
slice-Agree p q o zero h = refl
slice-Agree p q o (suc n) h = ground (
  arith,
  h o (omega arith) (omega arith),
  slice-Agree p q (o + 1) n (λ i lo hi. h i (omega arith) (omega arith)),
)

pub read_u16-write_u16_self :
    (p : Bytes) (o v : ℕ) → o + 1 < length p → v < 65536 → read_u16 (write_u16 p o v) o ≡ v
unfolding read_u16 write_u16
read_u16-write_u16_self p o v h hv = omega (
  arith,
  get_or-set_ne (set p o (v % 256)) (o + 1) o (v / 256 % 256) 0 (omega arith),
  get_or-set_self p o (v % 256) 0 (omega arith),
  get_or-set_self (set p o (v % 256)) (o + 1) (v / 256 % 256) 0
      (omega (arith, length-set p o (v % 256))),
)

pub read_u16-write_u16_ne :
    (p : Bytes) (o v o' : ℕ) → Apart o 2 o' 2 → read_u16 (write_u16 p o v) o' ≡ read_u16 p o'
read_u16-write_u16_ne p o v o' h = read_u16-Agree _ p o' (write_u16-Agree p o v o' 2 h)

pub read_u16-copy_ne :
    (r p : Bytes) (o o' : ℕ) → Apart o (length r) o' 2 → read_u16 (copy r p o) o' ≡ read_u16 p o'
read_u16-copy_ne r p o o' h = read_u16-Agree _ p o' (copy-Agree r p o o' 2 h)

pub slice-copy_self :
    (r p : Bytes) (o : ℕ) → o + length r ≤ length p → slice (copy r p o) o (length r) ≡ r
unfolding slice copy
slice-copy_self [] p o h = refl
slice-copy_self (b ∷ r) p o h = ground (
  arith,
  copy-Agree r (set p o b) (o + 1) o 1 (inr (omega arith)) o (omega arith) (omega arith),
  get_or-set_self p o b 0 (omega arith),
  length-set p o b,
  slice-copy_self r (set p o b) (o + 1),
)

pub length-slice : (p : Bytes) (o n : ℕ) → length (slice p o n) ≡ n
unfolding slice
length-slice p o zero = refl
length-slice p o (suc n) = ap suc (length-slice p (o + 1) n)
