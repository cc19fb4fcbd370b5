-- ===== src/Storage/Memory.antt =====
-- The byte buffer of a page: what `memcpy` and the packed header and slot structs of
-- storage/page_format.h and storage/page.cc read and write.
use custom_sql_database.Prelude.{
  ℕ, zero, suc, ◌+◌, ◌-◌, ◌*◌, ◌/◌, ◌%◌, ◌≤◌, ◌<◌, ◌≡◌, ◌⊎◌, refl, ap, ◌&&◌, [], ◌∷◌, arith, Bytes,
  length, ltb, leb, ◌==◌, ◌∙◌, if◌then◌else◌,
}

abbrev pub Memory : Type 0
Memory = ℕ → ℕ

-- Byte i of a buffer; bytes beyond it are not read.
unfoldable pub byte_at : Bytes → ℕ → ℕ
byte_at [] i = 0
byte_at (b ∷ bs) zero = b
byte_at (b ∷ bs) (suc i) = byte_at bs i

-- memcpy(base + offset, bytes, length)
unfoldable pub write_at : ℕ → Bytes → Memory → Memory
write_at offset bs m i =
    if leb offset i && ltb i (offset + length bs) then byte_at bs (i - offset) else m i

-- memcpy(out, base + offset, length)
unfoldable pub read_at : ℕ → ℕ → Memory → Bytes
read_at offset zero m = []
read_at offset (suc n) m = m offset ∷ read_at (suc offset) n m

-- A `uint16_t` field.
unfoldable pub get_u16 : ℕ → Memory → ℕ
get_u16 offset m = m offset + 256 * m (offset + 1)

unfoldable pub set_u16 : ℕ → ℕ → Memory → Memory
set_u16 offset v m i =
    if i == offset then v % 256 else if i == offset + 1 then v / 256 % 256 else m i

pub get_u16-set_self : (a v : ℕ) (m : Memory) → v < 65536 → get_u16 a (set_u16 a v m) ≡ v
unfolding get_u16 set_u16
get_u16-set_self a v m h = ground arith

pub get_u16-congr :
    (a : ℕ) (m m' : Memory) → m a ≡ m' a → m (a + 1) ≡ m' (a + 1) → get_u16 a m ≡ get_u16 a m'
unfolding get_u16
get_u16-congr a m m' p q = omega (arith)

pub get_u16-set_ne :
    (a b v : ℕ) (m : Memory) → (a + 1 < b) ⊎ (b + 1 < a) → get_u16 a (set_u16 b v m) ≡ get_u16 a m
unfolding get_u16 set_u16
get_u16-set_ne a b v m h = ground arith

pub get_u16-write :
    (a offset : ℕ) (bs : Bytes) (m : Memory)
    → (a + 1 < offset) ⊎ (offset + length bs ≤ a)
    → get_u16 a (write_at offset bs m) ≡ get_u16 a m
unfolding get_u16 write_at
get_u16-write a offset bs m h = ground arith

-- Reading depends on the bytes of the range only.
pub read_at-congr :
    (a n : ℕ) (m m' : Memory)
    → ((i : ℕ) → a ≤ i → i < a + n → m i ≡ m' i)
    → read_at a n m ≡ read_at a n m'
unfolding read_at
read_at-congr a zero m m' h = refl
read_at-congr a (suc n) m m' h = ground (
  arith,
  h a (omega arith) (omega arith),
  read_at-congr (suc a) n m m' (λ i l u. h i (omega arith) (omega arith)),
)

pub read_at-set_u16 :
    (a n b v : ℕ) (m : Memory)
    → (a + n ≤ b) ⊎ (b + 2 ≤ a)
    → read_at a n (set_u16 b v m) ≡ read_at a n m
unfolding set_u16
read_at-set_u16 a n b v m h = read_at-congr a n (set_u16 b v m) m (λ i l u. ground arith)

pub read_at-write_ne :
    (a n offset : ℕ) (bs : Bytes) (m : Memory)
    → (a + n ≤ offset) ⊎ (offset + length bs ≤ a)
    → read_at a n (write_at offset bs m) ≡ read_at a n m
unfolding write_at
read_at-write_ne a n offset bs m h =
    read_at-congr a n (write_at offset bs m) m (λ i l u. ground arith)

read_at-bytes :
    (a : ℕ) (bs : Bytes) (m : Memory)
    → ((i : ℕ) → i < length bs → m (a + i) ≡ byte_at bs i)
    → read_at a (length bs) m ≡ bs
unfolding read_at byte_at
read_at-bytes a [] m h = refl
read_at-bytes a (b ∷ bs) m h =
    let first : m a ≡ b = ap m (omega arith) ∙ h 0 (omega arith) in
    let rest = read_at-bytes (suc a) bs m (λ i l. ap m (omega arith) ∙ h (suc i) (omega arith)) in
    rw (first, rest)

-- What was written is read back.
pub read_at-write_self :
    (a : ℕ) (bs : Bytes) (m : Memory) → read_at a (length bs) (write_at a bs m) ≡ bs
unfolding write_at
read_at-write_self a bs m =
    read_at-bytes a bs (write_at a bs m)
      (λ i l. let e : a + i - a ≡ i = omega arith in rw e (ground arith))

pub length-read_at : (a n : ℕ) (m : Memory) → length (read_at a n m) ≡ n
unfolding read_at
length-read_at a zero m = refl
length-read_at a (suc n) m = ap suc (length-read_at (suc a) n m)
