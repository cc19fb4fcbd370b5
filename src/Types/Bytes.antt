-- ===== src/Types/Bytes.antt =====
-- Little-endian numbers, as types/type_converter.cc and storage/page_format.cc write and read them.
use native.Mathlib.Nat.{pow-suc}
use custom_sql_database.Prelude.{
  ℕ, zero, suc, ◌+◌, ◌*◌, ◌/◌, ◌%◌, ◌^◌, ◌<◌, ◌≡◌, refl, ap, [], ◌∷◌, arith, Bytes, length, All,
}

-- The low `n` bytes: byte i is `(v >> (8 * i)) & 0xFF`.
unfoldable pub le_bytes : ℕ → ℕ → Bytes
le_bytes zero v = []
le_bytes (suc n) v = v % 256 ∷ le_bytes n (v / 256)

-- The sum of `bytes[i] << (8 * i)`.
unfoldable pub le_value : Bytes → ℕ
le_value [] = 0
le_value (b ∷ bs) = b + 256 * le_value bs

abbrev pub AreBytes : Bytes → Type 0
AreBytes = All (λ b. b < 256)

pub length-le_bytes : (n v : ℕ) → length (le_bytes n v) ≡ n
unfolding le_bytes
length-le_bytes zero v = refl
length-le_bytes (suc n) v = ap suc (length-le_bytes n (v / 256))

pub le_bytes-AreBytes : (n v : ℕ) → AreBytes (le_bytes n v)
unfolding le_bytes
le_bytes-AreBytes zero v = tt
le_bytes-AreBytes (suc n) v = (omega arith, le_bytes-AreBytes n (v / 256))

pub le_value-le_bytes : (n v : ℕ) → v < 256 ^ n → le_value (le_bytes n v) ≡ v
unfolding le_bytes le_value
le_value-le_bytes zero v h = omega arith
le_value-le_bytes (suc n) v h =
    let small : v < 256 ^ n * 256 = rw pow-suc at h in
    omega (arith, le_value-le_bytes n (v / 256) (omega arith))

pub le_value-lt : (bs : Bytes) → AreBytes bs → le_value bs < 256 ^ length bs
unfolding le_value
le_value-lt [] h = omega arith
le_value-lt (b ∷ bs) h = rw pow-suc (omega (arith, le_value-lt bs h.1))

pub le_bytes-le_value : (bs : Bytes) → AreBytes bs → le_bytes (length bs) (le_value bs) ≡ bs
unfolding le_bytes le_value
le_bytes-le_value [] h = refl
le_bytes-le_value (b ∷ bs) h =
    let low : (b + 256 * le_value bs) % 256 ≡ b = omega arith in
    let high : (b + 256 * le_value bs) / 256 ≡ le_value bs = omega arith in
    rw (low, high) (ap (◌∷◌ b) (le_bytes-le_value bs h.1))
