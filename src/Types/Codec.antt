-- ===== src/Types/Codec.antt =====
-- `serialize_value` and `deserialize_value` of types/type_converter.cc.
use custom_sql_database.Prelude.{
  ℕ, ◌+◌, ◌%◌, ◌^◌, ◌<◌, ◌≤◌, ◌≡◌, refl, ap, true, false, not, ◌&&◌, [], ◌∷◌, ◌++◌, arith, Bytes,
  length, length-append, take, drop, take_all, drop_of_length-eq, leb, ◌==◌, if◌then◌else◌,
}
use custom_sql_database.Errors.{Result, ok, throw, type_error, overrun}
use custom_sql_database.Types.Value.{Value, null, int, float, string, boolean}
use custom_sql_database.Types.Bytes.{le_bytes, le_value, le_value-le_bytes}

-- The length of a string goes into a `uint32_t`.
unfoldable pub serialize_value : Value → Bytes
serialize_value null = 0xFF ∷ []
serialize_value (int v) = 0x00 ∷ le_bytes 8 v
serialize_value (float v) = 0x01 ∷ le_bytes 8 v
serialize_value (string s) = 0x02 ∷ le_bytes 4 (length s % 2 ^ 32) ++ s
serialize_value (boolean b) = 0x03 ∷ (if b then 0x01 else 0x00) ∷ []

-- The bytes [first, first + len) of a buffer.
abbrev pub slice : ℕ → ℕ → Bytes → Bytes
slice first len bytes = take len (drop first bytes)

-- The STRING branch, from the bytes behind the marker. `5 + len` is a `uint32_t`, which wraps.
deserialize_string : ℕ → Bytes → Result Value
deserialize_string len rest =
    if leb ((5 + len) % 2 ^ 32) (1 + length rest)
    then (if leb (4 + len) (length rest) then ok (string (slice 4 len rest)) else throw overrun)
    else throw type_error

abbrev first_byte : Bytes → ℕ
first_byte [] = 0
first_byte (b ∷ _) = b

deserialize_marked : ℕ → Bytes → Result Value
unfolding deserialize_string
deserialize_marked marker rest =
    if marker == 0xFF
    then ok null
    else if marker == 0x00 && leb 9 (1 + length rest)
    then ok (int (le_value (take 8 rest)))
    else if marker == 0x01 && leb 9 (1 + length rest)
    then ok (float (le_value (take 8 rest)))
    else if marker == 0x02 && leb 5 (1 + length rest)
    then deserialize_string (le_value (take 4 rest)) rest
    else if marker == 0x03 && leb 2 (1 + length rest)
    then ok (boolean (not (first_byte rest == 0)))
    else throw type_error

unfoldable pub deserialize_value : Bytes → Result Value
unfolding deserialize_marked
deserialize_value [] = ok null
deserialize_value (marker ∷ rest) = deserialize_marked marker rest

-- What the C++ types hold; a string is shorter than 4 GiB, less the header.
abbrev pub InRange : Value → Type 0
InRange (int v) = v < 2 ^ 64
InRange (float v) = v < 2 ^ 64
InRange (string s) = length s + 5 < 2 ^ 32
InRange _ = Unit

deserialize_string-serialize :
    (s : Bytes) (header : Bytes)
    → length header ≡ 4
    → length s + 5 < 2 ^ 32
    → deserialize_string (length s) (header ++ s) ≡ ok (string s)
unfolding deserialize_string
deserialize_string-serialize s header four small =
    let body : take (length s) (drop 4 (header ++ s)) ≡ s =
      rw (drop_of_length-eq 4 header s four) (take_all s) in
    ground (arith, length-append header s, body)

-- Decoding an encoded value gives it back, for every value that the C++ types hold with strings
-- shorter than 2^32 - 5 bytes.
pub deserialize-serialize : (v : Value) → InRange v → deserialize_value (serialize_value v) ≡ ok v
unfolding deserialize_value serialize_value le_bytes
deserialize-serialize null h = refl
deserialize-serialize (int v) h = ap (λ x. ok (int x)) (le_value-le_bytes 8 v h)
deserialize-serialize (float v) h = ap (λ x. ok (float x)) (le_value-le_bytes 8 v h)
deserialize-serialize (string s) h =
    let size : length s % 2 ^ 32 ≡ length s = omega arith in
    rw (size, le_value-le_bytes 4 (length s) (omega arith))
      (ground (arith, deserialize_string-serialize s (le_bytes 4 (length s)) refl h))
deserialize-serialize (boolean true) h = refl
deserialize-serialize (boolean false) h = refl

-- A STRING whose stored length is within 5 of 2^32 passes the size test of the decoder by
-- wrap-around, and the read leaves the buffer, for every buffer that is shorter than that length.
pub deserialize_wraps :
    (len : ℕ) (s : Bytes)
    → 2 ^ 32 ≤ len + 5
    → len < 2 ^ 32
    → length s < len
    → deserialize_value (0x02 ∷ le_bytes 4 len ++ s) ≡ throw overrun
unfolding deserialize_value le_bytes deserialize_string
deserialize_wraps len s wraps fits short = rw (le_value-le_bytes 4 len fits) (ground arith)

pub length-serialize-lt : (v : Value) → InRange v → length (serialize_value v) < 2 ^ 32
unfolding serialize_value le_bytes
length-serialize-lt null h = omega arith
length-serialize-lt (int v) h = omega arith
length-serialize-lt (float v) h = omega arith
length-serialize-lt (string s) h = omega arith
length-serialize-lt (boolean b) h = omega arith
