-- ===== src/Wire/Hex.antt =====
-- crates/nemo-wire/src/ids.rs: hexadecimal text and fingerprints. A text is its bytes.
use nemo_messenger.Prelude.{
  ℕ, zero, suc, ◌+◌, ◌-◌, ◌*◌, ◌/◌, ◌%◌, ◌<◌, ◌≡◌, refl, Bool, true, false, ◌&&◌, ◌||◌, ◌==◌,
  ==_iff, Option, none, some, [], ◌∷◌, ◌++◌, length, take, drop, get_elem?, all, leb, bit_and,
  bit_or, accepts, accepts-member, if◌then◌else◌, arith,
}
use nemo_messenger.Prelude.Bytes.{Bytes, IsBytes, IsArray}
use nemo_messenger.Prelude.Result.{ok, err, ◌>>=◌}
use nemo_messenger.Wire.Error.{WireResult, length_error}
use nemo_messenger.Wire.Ids.{key_len, copy_fixed, copy_fixed_exact}
use nemo_messenger.Wire.Sign.{ascii}

abbrev digit_or : Option ℕ → ℕ
digit_or none = 0
digit_or (some d) = d

-- `HEX[n]`
unfoldable hex_digit : ℕ → ℕ
hex_digit n = digit_or (get_elem? (ascii "0123456789abcdef") n)

unfoldable pub to_hex : Bytes → Bytes
unfolding hex_digit
to_hex [] = []
to_hex (b ∷ bytes) = hex_digit (b / 16) ∷ hex_digit (bit_and b 0x0f) ∷ to_hex bytes

-- `is_ascii_hexdigit`
unfoldable is_hexdigit : ℕ → Bool
is_hexdigit b = (leb 48 b && leb b 57) || ((leb 97 b && leb b 102) || (leb 65 b && leb b 70))

unfoldable hex_nibble : ℕ → WireResult ℕ
hex_nibble b =
    if leb 48 b && leb b 57
    then ok (b - 48)
    else if leb 97 b && leb b 102
    then ok (b - 97 + 10)
    else if leb 65 b && leb b 70
    then ok (b - 65 + 10)
    else err (length_error 1 0)

unfoldable read_pair : ℕ → ℕ → WireResult ℕ
unfolding hex_nibble
read_pair a b = do hi ← hex_nibble a; lo ← hex_nibble b; ok (bit_or (hi * 16 % 256) lo)

-- The loop of `from_hex`, two digits at a time.
unfoldable pub from_pairs : Bytes → WireResult Bytes
unfolding read_pair
from_pairs [] = ok []
from_pairs (a ∷ []) = ok []
from_pairs (a ∷ b ∷ rest) =
    let later = from_pairs rest in (do byte ← read_pair a b; out ← later; ok (byte ∷ out))

unfoldable pub from_hex : Bytes → WireResult Bytes
unfolding from_pairs is_hexdigit
from_hex s =
    if length s % 2 == 0 && all is_hexdigit s
    then from_pairs s
    else err (length_error (length s / 2) (length s))

unfoldable pub parse_identity_id : Bytes → WireResult Bytes
unfolding from_hex copy_fixed
parse_identity_id s = from_hex s >>= copy_fixed key_len

-- `chunks(8)`, joined by spaces; a round takes a chunk, so the length is fuel enough.
unfoldable groups_of_eight : ℕ → Bytes → Bytes
groups_of_eight zero s = s
groups_of_eight (suc fuel) s =
    let rest = groups_of_eight fuel (drop 8 s) in
    if leb (length s) 8 then s else take 8 s ++ (32 ∷ rest)

unfoldable pub fingerprint : Bytes → Bytes
unfolding to_hex groups_of_eight
fingerprint id = groups_of_eight (length (to_hex id)) (to_hex id)

abbrev reads_as : ℕ → WireResult ℕ → Bool
reads_as byte (ok b) = b == byte
reads_as byte (err e) = false

-- A byte's two digits are hexadecimal and read as the byte.
digits_right : ℕ → Bool
unfolding hex_digit is_hexdigit read_pair
digits_right byte =
    is_hexdigit (hex_digit (byte / 16))
    && (is_hexdigit (hex_digit (bit_and byte 0x0f))
        && reads_as byte (read_pair (hex_digit (byte / 16)) (hex_digit (bit_and byte 0x0f))))

all_digits_right : accepts digits_right 256 ≡ true
unfolding accepts digits_right
all_digits_right = refl

read_pair-digits :
    (byte : ℕ)
    → byte < 256
    → (read_pair (hex_digit (byte / 16)) (hex_digit (bit_and byte 0x0f)) ≡ ok byte)
      × (is_hexdigit (hex_digit (byte / 16)) ≡ true)
      × (is_hexdigit (hex_digit (bit_and byte 0x0f)) ≡ true)
unfolding digits_right
read_pair-digits byte small =
    let right = accepts-member digits_right 256 byte small all_digits_right in
    (
      as_read (read_pair (hex_digit (byte / 16)) (hex_digit (bit_and byte 0x0f)))
          (ground (arith, right)),
      ground (arith, right),
      ground (arith, right),
    )
  where
    as_read : (r : WireResult ℕ) → reads_as byte r ≡ true → r ≡ ok byte
    as_read (ok b) e = let same : b ≡ byte = (==_iff b byte).0 e in rw same refl
    as_read (err x) e = cc

all_digits : (bytes : Bytes) → IsBytes bytes → all is_hexdigit (to_hex bytes) ≡ true
unfolding to_hex
all_digits [] w = refl
all_digits (b ∷ bytes) w =
    let (read, high, low) = read_pair-digits b w.0 in rw (high, low, all_digits bytes w.1) refl

even_length : (bytes : Bytes) → (length (to_hex bytes) % 2 == 0) ≡ true
unfolding to_hex
even_length [] = refl
even_length (b ∷ bytes) = ground (arith, even_length bytes)

from_pairs-to_hex : (bytes : Bytes) → IsBytes bytes → from_pairs (to_hex bytes) ≡ ok bytes
unfolding from_pairs to_hex
from_pairs-to_hex [] w = refl
from_pairs-to_hex (b ∷ bytes) w = rw ((read_pair-digits b w.0).0, from_pairs-to_hex bytes w.1) refl

-- Hexadecimal text is read back as the bytes that it was made of, and an identifier of 32 bytes that was
-- written that way is parsed back to itself.
pub from_hex-to_hex :
    (bytes id : Bytes)
    → IsBytes bytes
    → IsArray key_len id
    → (from_hex (to_hex bytes) ≡ ok bytes) × (parse_identity_id (to_hex id) ≡ ok id)
unfolding from_hex parse_identity_id
from_hex-to_hex bytes id w v = (read bytes w, rw (read id v.0) (copy_fixed_exact key_len id v.1))
  where
    read : (bytes : Bytes) → IsBytes bytes → from_hex (to_hex bytes) ≡ ok bytes
    read bytes w = rw (even_length bytes, all_digits bytes w) (from_pairs-to_hex bytes w)
