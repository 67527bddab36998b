-- ===== src/Wire/Cbor/Utf8.antt =====
-- `std::str::from_utf8` as crates/nemo-wire/src/cbor.rs uses it: whether a byte string is UTF-8.
use nemo_messenger.Prelude.{
  ℕ, Bool, true, false, ◌&&◌, Option, none, some, [], ◌∷◌, leb, if◌then◌else◌,
}
use nemo_messenger.Prelude.Bytes.{Bytes}

-- What may follow: a new character, or continuation bytes, the first of them in a smaller range
-- after the lead bytes E0, ED, F0 and F4.
pub data Utf8State : Type 0 where
  start one two three after_e0 after_ed after_f0 after_f4 : Utf8State

abbrev within : ℕ → ℕ → ℕ → Bool
within lo hi b = leb lo b && leb b hi

abbrev lead : ℕ → Option Utf8State
lead b =
    if leb b 0x7f
    then some start
    else if within 0xc2 0xdf b
    then some one
    else if leb 0xe0 b && leb b 0xe0
    then some after_e0
    else if leb 0xed b && leb b 0xed
    then some after_ed
    else if within 0xe1 0xef b
    then some two
    else if leb 0xf0 b && leb b 0xf0
    then some after_f0
    else if within 0xf1 0xf3 b
    then some three
    else if leb 0xf4 b && leb b 0xf4
    then some after_f4
    else none

abbrev utf8_step : Utf8State → ℕ → Option Utf8State
utf8_step start b = lead b
utf8_step one b = if within 0x80 0xbf b then some start else none
utf8_step two b = if within 0x80 0xbf b then some one else none
utf8_step three b = if within 0x80 0xbf b then some two else none
utf8_step after_e0 b = if within 0xa0 0xbf b then some one else none
utf8_step after_ed b = if within 0x80 0x9f b then some one else none
utf8_step after_f0 b = if within 0x90 0xbf b then some two else none
utf8_step after_f4 b = if within 0x80 0x8f b then some two else none

unfoldable pub utf8_run : Utf8State → Bytes → Bool
utf8_run start [] = true
utf8_run _ [] = false
utf8_run s (b ∷ bs) = elim (utf8_step s b) [ none ↦ false | some t ↦ utf8_run t bs ]

unfoldable pub utf8_valid : Bytes → Bool
unfolding utf8_run
utf8_valid bs = utf8_run start bs
