-- ===== src/Protocol/Transfer/Utf8.antt =====
-- `std::str::from_utf8` on the file name of crates/ceky-protocol/src/transfer.rs, as a machine that reads
-- a byte at a time: no overlong forms, no surrogates, nothing above U+10FFFF.
use ceky_p2p.Common.{
  ℕ, zero, suc, Bool, true, false, ◌&&◌, Option, none, some, List, [], ◌∷◌, ltb, leb, if◌then◌else◌,
}

-- Between characters, or in one: the range of the next byte and the number of bytes after it.
pub data Utf8 : Type 0 where
  between : Utf8
  within : ℕ → ℕ → ℕ → Utf8

abbrev first_byte : ℕ → Option Utf8
first_byte b =
    if ltb b 0x80
    then some between
    else (if ltb b 0xC2
        then none
        else (if ltb b 0xE0
            then some (within 0x80 0xBF 0)
            else (if ltb b 0xE1
                then some (within 0xA0 0xBF 1)
                else (if ltb b 0xED
                    then some (within 0x80 0xBF 1)
                    else (if ltb b 0xEE
                        then some (within 0x80 0x9F 1)
                        else (if ltb b 0xF0
                            then some (within 0x80 0xBF 1)
                            else (if ltb b 0xF1
                                then some (within 0x90 0xBF 2)
                                else (if ltb b 0xF4
                                    then some (within 0x80 0xBF 2)
                                    else (if ltb b 0xF5
                                        then some (within 0x80 0x8F 2)
                                        else none)))))))))

abbrev next_byte : Utf8 → ℕ → Option Utf8
next_byte between b = first_byte b
next_byte (within lo hi zero) b = if leb lo b && leb b hi then some between else none
next_byte (within lo hi (suc n)) b =
    if leb lo b && leb b hi then some (within 0x80 0xBF n) else none

unfoldable pub utf8_from : Utf8 → List ℕ → Bool
utf8_from between [] = true
utf8_from (within lo hi n) [] = false
utf8_from s (b ∷ bs) = elim (next_byte s b) [ none ↦ false | some t ↦ utf8_from t bs ]

unfoldable pub is_utf8 : List ℕ → Bool
unfolding utf8_from
is_utf8 bs = utf8_from between bs
