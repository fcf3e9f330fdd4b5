-- ===== src/Prelude/Utf8.antt =====
-- `String::from_utf8`: which rows of bytes are UTF-8, by the table of the Unicode standard.
use probes.Prelude.{
  ℕ, [], ◌∷◌, Bool, true, false, ◌&&◌, leb, ltb, ◌==◌, if◌then◌else◌, Option, none, some,
}
use probes.Prelude.Bytes.{Bytes}
use probes.Prelude.Text.{Text}

abbrev within : ℕ → ℕ → ℕ → Bool
within lo hi b = leb lo b && leb b hi

abbrev continues : ℕ → Bool
continues = within 0x80 0xbf

-- The second byte behind a first one of three bytes, and of four.
second_of_three : ℕ → ℕ → Bool
second_of_three a b =
    if a == 0xe0
    then within 0xa0 0xbf b
    else if a == 0xed
    then within 0x80 0x9f b
    else within 0xe1 0xef a && continues b

second_of_four : ℕ → ℕ → Bool
second_of_four a b =
    if a == 0xf0
    then within 0x90 0xbf b
    else if a == 0xf4
    then within 0x80 0x8f b
    else within 0xf1 0xf3 a && continues b

-- The bytes are read one by one; `need` says what the next ones must be.
pub data Need : Type 0 where
  first : Need
  last_one last_two : Need
  three four : ℕ → Need

next_need : ℕ → Option Need
next_need a =
    if ltb a 0x80
    then some first
    else if within 0xc2 0xdf a
    then some last_one
    else if within 0xe0 0xef a
    then some (three a)
    else if within 0xf0 0xf4 a
    then some (four a)
    else none

after_byte : Need → ℕ → Option Need
after_byte first b = next_need b
after_byte last_one b = if continues b then some first else none
after_byte last_two b = if continues b then some last_one else none
after_byte (three a) b = if second_of_three a b then some last_one else none
after_byte (four a) b = if second_of_four a b then some last_two else none

valid_from : Option Need → Bytes → Bool
valid_from none bs = false
valid_from (some first) [] = true
valid_from (some need) [] = false
valid_from (some need) (b ∷ bs) = valid_from (after_byte need b) bs

unfoldable pub from_utf8 : Bytes → Option Text
unfolding valid_from after_byte next_need second_of_three second_of_four
from_utf8 bs = if valid_from (some first) bs then some bs else none
