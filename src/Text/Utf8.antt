-- ===== src/Text/Utf8.antt =====
-- `String::from_utf8`, the inverse of `as_bytes`: a decoder that reads one byte at a time.
use omnivore.Prelude.{
  ℕ, ◌+◌, ◌-◌, ◌*◌, ◌/◌, ◌%◌, ◌≤◌, ◌<◌, ◌≡◌, ◌⊎◌, inl, inr, refl, ap, ◌∙◌, true, false, ◌&&◌,
  Option, none, some, List, [], ◌∷◌, ◌++◌, arith,
}
use omnivore.Prelude.Tests.{ltb, leb, ◌==◌, if◌then◌else◌, Bool-cases}
use omnivore.Text.Base.{Text, All}
use omnivore.Text.Bytes.{encode, as_bytes}

-- how many bytes of a character are left, the bounds of the next, and the bits read
record Decoder : Type 0 where
  left : ℕ
  low : ℕ
  high : ℕ
  bits : ℕ

abbrev ready : Decoder
ready = record { left = 0; low = 0x80; high = 0xbf; bits = 0 }

-- the first byte of a character of several; overlong forms and surrogates have no second byte
lead : ℕ → Option Decoder
lead b =
    if leb 0xc2 b && leb b 0xdf
    then some (record { left = 1; low = 0x80; high = 0xbf; bits = b - 0xc0 })
    else if leb 0xe0 b && leb b 0xef
    then some (record {
      left = 2;
      low = if b == 0xe0 then 0xa0 else 0x80;
      high = if b == 0xed then 0x9f else 0xbf;
      bits = b - 0xe0;
    })
    else if leb 0xf0 b && leb b 0xf4
    then some (record {
      left = 3;
      low = if b == 0xf0 then 0x90 else 0x80;
      high = if b == 0xf4 then 0x8f else 0xbf;
      bits = b - 0xf0;
    })
    else none

go_on : Decoder → ℕ → Option (Option ℕ × Decoder)
go_on d c =
    if d.left == 1
    then some (some c, ready)
    else some (none, record { left = d.left - 1; low = 0x80; high = 0xbf; bits = c })

-- the character that a byte ends, if any, and what follows
read_byte : Decoder → ℕ → Option (Option ℕ × Decoder)
unfolding lead go_on
read_byte d b =
    if d.left == 0
    then if ltb b 0x80
      then some (some b, ready)
      else elim (lead b) [ none ↦ none | some e ↦ some (none, e) ]
    else if leb d.low b && leb b d.high
    then go_on d (d.bits * 64 + (b - 0x80))
    else none

push_char : Option ℕ → Option Text → Option Text
push_char none s = s
push_char (some c) none = none
push_char (some c) (some s) = some (c ∷ s)

decode_from : Decoder → List ℕ → Option Text
unfolding read_byte push_char
decode_from d [] = if d.left == 0 then some [] else none
decode_from d (b ∷ s) = elim (read_byte d b) [
  | none ↦ none
  | some (c, e) ↦ push_char c (decode_from e s)
]

unfoldable pub from_utf8 : List ℕ → Option Text
unfolding decode_from
from_utf8 bytes = decode_from ready bytes

-- a `char`: a code point that is no surrogate
abbrev pub IsChar : ℕ → Type 0
IsChar c = (c < 0x110000) × ((c < 0xd800) ⊎ (0xe000 ≤ c))

module _ (c : ℕ) where
  read_one : ltb c 0x80 ≡ true → read_byte ready c ≡ some (some c, ready)
  unfolding read_byte
  read_one h = ground (arith, h)

  two : Decoder
  two = record { left = 1; low = 0x80; high = 0xbf; bits = c / 64 }

  read_two :
      ltb c 0x80 ≡ false → ltb c 0x800 ≡ true → read_byte ready (0xc0 + c / 64) ≡ some (none, two)
  unfolding read_byte lead two
  read_two h k = ground (arith, h, k)

  read_last : read_byte two (0x80 + c % 64) ≡ some (some c, ready)
  unfolding read_byte two go_on
  read_last = ground arith

  three : Decoder
  three = record {
    left = 2;
    low = if 0xe0 + c / 4096 == 0xe0 then 0xa0 else 0x80;
    high = if 0xe0 + c / 4096 == 0xed then 0x9f else 0xbf;
    bits = c / 4096;
  }

  read_three :
      ltb c 0x800 ≡ false
      → ltb c 0x10000 ≡ true
      → read_byte ready (0xe0 + c / 4096) ≡ some (none, three)
  unfolding read_byte lead three
  read_three h k = ground (arith, h, k)

  read_second :
      IsChar c
      → ltb c 0x800 ≡ false
      → ltb c 0x10000 ≡ true
      → read_byte three (0x80 + c / 64 % 64) ≡ some (none, two)
  unfolding read_byte three two go_on
  read_second i h k = ground (arith, i.0, i.1, h, k)

  four : Decoder
  four = record {
    left = 3;
    low = if 0xf0 + c / 262144 == 0xf0 then 0x90 else 0x80;
    high = if 0xf0 + c / 262144 == 0xf4 then 0x8f else 0xbf;
    bits = c / 262144;
  }

  later : Decoder
  later = record { left = 2; low = 0x80; high = 0xbf; bits = c / 4096 }

  read_four :
      IsChar c → ltb c 0x10000 ≡ false → read_byte ready (0xf0 + c / 262144) ≡ some (none, four)
  unfolding read_byte lead four
  read_four i h = ground (arith, i.0, h)

  read_second_of_four :
      IsChar c → ltb c 0x10000 ≡ false → read_byte four (0x80 + c / 4096 % 64) ≡ some (none, later)
  unfolding read_byte four later go_on
  read_second_of_four i h = ground (arith, i.0, h)

  read_third : read_byte later (0x80 + c / 64 % 64) ≡ some (none, two)
  unfolding read_byte later two go_on
  read_third = ground arith

decode_from-next :
    (d e : Decoder) (o : Option ℕ) (b : ℕ) (s : List ℕ)
    → read_byte d b ≡ some (o, e)
    → decode_from d (b ∷ s) ≡ push_char o (decode_from e s)
unfolding decode_from
decode_from-next d e o b s h = rw (h, decode_from) refl

-- A character is read back from its bytes.
decode_from-encode :
    (c : ℕ) (s : List ℕ)
    → IsChar c
    → decode_from ready (encode c ++ s) ≡ push_char (some c) (decode_from ready s)
unfolding encode push_char
decode_from-encode c s i = elim (Bool-cases (ltb c 0x80)) [
  | inl h ↦ rw (h, encode) (decode_from-next ready ready (some c) c s (read_one c h))
  | inr h ↦ elim (Bool-cases (ltb c 0x800)) [
    | inl k ↦
        rw (h, k, encode)
          (decode_from-next ready (two c) none _ _ (read_two c h k)
            ∙ decode_from-next (two c) ready (some c) _ s (read_last c))
    | inr k ↦ elim (Bool-cases (ltb c 0x10000)) [
      | inl l ↦
          rw (h, k, l, encode)
            (decode_from-next ready (three c) none _ _ (read_three c k l)
              ∙ decode_from-next (three c) (two c) none _ _ (read_second c i k l)
              ∙ decode_from-next (two c) ready (some c) _ s (read_last c))
      | inr l ↦
          rw (h, k, l, encode)
            (decode_from-next ready (four c) none _ _ (read_four c i l)
              ∙ decode_from-next (four c) (later c) none _ _ (read_second_of_four c i l)
              ∙ decode_from-next (later c) (two c) none _ _ (read_third c)
              ∙ decode_from-next (two c) ready (some c) _ s (read_last c))
    ]
  ]
]

-- Decoding gives back the text whose bytes it reads.
pub from_utf8-as_bytes : (s : Text) → All IsChar s → from_utf8 (as_bytes s) ≡ some s
unfolding from_utf8 as_bytes
from_utf8-as_bytes [] h = unfold decode_from in refl
from_utf8-as_bytes (c ∷ s) (i, h) =
    decode_from-encode c (as_bytes s) i ∙ ap (push_char (some c)) (from_utf8-as_bytes s h)
