-- ===== src/Printf/Numbers.antt =====
-- What `append_num` writes: a numeral, read back by its digits.
use infos.Prelude.{
  ℕ, zero, suc, ◌+◌, ◌-◌, ◌*◌, ◌/◌, ◌%◌, ◌^◌, ◌≤◌, ◌<◌, ◌≡◌, refl, sym, ap, ◌∙◌, true, false, List,
  [], ◌∷◌, ◌++◌, leb, if◌then◌else◌, length, length-append, append_nil, append_assoc, replicate,
  lt→ltb, le→leb, min, arith,
}
use native.Mathlib.Nat.{
  pow-suc, pow-zero, zero-min, min-zero, suc-min-suc, mod-lt, div-add-mod', div-lt_iff_lt-mul,
}
use infos.Printf.{digit_char, write_digits, write_pad, write_sign, write_value, append_num}

-- The value of a digit's character, and of a numeral in a base.
abbrev pub digit_value : ℕ → ℕ
digit_value c = if leb c 57 then c - 48 else c + 10 - 97

abbrev pub read_numeral : ℕ → ℕ → List ℕ → ℕ
read_numeral base acc [] = acc
read_numeral base acc (c ∷ text) = read_numeral base (acc * base + digit_value c) text

digit_value-digit_char : (d : ℕ) → d < 36 → digit_value (digit_char d) ≡ d
digit_value-digit_char d h = ground arith

read_numeral-append :
    (base acc c : ℕ) (text : List ℕ)
    → read_numeral base acc (text ++ c ∷ []) ≡ read_numeral base acc text * base + digit_value c
read_numeral-append base acc c [] = refl
read_numeral-append base acc c (x ∷ text) =
    read_numeral-append base (acc * base + digit_value x) c text

-- A text for a value in a base, that takes at most `room` characters.
abbrev pub IsNumeral : ℕ → ℕ → ℕ → List ℕ → Type 0
IsNumeral room base value numeral = (read_numeral base 0 numeral ≡ value) × (length numeral ≤ room)

IsNumeral-extended :
    (room base v : ℕ) (numeral : List ℕ)
    → 2 ≤ base
    → base ≤ 36
    → IsNumeral room base (v / base) numeral
    → IsNumeral (suc room) base v (numeral ++ digit_char (v % base) ∷ [])
IsNumeral-extended room base v numeral lo hi (value, fits) = (
  read_numeral-append base 0 (digit_char (v % base)) numeral
      ∙ (rw
          (
            value,
            digit_value-digit_char (v % base) (omega (arith, mod-lt v {m = base} (omega arith))),
          )
          (div-add-mod' v base)),
  omega (arith, length-append numeral (digit_char (v % base) ∷ [])),
)

-- The digits stand before what the buffer held, and there is room for those of a value below
-- base ^ room.
pub write_digits_lem :
    (room base value : ℕ) (buffer : List ℕ)
    → 2 ≤ base
    → base ≤ 36
    → value < base ^ room
    → (numeral : List ℕ) × (write_digits room base value buffer ≡ numeral ++ buffer)
      × IsNumeral room base value numeral
unfolding write_digits
write_digits_lem zero base value buffer lo hi h =
    ([], refl, (omega (arith, pow-zero base), omega arith))
write_digits_lem (suc room) base zero buffer lo hi h = ([], refl, (refl, omega arith))
write_digits_lem (suc room) base (suc v) buffer lo hi h =
    let below =
      (div-lt_iff_lt-mul {k = base} {x = suc v} {y = base ^ room} (omega arith)).1
        (omega (arith, pow-suc base room, h)) in
    let (numeral, written, is) =
      write_digits_lem room base (suc v / base) (digit_char (suc v % base) ∷ buffer) lo hi below in
    (
      numeral ++ digit_char (suc v % base) ∷ [],
      written ∙ append_assoc numeral (digit_char (suc v % base)) buffer,
      IsNumeral-extended room base (suc v) numeral lo hi is,
    )

replicate_snoc : (k c : ℕ) (rest : List ℕ) → replicate k c ++ c ∷ rest ≡ c ∷ replicate k c ++ rest
replicate_snoc zero c rest = refl
replicate_snoc (suc k) c rest = ap (λ more. c ∷ more) (replicate_snoc k c rest)

-- The padding goes before the rest.
write_pad_lem :
    (room pad c : ℕ) (buffer : List ℕ)
    → write_pad room pad c buffer ≡ replicate (min room pad) c ++ buffer
unfolding write_pad
write_pad_lem zero pad c buffer = rw (zero-min pad)
write_pad_lem (suc room) zero c buffer = rw (min-zero (suc room))
write_pad_lem (suc room) (suc pad) c buffer =
    write_pad_lem room pad c (c ∷ buffer)
    ∙ replicate_snoc (min room pad) c buffer
    ∙ ap (λ k. replicate k c ++ buffer) (sym (suc-min-suc room pad))

write_value_lem :
    (size room base value : ℕ) (buffer : List ℕ)
    → 2 ≤ base
    → base ≤ 36
    → size - length buffer ≡ room
    → 0 < room
    → value < base ^ room
    → (numeral : List ℕ) × (write_value size base value buffer ≡ numeral ++ buffer)
      × IsNumeral room base value numeral
unfolding write_value
write_value_lem size room base zero buffer lo hi e pos h =
    rw (lt→ltb (length buffer) size (omega arith)) (48 ∷ [], refl, (omega arith, omega arith))
write_value_lem size room base (suc v) buffer lo hi e pos h =
    rw e (write_digits_lem room base (suc v) buffer lo hi h)

-- The padding that `append_num` writes before `n` characters.
abbrev pub padding : ℕ → ℕ → ℕ → ℕ → List ℕ
padding size pad pad_char n = replicate (min pad (size - 1) - n) pad_char

padded :
    (size pad c : ℕ) (buffer : List ℕ)
    → 0 < size
    → write_pad
        (size - length buffer)
        ((if leb size pad then size - 1 else pad) - length buffer)
        c
        buffer
      ≡ padding size pad c (length buffer) ++ buffer
padded size pad c buffer h =
    write_pad_lem (size - length buffer) ((if leb size pad then size - 1 else pad) - length buffer)
      c buffer
    ∙ ap (λ k. replicate k c ++ buffer) (ground arith)

-- In a base from 2 to 36 and with room for the digits, `append_num` writes the numeral of an unsigned
-- value behind its padding.
pub append_num_unsigned :
    (size value base pad pad_char : ℕ)
    → 2 ≤ base
    → base ≤ 36
    → 0 < size
    → value < base ^ size
    → (numeral : List ℕ) × (append_num size value base false pad pad_char
        ≡ padding size pad pad_char (length numeral) ++ numeral)
      × IsNumeral size base value numeral
unfolding append_num
append_num_unsigned size value base pad c lo hi room h =
    let (numeral, written, is) =
      write_value_lem size size base value [] lo hi (omega arith) room h in
    (
      numeral,
      ap
            (λ buffer.
              write_pad (size - length buffer)
                ((if leb size pad then size - 1 else pad) - length buffer) c buffer)
            (written ∙ append_nil numeral)
          ∙ padded size pad c numeral room,
      is,
    )

-- In a base from 2 to 36 and with room for the digits and the sign, a signed value below 0 gets its
-- sign behind its digits: -5 is written as 5-.
pub append_num_negative :
    (size value base pad pad_char : ℕ)
    → 2 ≤ base
    → base ≤ 36
    → 1 < size
    → 2 ^ 63 ≤ value
    → 2 ^ 64 - value < base ^ (size - 1)
    → (numeral : List ℕ) × (append_num size value base true pad pad_char
        ≡ padding size pad pad_char (suc (length numeral)) ++ (numeral ++ 45 ∷ []))
      × IsNumeral (size - 1) base (2 ^ 64 - value) numeral
unfolding append_num
append_num_negative size value base pad c lo hi room negative h =
    let (numeral, written, is) =
      write_value_lem size (size - 1) base (2 ^ 64 - value) (45 ∷ []) lo hi (omega arith)
        (omega arith) h in
    let sign : write_sign true value ≡ (45 ∷ [], 2 ^ 64 - value) =
      rw (le→leb (2 ^ 63) value negative) in
    (
      numeral,
      rw (sign, written)
          (padded size pad c (numeral ++ 45 ∷ []) (omega arith)
            ∙ ap (λ n. padding size pad c n ++ (numeral ++ 45 ∷ []))
                (omega (arith, length-append numeral (45 ∷ [])))),
      is,
    )
