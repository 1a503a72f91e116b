-- ===== src/Printf.antt =====
-- util/printf.cpp. A buffer is the list of the characters that were written to it, in order: the
-- code fills it from its start, `prepend_to_buffer` shifts what was written, and nothing else reads
-- it. Characters are their codes. `none` is an argument of the wrong kind, or one too few.
pub mod Numbers
pub mod Bounds
mod Tests
use infos.Prelude.{
  ℕ, zero, suc, ◌+◌, ◌-◌, ◌*◌, ◌/◌, ◌%◌, ◌^◌, Bool, true, false, ◌&&◌, ◌||◌, Option, none, some,
  List, [], ◌∷◌, ◌++◌, ltb, leb, ◌==◌, if◌then◌else◌, ◌>>=◌, ◌>>◌, length,
}

-- The two ranges of the switch on `digit_value`; a base is 2, 10 or 16.
abbrev pub digit_char : ℕ → ℕ
digit_char digit_value = if leb digit_value 9 then 48 + digit_value else 97 + digit_value - 10

-- `while (value > 0 && n < size)`; the first argument is `size - n`.
unfoldable pub write_digits : ℕ → ℕ → ℕ → List ℕ → List ℕ
write_digits zero base value buffer = buffer
write_digits (suc room) base zero buffer = buffer
write_digits (suc room) base (suc v) buffer =
    write_digits room base (suc v / base) (digit_char (suc v % base) ∷ buffer)

-- `while (pad > 0 && n < size)`
unfoldable pub write_pad : ℕ → ℕ → ℕ → List ℕ → List ℕ
write_pad zero pad pad_char buffer = buffer
write_pad (suc room) zero pad_char buffer = buffer
write_pad (suc room) (suc pad) pad_char buffer = write_pad room pad pad_char (pad_char ∷ buffer)

-- The sign: the buffer with a '-', and the value negated in 64 bits.
abbrev pub write_sign : Bool → ℕ → List ℕ × ℕ
write_sign sgn value = if sgn && leb (2 ^ 63) value then (45 ∷ [], 2 ^ 64 - value) else ([], value)

-- The digits after the sign, or a '0'.
unfoldable pub write_value : ℕ → ℕ → ℕ → List ℕ → List ℕ
unfolding write_digits
write_value size base zero buffer = if ltb (length buffer) size then 48 ∷ buffer else buffer
write_value size base (suc v) buffer = write_digits (size - length buffer) base (suc v) buffer

-- `append_num`. Where the source's `pad` drops below 0 it is 0 here; both end the last loop.
unfoldable pub append_num : ℕ → ℕ → ℕ → Bool → ℕ → ℕ → List ℕ
unfolding write_value write_pad
append_num size value base sgn pad pad_char =
    let pad' = if leb size pad then size - 1 else pad in
    let (signed, magnitude) = write_sign sgn value in
    let buffer = write_value size base magnitude signed in
    write_pad (size - length buffer) (pad' - length buffer) pad_char buffer

-- `while (*text && n < size)`; the text is what stands before its NUL.
unfoldable pub write_text : ℕ → List ℕ → List ℕ
write_text zero text = []
write_text (suc room) [] = []
write_text (suc room) (c ∷ text) = c ∷ write_text room text

-- `while (n < size && n < pad)`
unfoldable pub write_spaces : ℕ → ℕ → ℕ → List ℕ
write_spaces zero pad pad_char = []
write_spaces (suc room) zero pad_char = []
write_spaces (suc room) (suc pad) pad_char = pad_char ∷ write_spaces room pad pad_char

unfoldable pub append_str : ℕ → List ℕ → ℕ → ℕ → List ℕ
unfolding write_text write_spaces
append_str size text pad pad_char =
    let start = write_text size text in
    start ++ write_spaces (size - length start) (pad - length start) pad_char

-- An argument behind the `va_list`: a machine word, or a pointer to a text.
pub data Argument : Type 0 where
  word : ℕ → Argument
  text : List ℕ → Argument

-- What `switch (*fmt)` makes of a character.
pub data Conversion : Type 0 where
  zero_flag long_flag number_signed number_unsigned binary hex pointer string character other :
      Conversion
  width : ℕ → Conversion

abbrev pub conversion : ℕ → Conversion
conversion c =
    if c == 48
    then zero_flag
    else if leb 49 c && leb c 57
    then width (c - 48)
    else if c == 100
    then number_signed
    else if c == 117
    then number_unsigned
    else if c == 98
    then binary
    else if c == 120
    then hex
    else if c == 112
    then pointer
    else if c == 108
    then long_flag
    else if c == 115
    then string
    else if c == 99
    then character
    else other

-- `(uint64_t)(int64_t)(int32_t)`
abbrev pub sign_extend : ℕ → ℕ
sign_extend v = if ltb (v % 2 ^ 32) (2 ^ 31) then v % 2 ^ 32 else v % 2 ^ 32 + (2 ^ 64 - 2 ^ 32)

-- The locals of a directive: `pad_size`, `pad_char`, and `number_size == 8`.
pub record Directive : Type 0 where
  pub pad_size : ℕ
  pub pad_char : ℕ
  pub is_long : Bool

abbrev pub new_directive : Directive
new_directive = record { pad_size = 0; pad_char = 32; is_long = false }

-- The directive after a character that ends in `goto retry_format`; `none` for the others.
abbrev pub refine : Conversion → Directive → Option Directive
refine zero_flag d = some (
    if ltb 0 d.pad_size
    then record d { pad_size = d.pad_size * 10 }
    else record d { pad_char = 48 })
refine (width digit) d = some (record d { pad_size = d.pad_size * 10 + digit })
refine long_flag d = some (record d { is_long = true })
refine _ d = none

abbrev pub narrowed : Bool → ℕ → ℕ
narrowed is_long v = if is_long then v % 2 ^ 64 else v % 2 ^ 32

-- The text of a directive in a buffer with `room` characters left, and the arguments that follow.
unfoldable pub convert :
    Conversion → ℕ → Directive → ℕ → List Argument → Option (List ℕ × List Argument)
unfolding append_num append_str
convert number_signed c d room (word v ∷ args) = some (
  append_num room (if d.is_long then v % 2 ^ 64 else sign_extend v) 10 true d.pad_size d.pad_char,
  args,
)
convert number_unsigned c d room (word v ∷ args) =
    some (append_num room (narrowed d.is_long v) 10 false d.pad_size d.pad_char, args)
convert binary c d room (word v ∷ args) =
    some (append_num room (narrowed d.is_long v) 2 false d.pad_size d.pad_char, args)
convert hex c d room (word v ∷ args) =
    some (append_num room (narrowed d.is_long v) 16 false d.pad_size d.pad_char, args)
convert pointer c d room (word v ∷ args) =
    let prefix = append_str room (48 ∷ 120 ∷ []) 0 32 in
    some (
      prefix ++ append_num (room - length prefix) (v % 2 ^ 64) 16 false d.pad_size d.pad_char,
      args,
    )
convert string c d room (text t ∷ args) = some (append_str room t d.pad_size d.pad_char, args)
convert character c d room (word v ∷ args) = some (v % 256 ∷ [], args)
convert other c d room args = some (c ∷ [], args)
convert _ c d room args = none

-- Where the loop of `vsnprintf` is: before a character, or at `retry_format` in a directive.
pub data Mode : Type 0 where
  plain : Mode
  within : Directive → Mode

-- The loop, with the text written so far; `limit` is `size - 1`.
unfoldable pub print_from : List ℕ → Mode → ℕ → List Argument → List ℕ → Option (List ℕ)
unfolding convert
print_from [] mode limit args out = some out
print_from (c ∷ fmt) plain limit args out = elim (ltb (length out) limit) [
  | false ↦ some out
  | true ↦ elim (c == 37) [
    | true ↦ print_from fmt (within new_directive) limit args out
    | false ↦ print_from fmt plain limit args (out ++ c ∷ [])
  ]
]
print_from (c ∷ fmt) (within d) limit args out = elim (refine (conversion c) d) [
  | some d' ↦ print_from fmt (within d') limit args out
  | none ↦ convert (conversion c) c d (limit - length out) args >>= λ (piece, args').
      print_from fmt plain limit args' (out ++ piece)
]

-- `vsnprintf`: the text before the NUL. The count that it returns is the text's length.
unfoldable pub vsnprintf : ℕ → List ℕ → List Argument → Option (List ℕ)
unfolding print_from
vsnprintf zero fmt args = some []
vsnprintf (suc limit) fmt args = print_from fmt plain limit args []

-- `sprintf`
unfoldable pub sprintf : List ℕ → List Argument → Option (List ℕ)
unfolding vsnprintf
sprintf fmt args = vsnprintf 4096 fmt args
