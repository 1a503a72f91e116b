-- ===== src/Printf/Bounds.antt =====
-- `vsnprintf` stays within its buffer, and returns.
use infos.Prelude.{
  ℕ, zero, suc, ◌+◌, ◌-◌, ◌/◌, ◌%◌, ◌^◌, ◌≤◌, ◌<◌, ◌≡◌, refl, Bool, true, false, Option, none, some,
  List, [], ◌∷◌, ◌++◌, ltb, leb, ◌==◌, if◌then◌else◌, ◌>>=◌, length, length-append, take, tally,
  append_nil, append_assoc, ltb→lt, arith,
}
use infos.Printf.{
  write_digits, write_pad, write_sign, write_value, append_num, write_text, write_spaces,
  append_str, Argument, word, text, Conversion, zero_flag, long_flag, number_signed,
  number_unsigned, binary, hex, pointer, string, character, other, width, conversion, Directive,
  refine, narrowed, sign_extend, new_directive, convert, Mode, plain, within, print_from, vsnprintf,
}

length-write_digits :
    (room base value : ℕ) (buffer : List ℕ)
    → length (write_digits room base value buffer) ≤ room + length buffer
unfolding write_digits
length-write_digits zero base value buffer = omega arith
length-write_digits (suc room) base zero buffer = omega arith
length-write_digits (suc room) base (suc v) buffer =
    omega (arith, length-write_digits room base (suc v / base) (_ ∷ buffer))

length-write_pad :
    (room pad c : ℕ) (buffer : List ℕ) → length (write_pad room pad c buffer) ≤ room + length buffer
unfolding write_pad
length-write_pad zero pad c buffer = omega arith
length-write_pad (suc room) zero c buffer = omega arith
length-write_pad (suc room) (suc pad) c buffer =
    omega (arith, length-write_pad room pad c (c ∷ buffer))

length-write_value :
    (size base value : ℕ) (buffer : List ℕ)
    → length buffer ≤ size
    → length (write_value size base value buffer) ≤ size
unfolding write_value
length-write_value size base zero buffer h = ground arith
length-write_value size base (suc v) buffer h =
    omega (arith, length-write_digits (size - length buffer) base (suc v) buffer)

write_sign_fits :
    (size value : ℕ) (sgn : Bool) → (sgn ≡ true → 0 < size) → length (write_sign sgn value).0 ≤ size
write_sign_fits size value sgn h = ground (arith, h)

length-append_num :
    (size value base pad c : ℕ) (sgn : Bool)
    → (sgn ≡ true → 0 < size)
    → length (append_num size value base sgn pad c) ≤ size
unfolding append_num
length-append_num size value base pad c sgn h =
    let signed = (write_sign sgn value).0 in
    let fits =
      length-write_value size base (write_sign sgn value).1 signed
        (write_sign_fits size value sgn h) in
    let buffer = write_value size base (write_sign sgn value).1 signed in
    omega (
      arith,
      fits,
      length-write_pad (size - length buffer)
          ((if leb size pad then size - 1 else pad) - length buffer) c buffer,
    )

length-write_text : (room : ℕ) (t : List ℕ) → length (write_text room t) ≤ room
unfolding write_text
length-write_text zero t = omega arith
length-write_text (suc room) [] = omega arith
length-write_text (suc room) (c ∷ t) = omega (arith, length-write_text room t)

length-write_spaces : (room pad c : ℕ) → length (write_spaces room pad c) ≤ room
unfolding write_spaces
length-write_spaces zero pad c = omega arith
length-write_spaces (suc room) zero c = omega arith
length-write_spaces (suc room) (suc pad) c = omega (arith, length-write_spaces room pad c)

length-append_str : (size pad c : ℕ) (t : List ℕ) → length (append_str size t pad c) ≤ size
unfolding append_str
length-append_str size pad c t =
    let start = write_text size t in
    omega (
      arith,
      length-append start (write_spaces (size - length start) (pad - length start) c),
      length-write_text size t,
      length-write_spaces (size - length start) (pad - length start) c,
    )

-- What a caller owes a format: the arguments that its directives read, in order.
pub data Kind : Type 0 where
  as_word as_text nothing : Kind

abbrev pub reads : Conversion → Kind
reads string = as_text
reads other = nothing
reads _ = as_word

abbrev pub Supply : Kind → (List Argument → Type 0) → List Argument → Type 0
Supply nothing rest args = rest args
Supply as_word rest (word v ∷ args) = rest args
Supply as_text rest (text t ∷ args) = rest args
Supply _ rest args = ⊥

-- The arguments fit a format, read from a mode on.
abbrev pub Supplies : List ℕ → Mode → List Argument → Type 0
Supplies [] mode args = Unit {0}
Supplies (c ∷ fmt) plain args = Supplies fmt (if c == 37 then within new_directive else plain) args
Supplies (c ∷ fmt) (within d) args = elim (refine (conversion c) d) [
  | some d' ↦ Supplies fmt (within d') args
  | none ↦ Supply (reads (conversion c)) (Supplies fmt plain) args
]

-- What a directive writes fits in the room that is left, and it takes its own argument.
abbrev Converted : ℕ → (List Argument → Type 0) → Option (List ℕ × List Argument) → Type 0
Converted room rest none = ⊥
Converted room rest (some (piece, args)) = (length piece ≤ room) × rest args

convert_lem :
    (conv : Conversion) (c room : ℕ) (d : Directive) (args : List Argument)
    (rest : List Argument → Type 0)
    → 0 < room
    → refine conv d ≡ none
    → Supply (reads conv) rest args
    → Converted room rest (convert conv c d room args)
unfolding convert
convert_lem zero_flag c room d args rest h e s = cc
convert_lem long_flag c room d args rest h e s = cc
convert_lem (width digit) c room d args rest h e s = cc
convert_lem number_signed c room d (word v ∷ args) rest h e s = (
  length-append_num room (if d.is_long then v % 2 ^ 64 else sign_extend v) 10 d.pad_size d.pad_char
      true (λ _. h),
  s,
)
convert_lem number_unsigned c room d (word v ∷ args) rest h e s =
    (length-append_num room (narrowed d.is_long v) 10 d.pad_size d.pad_char false (λ q. cc), s)
convert_lem binary c room d (word v ∷ args) rest h e s =
    (length-append_num room (narrowed d.is_long v) 2 d.pad_size d.pad_char false (λ q. cc), s)
convert_lem hex c room d (word v ∷ args) rest h e s =
    (length-append_num room (narrowed d.is_long v) 16 d.pad_size d.pad_char false (λ q. cc), s)
convert_lem pointer c room d (word v ∷ args) rest h e s =
    let prefix = append_str room (48 ∷ 120 ∷ []) 0 32 in
    let number = append_num (room - length prefix) (v % 2 ^ 64) 16 false d.pad_size d.pad_char in
    (
      omega (
        arith,
        length-append prefix number,
        length-append_str room 0 32 (48 ∷ 120 ∷ []),
        length-append_num (room - length prefix) (v % 2 ^ 64) 16 d.pad_size d.pad_char false
            (λ q. cc),
      ),
      s,
    )
convert_lem string c room d (text t ∷ args) rest h e s =
    (length-append_str room d.pad_size d.pad_char t, s)
convert_lem character c room d (word v ∷ args) rest h e s = (omega arith, s)
convert_lem other c room d args rest h e s = (omega arith, s)
convert_lem number_signed c room d [] rest h e s = elim s [ ]
convert_lem number_signed c room d (text t ∷ args) rest h e s = elim s [ ]
convert_lem number_unsigned c room d [] rest h e s = elim s [ ]
convert_lem number_unsigned c room d (text t ∷ args) rest h e s = elim s [ ]
convert_lem binary c room d [] rest h e s = elim s [ ]
convert_lem binary c room d (text t ∷ args) rest h e s = elim s [ ]
convert_lem hex c room d [] rest h e s = elim s [ ]
convert_lem hex c room d (text t ∷ args) rest h e s = elim s [ ]
convert_lem pointer c room d [] rest h e s = elim s [ ]
convert_lem pointer c room d (text t ∷ args) rest h e s = elim s [ ]
convert_lem string c room d [] rest h e s = elim s [ ]
convert_lem string c room d (word v ∷ args) rest h e s = elim s [ ]
convert_lem character c room d [] rest h e s = elim s [ ]
convert_lem character c room d (text t ∷ args) rest h e s = elim s [ ]

abbrev Fits : ℕ → Option (List ℕ) → Type 0
Fits limit none = ⊥
Fits limit (some out) = length out ≤ limit

abbrev HasRoom : Mode → ℕ → List ℕ → Type 0
HasRoom plain limit out = length out ≤ limit
HasRoom (within d) limit out = length out < limit

-- The two splits of the loop, on a test and on a directive that goes on.
on_test :
    (limit : ℕ) (b : Bool) (S : Bool → Type 0) (x y : Option (List ℕ))
    → S b
    → (b ≡ true → S true → Fits limit x)
    → (b ≡ false → S false → Fits limit y)
    → Fits limit (elim b [ true ↦ x | false ↦ y ])
on_test limit true S x y s f g = f refl s
on_test limit false S x y s f g = g refl s

on_directive :
    (limit : ℕ) (o : Option Directive) (S : Directive → Type 0) (T : Type 0)
    (f : Directive → Option (List ℕ)) (y : Option (List ℕ))
    → elim o as (λ _. Type 0) [ some d' ↦ S d' | none ↦ T ]
    → ((d' : Directive) → S d' → Fits limit (f d'))
    → (o ≡ none → T → Fits limit y)
    → Fits limit (elim o [ some d' ↦ f d' | none ↦ y ])
on_directive limit none S T h y s f g = g refl s
on_directive limit (some d') S T h y s f g = f d' s

on_piece :
    (limit room : ℕ) (rest : List Argument → Type 0) (m : Option (List ℕ × List Argument))
    (k : List ℕ × List Argument → Option (List ℕ))
    → Converted room rest m
    → ((piece : List ℕ) (args : List Argument)
        → length piece ≤ room
        → rest args
        → Fits limit (k (piece, args)))
    → Fits limit (m >>= k)
on_piece limit room rest none k s f = elim s [ ]
on_piece limit room rest (some (piece, args)) k (fits, s) f = f piece args fits s

print_from_lem :
    (fmt : List ℕ) (mode : Mode) (limit : ℕ) (args : List Argument) (out : List ℕ)
    → Supplies fmt mode args
    → HasRoom mode limit out
    → Fits limit (print_from fmt mode limit args out)
unfolding print_from
print_from_lem [] plain limit args out s room = room
print_from_lem [] (within d) limit args out s room = omega arith
print_from_lem (c ∷ fmt) plain limit args out s room =
    on_test limit (ltb (length out) limit) (λ _. Unit {0}) _ _ tt
      (λ e _.
        on_test limit (c == 37) (λ b. Supplies fmt (if b then within new_directive else plain) args)
          _ _ s
          (λ _ s'.
            print_from_lem fmt (within new_directive) limit args out s'
              (ltb→lt (length out) limit e))
          (λ _ s'.
            print_from_lem fmt plain limit args (out ++ c ∷ []) s'
              (omega (arith, ltb→lt (length out) limit e, length-append out (c ∷ [])))))
      (λ _ _. room)
print_from_lem (c ∷ fmt) (within d) limit args out s room =
    on_directive limit (refine (conversion c) d) (λ d'. Supplies fmt (within d') args)
      (Supply (reads (conversion c)) (Supplies fmt plain) args) _ _ s
      (λ d' s'. print_from_lem fmt (within d') limit args out s' room)
      (λ e s'.
        on_piece limit (limit - length out) (Supplies fmt plain)
          (convert (conversion c) c d (limit - length out) args) _
          (convert_lem (conversion c) c (limit - length out) d args (Supplies fmt plain)
            (omega arith) e s')
          (λ piece args' fits more.
            print_from_lem fmt plain limit args' (out ++ piece) more
              (omega (arith, length-append out piece, fits))))

-- With the arguments that its format asks for and a buffer of `size` characters that is not empty,
-- `vsnprintf` returns, and the text and its NUL fit in the buffer.
pub vsnprintf_fits :
    (size : ℕ) (fmt : List ℕ) (args : List Argument)
    → 0 < size
    → Supplies fmt plain args
    → (out : List ℕ) × (vsnprintf size fmt args ≡ some out) × (length out < size)
unfolding vsnprintf
vsnprintf_fits zero fmt args pos s = absurd (omega arith)
vsnprintf_fits (suc limit) fmt args pos s =
    read (print_from fmt plain limit args [])
      (print_from_lem fmt plain limit args [] s (omega arith))
  where
    read :
        (o : Option (List ℕ))
        → Fits limit o
        → (out : List ℕ) × (o ≡ some out) × (length out < suc limit)
    read none f = elim f [ ]
    read (some out) f = (out, refl, omega arith)

print_literal :
    (fmt : List ℕ) (room limit : ℕ) (args : List Argument) (out : List ℕ)
    → tally 37 fmt ≡ 0
    → limit - length out ≡ room
    → print_from fmt plain limit args out ≡ some (out ++ take room fmt)
unfolding print_from
print_literal [] zero limit args out h e = rw (append_nil out)
print_literal [] (suc room) limit args out h e = rw (append_nil out)
print_literal (c ∷ fmt) zero limit args out h e = ground (arith, append_nil out)
print_literal (c ∷ fmt) (suc room) limit args out h e =
    let rest =
      print_literal fmt room limit args (out ++ c ∷ []) (ground arith)
        (omega (arith, length-append out (c ∷ []))) in
    ground (arith, rest, append_assoc out c (take room fmt))

-- A format without '%' is copied, as far as the buffer goes.
pub vsnprintf_literal :
    (limit : ℕ) (fmt : List ℕ) (args : List Argument)
    → tally 37 fmt ≡ 0
    → vsnprintf (suc limit) fmt args ≡ some (take limit fmt)
unfolding vsnprintf
vsnprintf_literal limit fmt args h = print_literal fmt limit limit args [] h (omega arith)
