-- ===== src/Console.antt =====
-- drivers/input/keyboard.cpp, drivers/console/virtual-console.cpp and drivers/terminal/terminal.cpp:
-- from a scancode to the character that a program reads, and from its output to the screen's cells.
-- `none` is an access out of the bounds of an array.
pub mod Ring
pub mod Screen
pub mod Keys
mod Tests
use infos.Prelude.{
  ℕ, zero, suc, ◌+◌, ◌-◌, ◌*◌, ◌/◌, ◌%◌, ◌^◌, Bool, true, false, not, ◌&&◌, Option, none, some,
  List, [], ◌∷◌, ◌++◌, ltb, leb, ◌==◌, if◌then◌else◌, ◌>>=◌, ◌>>◌, get_elem?, set, take, drop,
  replicate, length,
}

-- `Keys`
pub data Key : Type 0 where
  no_key unknown_key key_escape key_a key_b key_c key_d key_e key_f key_g key_h key_i key_j key_k
        key_l key_m key_n key_o key_p key_q key_r key_s key_t key_u key_v key_w key_x key_y key_z
        key_1 key_2 key_3 key_4 key_5 key_6 key_7 key_8 key_9 key_0 key_f1 key_f2 key_f3 key_f4
        key_f5 key_f6 key_f7 key_f8 key_f9 key_f10 key_f11 key_f12 key_asterisk key_lsqbracket
        key_rsqbracket key_dot key_comma key_semicolon key_apostrophe key_hash key_backslash
        key_forslash key_backtick key_hyphen key_equals key_tab key_return key_space key_backspace
        key_capslock key_lshift key_rshift key_lctrl key_rctrl key_lalt key_ralt :
      Key

abbrev pub scancode_map : List Key
scancode_map =
    no_key ∷ key_escape ∷ key_1 ∷ key_2 ∷ key_3 ∷ key_4 ∷ key_5 ∷ key_6 ∷ key_7 ∷ key_8 ∷ key_9
    ∷ key_0 ∷ key_hyphen ∷ key_equals ∷ key_backspace ∷ key_tab ∷ key_q ∷ key_w ∷ key_e ∷ key_r
    ∷ key_t ∷ key_y ∷ key_u ∷ key_i ∷ key_o ∷ key_p ∷ key_lsqbracket ∷ key_rsqbracket ∷ key_return
    ∷ key_lctrl ∷ key_a ∷ key_s ∷ key_d ∷ key_f ∷ key_g ∷ key_h ∷ key_j ∷ key_k ∷ key_l
    ∷ key_semicolon ∷ key_apostrophe ∷ key_backtick ∷ key_lshift ∷ key_backslash ∷ key_z ∷ key_x
    ∷ key_c ∷ key_v ∷ key_b ∷ key_n ∷ key_m ∷ key_comma ∷ key_dot ∷ key_forslash ∷ key_rshift
    ∷ key_asterisk ∷ key_lalt ∷ key_space ∷ key_capslock ∷ key_f1 ∷ key_f2 ∷ key_f3 ∷ key_f4
    ∷ key_f5 ∷ key_f6 ∷ key_f7 ∷ key_f8 ∷ key_f9 ∷ key_f10 ∷ []

-- `scancode_to_key`, of a scancode as a byte.
unfoldable pub scancode_to_key : ℕ → Option Key
scancode_to_key scancode =
    let key_scancode = scancode % 128 in
    if ltb (length scancode_map) key_scancode
    then some unknown_key
    else get_elem? scancode_map key_scancode

-- The character of a key, with and without Shift; `none` for a key that writes none.
abbrev pub key_char : Key → Bool → Option ℕ
key_char key_a is_shift = some (if is_shift then 65 else 97)
key_char key_b is_shift = some (if is_shift then 66 else 98)
key_char key_c is_shift = some (if is_shift then 67 else 99)
key_char key_d is_shift = some (if is_shift then 68 else 100)
key_char key_e is_shift = some (if is_shift then 69 else 101)
key_char key_f is_shift = some (if is_shift then 70 else 102)
key_char key_g is_shift = some (if is_shift then 71 else 103)
key_char key_h is_shift = some (if is_shift then 72 else 104)
key_char key_i is_shift = some (if is_shift then 73 else 105)
key_char key_j is_shift = some (if is_shift then 74 else 106)
key_char key_k is_shift = some (if is_shift then 75 else 107)
key_char key_l is_shift = some (if is_shift then 76 else 108)
key_char key_m is_shift = some (if is_shift then 77 else 109)
key_char key_n is_shift = some (if is_shift then 78 else 110)
key_char key_o is_shift = some (if is_shift then 79 else 111)
key_char key_p is_shift = some (if is_shift then 80 else 112)
key_char key_q is_shift = some (if is_shift then 81 else 113)
key_char key_r is_shift = some (if is_shift then 82 else 114)
key_char key_s is_shift = some (if is_shift then 83 else 115)
key_char key_t is_shift = some (if is_shift then 84 else 116)
key_char key_u is_shift = some (if is_shift then 85 else 117)
key_char key_v is_shift = some (if is_shift then 86 else 118)
key_char key_w is_shift = some (if is_shift then 87 else 119)
key_char key_x is_shift = some (if is_shift then 88 else 120)
key_char key_y is_shift = some (if is_shift then 89 else 121)
key_char key_z is_shift = some (if is_shift then 90 else 122)
key_char key_0 is_shift = some (if is_shift then 41 else 48)
key_char key_1 is_shift = some (if is_shift then 33 else 49)
key_char key_2 is_shift = some (if is_shift then 34 else 50)
key_char key_3 is_shift = some (if is_shift then 35 else 51)
key_char key_4 is_shift = some (if is_shift then 36 else 52)
key_char key_5 is_shift = some (if is_shift then 37 else 53)
key_char key_6 is_shift = some (if is_shift then 94 else 54)
key_char key_7 is_shift = some (if is_shift then 38 else 55)
key_char key_8 is_shift = some (if is_shift then 42 else 56)
key_char key_9 is_shift = some (if is_shift then 40 else 57)
key_char key_hyphen is_shift = some (if is_shift then 95 else 45)
key_char key_equals is_shift = some (if is_shift then 43 else 61)
key_char key_backslash is_shift = some (if is_shift then 124 else 92)
key_char key_forslash is_shift = some (if is_shift then 63 else 47)
key_char key_dot is_shift = some (if is_shift then 62 else 46)
key_char key_space is_shift = some 32
key_char key_return is_shift = some 10
key_char key_backspace is_shift = some 8
key_char _ is_shift = none

abbrev pub is_shift_key : Key → Bool
is_shift_key key_lshift = true
is_shift_key key_rshift = true
is_shift_key _ = false

-- The read buffer of `Terminal`.
pub record Terminal : Type 0 where
  pub read_buffer : List ℕ
  pub head : ℕ
  pub tail : ℕ

abbrev pub new_terminal : Terminal
new_terminal = record { read_buffer = replicate 64 0; head = 0; tail = 0 }

-- `append_to_read_buffer`
unfoldable pub append_to_read_buffer : ℕ → Terminal → Option Terminal
append_to_read_buffer c t = get_elem? t.read_buffer t.tail >>= λ _.
    some (record t { read_buffer = set t.read_buffer t.tail c; tail = (t.tail + 1) % 64 })

-- How `read` goes on: it returns, or waits for the event with what it read so far.
pub data Reading : Type 0 where
  finished waiting : List ℕ → Terminal → Reading

-- `read`, for `n` more characters after those in `out`.
unfoldable pub read_from : ℕ → List ℕ → Terminal → Option Reading
read_from zero out t = some (finished out t)
read_from (suc n) out t = elim (t.head == t.tail) [
  | true ↦ some (waiting out t)
  | false ↦ get_elem? t.read_buffer t.head >>= λ elem.
      read_from n (out ++ elem ∷ []) (record t { head = (t.head + 1) % 64 })
]

unfoldable pub read : ℕ → Terminal → Option Reading
unfolding read_from
read size t = read_from size [] t

-- `VirtualConsole`: of the modifiers only Shift is ever set; the cells are 80 by 25.
pub record Console : Type 0 where
  pub is_shift : Bool
  pub pos : ℕ
  pub cells : List ℕ
  pub terminal : Terminal

abbrev pub screen_size : ℕ
screen_size = 2000

-- `key_up` and `key_down`.
unfoldable pub key_up : Key → Console → Console
key_up key s = if is_shift_key key then record s { is_shift = false } else s

abbrev pub type_char : Option ℕ → Console → Option Console
type_char none s = some s
type_char (some c) s = append_to_read_buffer c s.terminal >>= λ t. some (record s { terminal = t })

unfoldable pub key_down : Key → Console → Option Console
key_down key s =
    if is_shift_key key
    then some (record s { is_shift = true })
    else type_char (key_char key s.is_shift) s

-- `handle_key_event`, with the console as the sink.
unfoldable pub handle_key_event : ℕ → Console → Option Console
unfolding key_up key_down scancode_to_key
handle_key_event scancode s = do
  key ← scancode_to_key scancode
  if ltb scancode 128 then key_down key s else some (key_up key s)

-- `scroll_one_line`
unfoldable pub scroll_one_line : List ℕ → List ℕ
scroll_one_line cells = take 1920 (drop 80 cells) ++ replicate 80 1792 ++ drop 2000 cells

-- A cell: `attr | c` in 16 bits, `c` a signed character.
abbrev pub cell : ℕ → ℕ → ℕ
cell attr c = if ltb c 128 then attr + c else 65280 + c

abbrev pub store_cell : ℕ → ℕ → List ℕ → Option (List ℕ)
store_cell p v cells = get_elem? cells p >>= λ _. some (set cells p v)

-- A character in state 0 that does not start an escape: the new position and cells.
unfoldable pub put_char : ℕ → ℕ → ℕ → List ℕ → Option (ℕ × List ℕ)
put_char c attr pos cells =
    if c == 10
    then some ((pos + (80 - pos % 80)) % 2 ^ 16, cells)
    else if c == 13
    then some (pos - pos % 80, cells)
    else if c == 8
    then (store_cell ((pos + (2 ^ 16 - 1)) % 2 ^ 16) (cell attr 32) cells >>= λ cells'.
        some ((pos + (2 ^ 16 - 1)) % 2 ^ 16, cells'))
    else (store_cell pos (cell attr c) cells >>= λ cells'. some ((pos + 1) % 2 ^ 16, cells'))

-- The check at the end of a round.
abbrev pub scrolled : ℕ × List ℕ → ℕ × List ℕ
scrolled (pos, cells) = if leb screen_size pos then (1920, scroll_one_line cells) else (pos, cells)

-- The loop of `write`; `is_escaped` is state 1.
unfoldable pub write_from : List ℕ → Bool → ℕ → ℕ × List ℕ → Option (ℕ × List ℕ)
write_from [] is_escaped attr screen = some screen
write_from (c ∷ text) true attr screen = write_from text false (c * 256) screen
write_from (c ∷ text) false attr (pos, cells) = elim (c == 27) [
  | true ↦ write_from text true attr (scrolled (pos, cells))
  | false ↦ put_char c attr pos cells >>= λ screen. write_from text false attr (scrolled screen)
]

unfoldable pub write : List ℕ → Console → Option Console
unfolding write_from
write text s = do
  (pos, cells) ← write_from text false 1792 (s.pos, s.cells)
  some (record s { pos = pos; cells = cells })
