-- ===== src/Console/Keys.antt =====
-- From the scancodes of the keyboard to the queue of the terminal.
use infos.Prelude.{
  ℕ, ◌%◌, ◌≤◌, ◌<◌, ◌≡◌, ◌↔◌, refl, Bool, true, false, not, Option, none, some, List, [], ◌∷◌, ◌++◌,
  ltb, if◌then◌else◌, get_elem?, get_elem?_of_lt, length, append_nil, Bool-cases, inl, inr, arith,
}
use infos.Console.{
  Key, scancode_map, scancode_to_key, key_char, is_shift_key, Console, key_up, key_down, type_char,
  handle_key_event,
}
use infos.Console.Ring.{Holds, append_to_read_buffer_lem}

in_table : (k : ℕ) → get_elem? scancode_map k ≡ none → 69 ≤ k
in_table k q = elim (Bool-cases (ltb k 69)) [
  | inl e ↦ let (key, at) = get_elem?_of_lt scancode_map k (ground arith) in absurd (cc (at, q))
  | inr e ↦ ground arith
]

-- A scancode makes `scancode_to_key` read behind its table exactly if its low bits are 69, the
-- table's length.
pub scancode_to_key_iff : (scancode : ℕ) → (scancode_to_key scancode ≡ none) ↔ (scancode % 128 ≡ 69)
unfolding scancode_to_key
scancode_to_key_iff scancode = elim (Bool-cases (ltb 69 (scancode % 128))) [
  | inl e ↦ (λ q. absurd (cc (rw e at q)), λ q. absurd (ground (arith, q)))
  | inr e ↦ (λ q. (let low = in_table (scancode % 128) (rw e at q) in ground arith), λ q. rw q refl)
]

-- The characters that a key writes to the queue.
abbrev pub typed : Option ℕ → List ℕ
typed none = []
typed (some c) = c ∷ []

type_char_lem :
    (o : Option ℕ) (s : Console) (queue : List ℕ)
    → Holds s.terminal queue
    → length queue < 63
    → (s' : Console) × (type_char o s ≡ some s') × Holds s'.terminal (queue ++ typed o)
type_char_lem none s queue holds room = (s, refl, rw (append_nil queue) holds)
type_char_lem (some c) s queue holds room =
    let (t, ends, holds') = append_to_read_buffer_lem c s.terminal queue holds room in
    (record s { terminal = t }, rw ends refl, holds')

-- What a key's press or release adds to the queue, and what is left of Shift.
abbrev pub event_text : Key → Bool → Bool → List ℕ
event_text key is_release is_shift =
    if is_release then [] else if is_shift_key key then [] else typed (key_char key is_shift)

key_up_lem :
    (key : Key) (s : Console) (queue : List ℕ)
    → Holds s.terminal queue
    → Holds (key_up key s).terminal queue
unfolding key_up
key_up_lem key s queue holds = elim (Bool-cases (is_shift_key key)) [
  | inl e ↦ rw (key_up, e) holds
  | inr e ↦ rw (key_up, e) holds
]

key_down_lem :
    (key : Key) (s : Console) (queue : List ℕ)
    → Holds s.terminal queue
    → length queue < 63
    → (s' : Console) × (key_down key s ≡ some s')
      × Holds s'.terminal (queue ++ event_text key false s.is_shift)
unfolding key_down
key_down_lem key s queue holds room = elim (Bool-cases (is_shift_key key)) [
  | inl e ↦ rw (key_down, e) (record s { is_shift = true }, refl, rw (append_nil queue) holds)
  | inr e ↦ rw (key_down, e) (type_char_lem (key_char key s.is_shift) s queue holds room)
]

-- A key event whose scancode is in the table is handled without a fault while fewer than 63
-- characters wait: a press adds the key's character to the end of the queue, if it has one, and a
-- release adds nothing.
pub handle_key_event_lem :
    (scancode : ℕ) (key : Key) (s : Console) (queue : List ℕ)
    → scancode_to_key scancode ≡ some key
    → Holds s.terminal queue
    → length queue < 63
    → (s' : Console) × (handle_key_event scancode s ≡ some s')
      × Holds s'.terminal (queue ++ event_text key (not (ltb scancode 128)) s.is_shift)
unfolding handle_key_event
handle_key_event_lem scancode key s queue e holds room = elim (Bool-cases (ltb scancode 128)) [
  | inl press ↦ rw (e, press) (key_down_lem key s queue holds room)
  | inr release ↦
      rw (e, release) (key_up key s, refl, rw (append_nil queue) (key_up_lem key s queue holds))
]
