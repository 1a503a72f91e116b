-- ===== src/Console/Screen.antt =====
-- What `VirtualConsole::write` does to the screen.
use infos.Prelude.{
  ℕ, suc, ◌+◌, ◌-◌, ◌*◌, ◌%◌, ◌^◌, ◌<◌, ◌≡◌, ◌≢◌, refl, ap, ◌∙◌, Bool, true, false, ◌&&◌, Option,
  none, some, List, [], ◌∷◌, ◌++◌, ltb, leb, ◌==◌, if◌then◌else◌, ◌>>=◌, get_elem?, get_elem?-set,
  get_elem?_of_lt, get_elem?_of_ge, set, take, drop, replicate, length, length-set, length-append,
  length-take, length-drop, length-replicate, tally, Bool-cases, inl, inr, arith,
}
use infos.Console.{
  Console, screen_size, cell, store_cell, put_char, scroll_one_line, scrolled, write_from, write,
}

-- The cursor is on the screen, and there is a cell for each place.
abbrev pub IsOnScreen : ℕ × List ℕ → Type 0
IsOnScreen (pos, cells) = (pos < screen_size) × (length cells ≡ screen_size)

length-scroll_one_line :
    (cells : List ℕ) → length cells ≡ screen_size → length (scroll_one_line cells) ≡ screen_size
unfolding scroll_one_line
length-scroll_one_line cells h = omega (
  arith,
  h,
  length-append (take 1920 (drop 80 cells) ++ replicate 80 1792) (drop 2000 cells),
  length-append (take 1920 (drop 80 cells)) (replicate 80 1792),
  length-take 1920 (drop 80 cells),
  length-drop 80 cells,
  length-drop 2000 cells,
  length-replicate {A = ℕ} 80 1792,
)

scrolled-IsOnScreen :
    (pos : ℕ) (cells : List ℕ) → length cells ≡ screen_size → IsOnScreen (scrolled (pos, cells))
scrolled-IsOnScreen pos cells h = elim (Bool-cases (leb screen_size pos)) [
  | inl e ↦ rw e (omega arith, length-scroll_one_line cells h)
  | inr e ↦ rw e (ground arith, h)
]

store_cell_lem :
    (p v : ℕ) (cells : List ℕ) → p < length cells → store_cell p v cells ≡ some (set cells p v)
store_cell_lem p v cells h = let (w, at) = get_elem?_of_lt cells p h in rw at refl

abbrev Sized : Option (ℕ × List ℕ) → Type 0
Sized none = ⊥
Sized (some (pos, cells)) = length cells ≡ screen_size

put_char_lem :
    (c attr pos : ℕ) (cells : List ℕ)
    → c ≢ 8
    → IsOnScreen (pos, cells)
    → Sized (put_char c attr pos cells)
unfolding put_char
put_char_lem c attr pos cells h (on, sized) = ground (
  arith,
  store_cell_lem pos (cell attr c) cells (omega arith),
  length-set cells pos (cell attr c),
)

abbrev Continues : (Option (ℕ × List ℕ)) → Type 0
Continues none = ⊥
Continues (some screen) = IsOnScreen screen

on_put :
    (m : Option (ℕ × List ℕ)) (k : ℕ × List ℕ → Option (ℕ × List ℕ))
    → Sized m
    → ((screen : ℕ × List ℕ) → IsOnScreen screen → Continues (k screen))
    → Continues (m >>= λ screen. k (scrolled screen))
on_put none k s f = elim s [ ]
on_put (some (pos, cells)) k s f = f (scrolled (pos, cells)) (scrolled-IsOnScreen pos cells s)

on_escape :
    (b : Bool) (x y : Option (ℕ × List ℕ))
    → Continues x
    → Continues y
    → Continues (elim b [ true ↦ x | false ↦ y ])
on_escape true x y f g = f
on_escape false x y f g = g

write_from_lem :
    (text : List ℕ) (is_escaped : Bool) (attr : ℕ) (screen : ℕ × List ℕ)
    → tally 8 text ≡ 0
    → IsOnScreen screen
    → Continues (write_from text is_escaped attr screen)
unfolding write_from
write_from_lem [] is_escaped attr screen h on = on
write_from_lem (c ∷ text) true attr screen h on =
    write_from_lem text false (c * 256) screen (ground arith) on
write_from_lem (c ∷ text) false attr (pos, cells) h (on, sized) =
    on_escape (c == 27) _ _
      (write_from_lem text true attr (scrolled (pos, cells)) (ground arith)
        (scrolled-IsOnScreen pos cells sized))
      (on_put (put_char c attr pos cells) (write_from text false attr)
        (put_char_lem c attr pos cells (λ e. ground arith) (on, sized))
        (λ screen on'. write_from_lem text false attr screen (ground arith) on'))

-- The cursor of a console is on its screen.
abbrev pub IsOnConsole : Console → Type 0
IsOnConsole s = IsOnScreen (s.pos, s.cells)

-- A text without a backspace is written without a fault, whatever else is in it, and leaves the
-- cursor on the screen.
pub write_fits :
    (text : List ℕ) (s : Console)
    → tally 8 text ≡ 0
    → IsOnConsole s
    → (s' : Console) × (write text s ≡ some s') × IsOnConsole s'
unfolding write
write_fits text s h on =
    go (write_from text false 1792 (s.pos, s.cells)) refl
      (write_from_lem text false 1792 (s.pos, s.cells) h on)
  where
    go :
        (o : Option (ℕ × List ℕ))
        → write_from text false 1792 (s.pos, s.cells) ≡ o
        → Continues o
        → (s' : Console) × (write text s ≡ some s') × IsOnConsole s'
    go none e f = elim f [ ]
    go (some (pos, cells)) e f = (record s { pos = pos; cells = cells }, rw e refl, f)

put_back :
    (pos : ℕ) (cells : List ℕ)
    → get_elem? cells ((pos + (2 ^ 16 - 1)) % 2 ^ 16) ≡ none
    → put_char 8 1792 pos cells ≡ none
unfolding put_char
put_back pos cells e = rw e refl

-- A backspace in the first place of a screen of 2000 cells is a write out of their bounds, so a text
-- that starts with one is a fault.
pub write_backspace_home :
    (text : List ℕ) (s : Console)
    → s.pos ≡ 0
    → length s.cells ≡ screen_size
    → write (8 ∷ text) s ≡ none
unfolding write
write_backspace_home text s home sized =
    let beyond : get_elem? s.cells ((s.pos + (2 ^ 16 - 1)) % 2 ^ 16) ≡ none =
      rw home (get_elem?_of_ge s.cells 65535 (omega arith)) in
    let faults : put_char 8 1792 s.pos s.cells ≡ none = put_back s.pos s.cells beyond in
    rw (write_from, faults) refl

-- Characters that are neither a control that `write` knows nor an escape.
abbrev pub ArePlain : List ℕ → Type 0
ArePlain [] = Unit {0}
ArePlain (c ∷ text) = (c ≢ 10) × (c ≢ 13) × (c ≢ 8) × (c ≢ 27) × ArePlain text

put_plain :
    (c attr pos : ℕ) (cells : List ℕ)
    → c ≢ 10
    → c ≢ 13
    → c ≢ 8
    → pos + 1 < screen_size
    → length cells ≡ screen_size
    → put_char c attr pos cells ≡ some (pos + 1, set cells pos (cell attr c))
unfolding put_char
put_plain c attr pos cells a b d on sized =
    ground (arith, store_cell_lem pos (cell attr c) cells (omega arith))

write_from_plain :
    (c attr pos : ℕ) (text cells : List ℕ)
    → (c == 27) ≡ false
    → put_char c attr pos cells ≡ some (pos + 1, set cells pos (cell attr c))
    → leb screen_size (pos + 1) ≡ false
    → write_from (c ∷ text) false attr (pos, cells)
      ≡ write_from text false attr (pos + 1, set cells pos (cell attr c))
unfolding write_from
write_from_plain c attr pos text cells e put on = rw (write_from, e, put, on) refl

-- The cells after a text that fits before the end of the screen.
abbrev pub Written : ℕ → ℕ → List ℕ → List ℕ → List ℕ → Type 0
Written attr pos text cells cells' =
    (j : ℕ)
    → get_elem? cells' j ≡ (
        if leb pos j && ltb j (pos + length text)
        then (get_elem? text (j - pos) >>= λ c. some (cell attr c))
        else get_elem? cells j)

Written-step :
    (c attr pos j : ℕ) (text cells cells' : List ℕ) {w : ℕ}
    → get_elem? cells pos ≡ some w
    → get_elem? cells' j ≡ (
        if leb (pos + 1) j && ltb j (pos + 1 + length text)
        then (get_elem? text (j - (pos + 1)) >>= λ b. some (cell attr b))
        else get_elem? (set cells pos (cell attr c)) j)
    → get_elem? cells' j ≡ (
        if leb pos j && ltb j (pos + length (c ∷ text))
        then (get_elem? (c ∷ text) (j - pos) >>= λ b. some (cell attr b))
        else get_elem? cells j)
Written-step c attr pos j text cells cells' at same = elim (Bool-cases (ltb pos j)) [
  | inl e ↦
      let after : j - pos ≡ suc (j - (pos + 1)) = ground arith in
      rw after (ground (arith, same, get_elem?-set cells pos j (cell attr c) at))
  | inr e ↦
      let first : j - pos ≡ 0 = ground arith in
      rw first (ground (arith, same, get_elem?-set cells pos j (cell attr c) at))
]

write_from_text :
    (text : List ℕ) (attr pos : ℕ) (cells : List ℕ)
    → ArePlain text
    → pos + length text < screen_size
    → length cells ≡ screen_size
    → (cells' : List ℕ) × (write_from text false attr (pos, cells)
        ≡ some (pos + length text, cells'))
      × Written attr pos text cells cells'
unfolding write_from
write_from_text [] attr pos cells p h sized =
    (cells, ap (λ n. some (n, cells)) (omega arith), λ j. ground arith)
write_from_text (c ∷ text) attr pos cells (a, b, d, e, p) h sized =
    let (w, at) = get_elem?_of_lt cells pos (omega arith) in
    let (cells', ends, same) =
      write_from_text text attr (pos + 1) (set cells pos (cell attr c)) p (omega arith)
        (length-set cells pos (cell attr c) ∙ sized) in
    (
      cells',
      write_from_plain c attr pos text cells (ground arith)
            (put_plain c attr pos cells a b d (omega arith) sized) (ground arith)
          ∙ ends
          ∙ ap (λ n. some (n, cells')) (omega arith),
      λ j. Written-step c attr pos j text cells cells' at (same j),
    )

-- A text of plain characters that fits before the end of the screen is stored from the cursor on, in
-- the default colours; no other cell changes, and the cursor stands behind it.
pub write_plain :
    (text : List ℕ) (s : Console)
    → ArePlain text
    → s.pos + length text < screen_size
    → length s.cells ≡ screen_size
    → (cells' : List ℕ) × (write text s
        ≡ some (record s { pos = s.pos + length text; cells = cells' }))
      × Written 1792 s.pos text s.cells cells'
unfolding write
write_plain text s p h sized =
    let (cells', ends, same) = write_from_text text 1792 s.pos s.cells p h sized in
    (cells', rw ends refl, same)
