-- ===== src/Console/Tests.antt =====
-- The console at concrete inputs.
use infos.Prelude.{
  ℕ, ◌+◌, ◌%◌, ◌≡◌, refl, true, not, some, List, [], ◌∷◌, ◌++◌, ltb, replicate, get_elem?-replicate,
  sym, ◌∙◌, arith,
}
use infos.Console.{
  key_a, scancode_to_key, Terminal, new_terminal, append_to_read_buffer, finished, read, Console,
  handle_key_event, write,
}
use infos.Console.Ring.{Holds, append_to_read_buffer_lem, read_lem}
use infos.Console.Screen.{ArePlain, IsOnConsole, write_fits}
use infos.Console.Keys.{event_text, handle_key_event_lem}

abbrev text_ok : List ℕ
text_ok = 111 ∷ 107 ∷ []

text_ok-ArePlain : ArePlain text_ok
text_ok-ArePlain = (
  (λ e. omega arith),
  (λ e. omega arith),
  (λ e. omega arith),
  (λ e. omega arith),
  ((λ e. omega arith), (λ e. omega arith), (λ e. omega arith), (λ e. omega arith), tt),
)

abbrev two_waiting : Terminal
two_waiting = record new_terminal { read_buffer = 104 ∷ 105 ∷ replicate 62 0; tail = 2 }

two_waiting-Holds : Holds two_waiting (104 ∷ 105 ∷ [])
two_waiting-Holds = record {
  sized = refl;
  head_bound = omega arith;
  tail_at = refl;
  not_full = omega arith;
  stored = λ i h. ground arith;
}

abbrev all_waiting : Terminal
all_waiting = record new_terminal { read_buffer = replicate 64 7; tail = 63 }

abbrev sevens : List ℕ
sevens = replicate 63 7

all_waiting-Holds : Holds all_waiting sevens
all_waiting-Holds = record {
  sized = refl;
  head_bound = omega arith;
  tail_at = refl;
  not_full = omega arith;
  stored = λ i h.
      get_elem?-replicate {A = ℕ} 64 ((0 + i) % 64) 7 (omega arith)
      ∙ sym (get_elem?-replicate {A = ℕ} 63 i 7 h);
}

append_to_read_buffer_lem_example :
    (t : Terminal) × (append_to_read_buffer 33 two_waiting ≡ some t) × Holds t (104 ∷ 105 ∷ 33 ∷ [])
append_to_read_buffer_lem_example =
    append_to_read_buffer_lem 33 two_waiting (104 ∷ 105 ∷ []) two_waiting-Holds (omega arith)

read_lem_example :
    (t : Terminal) × (read 1 two_waiting ≡ some (finished (104 ∷ []) t)) × Holds t (105 ∷ [])
read_lem_example = read_lem 1 two_waiting (104 ∷ 105 ∷ []) two_waiting-Holds (omega arith)

abbrev screen : Console
screen = record { is_shift = true; pos = 1999; cells = replicate 2000 1824; terminal = two_waiting }

abbrev home : Console
home = record screen { pos = 0 }

scancode_a : scancode_to_key 30 ≡ some key_a
unfolding scancode_to_key
scancode_a = refl

-- The key of an A with Shift held.
handle_key_event_lem_example :
    (s : Console) × (handle_key_event 30 screen ≡ some s)
    × Holds s.terminal ((104 ∷ 105 ∷ []) ++ event_text key_a (not (ltb 30 128)) true)
handle_key_event_lem_example =
    handle_key_event_lem 30 key_a screen (104 ∷ 105 ∷ []) scancode_a two_waiting-Holds (omega arith)

-- A line break at the end of the screen, behind an escape.
write_fits_example :
    (s : Console) × (write (27 ∷ 12 ∷ 65 ∷ 10 ∷ []) screen ≡ some s) × IsOnConsole s
write_fits_example = write_fits (27 ∷ 12 ∷ 65 ∷ 10 ∷ []) screen refl (omega arith, refl)
