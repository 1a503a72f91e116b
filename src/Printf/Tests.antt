-- ===== src/Printf/Tests.antt =====
-- Printing at concrete inputs.
use infos.Prelude.{ℕ, ◌-◌, ◌^◌, ◌<◌, ◌≡◌, refl, some, List, [], ◌∷◌, length, arith}
use infos.Printf.{Argument, word, text, vsnprintf}
use infos.Printf.Bounds.{vsnprintf_fits}

-- "x=%04x %s!"
abbrev format_x : List ℕ
format_x = 120 ∷ 61 ∷ 37 ∷ 48 ∷ 52 ∷ 120 ∷ 32 ∷ 37 ∷ 115 ∷ 33 ∷ []

abbrev arguments_x : List Argument
arguments_x = word 254 ∷ text (111 ∷ 107 ∷ []) ∷ []

-- "x=00fe ok!"
abbrev printed_x : List ℕ
printed_x = 120 ∷ 61 ∷ 48 ∷ 48 ∷ 102 ∷ 101 ∷ 32 ∷ 111 ∷ 107 ∷ 33 ∷ []

vsnprintf_x : vsnprintf 32 format_x arguments_x ≡ some printed_x
unfolding vsnprintf
vsnprintf_x = refl

vsnprintf_cut : vsnprintf 6 format_x arguments_x ≡ some (120 ∷ 61 ∷ 102 ∷ 101 ∷ 32 ∷ [])
unfolding vsnprintf
vsnprintf_cut = refl

-- "%d" of -5 comes out as "5-".
vsnprintf_minus : vsnprintf 8 (37 ∷ 100 ∷ []) (word (2 ^ 32 - 5) ∷ []) ≡ some (53 ∷ 45 ∷ [])
unfolding vsnprintf
vsnprintf_minus = refl

vsnprintf_fits_example :
    (out : List ℕ) × (vsnprintf 6 format_x arguments_x ≡ some out) × (length out < 6)
vsnprintf_fits_example = vsnprintf_fits 6 format_x arguments_x (omega arith) tt
