-- ===== src/Strings/Cells.antt =====
-- The functions on `const char *`, and `ToString`.
use infos.Prelude.{
  ℕ, zero, suc, ◌+◌, ◌-◌, ◌/◌, ◌%◌, ◌^◌, ◌<◌, min, ◌≡◌, ◌↔◌, refl, ap, ◌∙◌, inl, inr, Bool, true,
  false, some, List, [], ◌∷◌, ◌++◌, ◌==◌, length, take, drop, tally, Bool-cases, append_nil, arith,
}
use native.Mathlib.Nat.{zero-min, min-zero, suc-min-suc}
use infos.Printf.{write_digits}
use infos.Printf.Numbers.{IsNumeral, write_digits_lem}
use infos.Strings.{count_from, strlen, compare_from, strncmp, strncpy, decimal_from, to_string}

count_from_lem :
    (text rest : List ℕ) (counter : ℕ)
    → tally 0 text ≡ 0
    → count_from counter (text ++ 0 ∷ rest) ≡ some (counter + length text)
unfolding count_from
count_from_lem [] rest counter h = ap some (omega arith)
count_from_lem (c ∷ text) rest counter h =
    let tail = count_from_lem text rest (counter + 1) (ground arith) in ground (arith, tail)

-- `strlen` counts the characters before the first NUL.
strlen_text :
    (text rest : List ℕ) → tally 0 text ≡ 0 → strlen (some (text ++ 0 ∷ rest)) ≡ some (length text)
unfolding strlen
strlen_text text rest h = count_from_lem text rest 0 h ∙ ap some (omega arith)

compare_from_lem :
    (xs ys left right : List ℕ) (n : ℕ)
    → tally 0 xs ≡ 0
    → tally 0 ys ≡ 0
    → length xs ≡ length ys
    → (b : Bool) × (compare_from (xs ++ 0 ∷ left) (ys ++ 0 ∷ right) n ≡ some b)
      × ((b ≡ false) ↔ (take n xs ≡ take n ys))
unfolding compare_from
compare_from_lem [] [] left right zero fx fy e = (false, refl, ((λ _. refl), λ _. refl))
compare_from_lem [] [] left right (suc n) fx fy e = (false, refl, ((λ _. refl), λ _. refl))
compare_from_lem [] (y ∷ ys) left right n fx fy e = absurd (omega arith)
compare_from_lem (x ∷ xs) [] left right n fx fy e = absurd (omega arith)
compare_from_lem (x ∷ xs) (y ∷ ys) left right zero fx fy e = (false, refl, ((λ _. refl), λ _. refl))
compare_from_lem (x ∷ xs) (y ∷ ys) left right (suc n) fx fy e =
    let (b, ends, iff) =
      compare_from_lem xs ys left right n (ground arith) (ground arith) (omega arith) in
    elim (Bool-cases (x == y)) [
      | inl same ↦ (
        b,
        ground (arith, ends),
        ((λ z. ground (arith, iff.0 z)), λ q. iff.1 (ground (arith, q))),
      )
      | inr differ ↦ (true, ground (arith, ends), ((λ z. cc), λ q. ground (arith, q)))
    ]

-- `strncmp` is 0 on two texts exactly if they are of one length and have the same first n characters.
pub strncmp_lem :
    (xs ys left right : List ℕ) (n : ℕ)
    → tally 0 xs ≡ 0
    → tally 0 ys ≡ 0
    → (b : Bool) × (strncmp (xs ++ 0 ∷ left) (ys ++ 0 ∷ right) n ≡ some b)
      × ((b ≡ false) ↔ ((length xs ≡ length ys) × (take n xs ≡ take n ys)))
unfolding strncmp
strncmp_lem xs ys left right n fx fy =
    let sizes = strlen_text xs left fx in
    let sizes' = strlen_text ys right fy in
    elim (Bool-cases (length xs == length ys)) [
      | inl same ↦
          let (b, ends, iff) = compare_from_lem xs ys left right n fx fy (ground arith) in
          (b, rw (sizes, sizes', same) ends, ((λ z. (ground arith, iff.0 z)), λ q. iff.1 q.1))
      | inr differ ↦ (true, rw (sizes, sizes', differ) refl, ((λ z. cc), λ q. ground (arith, q.0)))
    ]

size_before : (k : ℕ) → k < 2 ^ 64 → (suc k + 2 ^ 64 - 1) % 2 ^ 64 ≡ k
size_before k w = omega arith

-- With a size of k + 1 `strncpy` writes the first k characters of the text, or all of it if it is
-- shorter, and a NUL behind them, and changes nothing else.
pub strncpy_lem :
    (text rest dest : List ℕ) (k : ℕ)
    → tally 0 text ≡ 0
    → k < 2 ^ 64
    → min k (length text) < length dest
    → strncpy dest (text ++ 0 ∷ rest) (suc k)
      ≡ some (take k text ++ 0 ∷ drop (suc (min k (length text))) dest)
unfolding strncpy
strncpy_lem text rest [] k free w h = absurd (omega arith)
strncpy_lem [] rest (d ∷ dest) zero free w h = ground (arith, min-zero zero)
strncpy_lem [] rest (d ∷ dest) (suc k) free w h = ground (arith, min-zero (suc k))
strncpy_lem (c ∷ text) rest (d ∷ dest) zero free w h = ground (arith, zero-min (suc (length text)))
strncpy_lem (c ∷ text) rest (d ∷ dest) (suc k) free w h =
    let tail = strncpy_lem text rest dest k (ground arith) (omega arith) (omega arith) in
    ground (arith, size_before (suc k) w, tail, suc-min-suc k (length text))

decimal_from_lem :
    (i v : ℕ) (buffer : List ℕ) → decimal_from i v buffer ≡ write_digits i 10 v buffer
unfolding decimal_from write_digits
decimal_from_lem zero v buffer = refl
decimal_from_lem (suc i) zero buffer = refl
decimal_from_lem (suc i) (suc v) buffer =
    decimal_from_lem i (suc v / 10) ((48 + suc v % 10) ∷ buffer)
    ∙ ap (λ c. write_digits i 10 (suc v / 10) (c ∷ buffer)) (ground arith)

-- `ToString` writes a decimal numeral of its argument, in the 16 cells of its buffer.
pub to_string_lem : (v : ℕ) → v < 2 ^ 32 → IsNumeral 16 10 v (to_string v)
unfolding to_string
to_string_lem zero h = (refl, omega arith)
to_string_lem (suc v) h =
    let (numeral, written, is) =
      write_digits_lem 16 10 (suc v) [] (omega arith) (omega arith) (omega arith) in
    let whole : to_string (suc v) ≡ numeral =
      decimal_from_lem 16 (suc v) [] ∙ written ∙ append_nil numeral in
    rw whole is
