-- ===== src/Console/Ring.antt =====
-- The terminal's read buffer as a queue of the characters that were typed and not yet read.
use infos.Prelude.{
  ℕ, zero, suc, ◌+◌, ◌%◌, ◌≤◌, ◌<◌, ◌≡◌, refl, ◌∙◌, some, List, [], ◌∷◌, ◌++◌, ◌==◌, if◌then◌else◌,
  get_elem?, get_elem?-set, get_elem?_of_lt, set, take, drop, length, length-set, length-append,
  append_nil, append_assoc, arith,
}
use infos.Console.{Terminal, append_to_read_buffer, finished, waiting, read_from, read}

-- The cells from `head` on hold the queue, up to `tail`.
pub record Holds (t : Terminal) (queue : List ℕ) : Type 0 where
  pub sized : length t.read_buffer ≡ 64
  pub head_bound : t.head < 64
  pub tail_at : t.tail ≡ (t.head + length queue) % 64
  pub not_full : length queue < 64
  pub stored :
      (i : ℕ) → i < length queue → get_elem? t.read_buffer ((t.head + i) % 64) ≡ get_elem? queue i

get_elem?-append_last :
    (xs : List ℕ) (c i : ℕ)
    → get_elem? (xs ++ c ∷ []) i ≡ (if i == length xs then some c else get_elem? xs i)
get_elem?-append_last [] c zero = refl
get_elem?-append_last [] c (suc i) = ground arith
get_elem?-append_last (x ∷ xs) c zero = ground arith
get_elem?-append_last (x ∷ xs) c (suc i) = ground (arith, get_elem?-append_last xs c i)

-- A character typed goes to the end of the queue, while fewer than 63 wait.
pub append_to_read_buffer_lem :
    (c : ℕ) (t : Terminal) (queue : List ℕ)
    → Holds t queue
    → length queue < 63
    → (t' : Terminal) × (append_to_read_buffer c t ≡ some t') × Holds t' (queue ++ c ∷ [])
unfolding append_to_read_buffer
append_to_read_buffer_lem c t queue holds room =
    let (v, at) =
      get_elem?_of_lt t.read_buffer t.tail (omega (arith, holds.sized, holds.tail_at)) in
    (
      record t { read_buffer = set t.read_buffer t.tail c; tail = (t.tail + 1) % 64 },
      rw at refl,
      record {
        sized = length-set t.read_buffer t.tail c ∙ holds.sized;
        head_bound = holds.head_bound;
        tail_at = omega (arith, length-append queue (c ∷ []), holds.tail_at, holds.head_bound);
        not_full = omega (arith, length-append queue (c ∷ []));
        stored = λ i h. ground (
          arith,
          get_elem?-append_last queue c i,
          get_elem?-set t.read_buffer t.tail ((t.head + i) % 64) c at,
          holds.stored i,
          holds.tail_at,
          holds.head_bound,
          length-append queue (c ∷ []),
        );
      },
    )

-- The 64th character that waits makes the buffer look empty: all that was typed is lost.
pub append_to_read_buffer_full :
    (c : ℕ) (t : Terminal) (queue : List ℕ)
    → Holds t queue
    → length queue ≡ 63
    → (t' : Terminal) × (append_to_read_buffer c t ≡ some t') × Holds t' []
unfolding append_to_read_buffer
append_to_read_buffer_full c t queue holds full =
    let (v, at) =
      get_elem?_of_lt t.read_buffer t.tail (omega (arith, holds.sized, holds.tail_at)) in
    (
      record t { read_buffer = set t.read_buffer t.tail c; tail = (t.tail + 1) % 64 },
      rw at refl,
      record {
        sized = length-set t.read_buffer t.tail c ∙ holds.sized;
        head_bound = holds.head_bound;
        tail_at = omega (arith, holds.tail_at, holds.head_bound);
        not_full = omega arith;
        stored = λ i h. absurd (omega arith);
      },
    )

-- The buffer behind a character that is read.
Holds-tail :
    (t : Terminal) (c : ℕ) (queue : List ℕ)
    → Holds t (c ∷ queue)
    → Holds (record t { head = (t.head + 1) % 64 }) queue
Holds-tail t c queue holds = record {
  sized = holds.sized;
  head_bound = omega arith;
  tail_at = omega (arith, holds.tail_at);
  not_full = omega (arith, holds.not_full);
  stored = λ i h.
      let here : ((t.head + 1) % 64 + i) % 64 ≡ (t.head + suc i) % 64 = omega arith in
      rw here (holds.stored (suc i) (omega arith));
}

read_from_lem :
    (n : ℕ) (out : List ℕ) (t : Terminal) (queue : List ℕ)
    → Holds t queue
    → n ≤ length queue
    → (t' : Terminal) × (read_from n out t ≡ some (finished (out ++ take n queue) t'))
      × Holds t' (drop n queue)
unfolding read_from
read_from_lem zero out t queue holds h = (t, rw (append_nil out) refl, holds)
read_from_lem (suc n) out t [] holds h = absurd (omega arith)
read_from_lem (suc n) out t (c ∷ queue) holds h =
    let (t', ends, holds') =
      read_from_lem n (out ++ c ∷ []) (record t { head = (t.head + 1) % 64 }) queue
        (Holds-tail t c queue holds) (omega arith) in
    (
      t',
      ground (
        arith,
        ends,
        holds.tail_at,
        holds.head_bound,
        holds.not_full,
        holds.stored 0,
        append_assoc out c (take n queue),
      ),
      holds',
    )

-- Where as many characters wait as are asked for, `read` takes that many from the front of the queue.
pub read_lem :
    (size : ℕ) (t : Terminal) (queue : List ℕ)
    → Holds t queue
    → size ≤ length queue
    → (t' : Terminal) × (read size t ≡ some (finished (take size queue) t'))
      × Holds t' (drop size queue)
unfolding read
read_lem size t queue holds h = read_from_lem size [] t queue holds h

read_from_waits :
    (n : ℕ) (out : List ℕ) (t : Terminal) (queue : List ℕ)
    → Holds t queue
    → length queue < n
    → (t' : Terminal) × (read_from n out t ≡ some (waiting (out ++ queue) t')) × Holds t' []
unfolding read_from
read_from_waits zero out t queue holds h = absurd (omega arith)
read_from_waits (suc n) out t [] holds h =
    (t, ground (arith, holds.tail_at, holds.head_bound, append_nil out), holds)
read_from_waits (suc n) out t (c ∷ queue) holds h =
    let (t', ends, holds') =
      read_from_waits n (out ++ c ∷ []) (record t { head = (t.head + 1) % 64 }) queue
        (Holds-tail t c queue holds) (omega arith) in
    (
      t',
      ground (
        arith,
        ends,
        holds.tail_at,
        holds.head_bound,
        holds.not_full,
        holds.stored 0,
        append_assoc out c queue,
      ),
      holds',
    )

-- With too few waiting `read` empties the queue, and waits with what it has.
pub read_waits :
    (size : ℕ) (t : Terminal) (queue : List ℕ)
    → Holds t queue
    → length queue < size
    → (t' : Terminal) × (read size t ≡ some (waiting queue t')) × Holds t' []
unfolding read
read_waits size t queue holds h = read_from_waits size [] t queue holds h
