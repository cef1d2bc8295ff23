-- ===== src/Handle/Content.antt =====
-- The bytes of an open file after a write and a resize (internal/passfs/file_handle.go: Write,
-- SetAttributes).
use passfs.Prelude.{
  ℕ, zero, suc, ◌+◌, ◌-◌, ◌≤◌, ◌≡◌, refl, Option, none, some, [], ◌∷◌, ◌++◌, arith, Bytes, ltb,
  if◌then◌else◌, length, take, drop, replicate, get_elem?, length-append, length-take, length-drop,
  length-replicate, Bool-cases,
}
use passfs.Handle.{inr, inl, grow, write_at}

get_elem?-append :
    (xs ys : Bytes) (i : ℕ)
    → get_elem? (xs ++ ys) i
      ≡ (if ltb i (length xs) then get_elem? xs i else get_elem? ys (i - length xs))
get_elem?-append [] ys i = ground arith
get_elem?-append (x ∷ xs) ys zero = ground arith
get_elem?-append (x ∷ xs) ys (suc i) = ground (arith, get_elem?-append xs ys i)

get_elem?-take :
    (n i : ℕ) (xs : Bytes) → get_elem? (take n xs) i ≡ (if ltb i n then get_elem? xs i else none)
get_elem?-take zero i xs = ground arith
get_elem?-take (suc n) i [] = ground arith
get_elem?-take (suc n) zero (x ∷ xs) = ground arith
get_elem?-take (suc n) (suc i) (x ∷ xs) = ground (arith, get_elem?-take n i xs)

get_elem?-drop : (n i : ℕ) (xs : Bytes) → get_elem? (drop n xs) i ≡ get_elem? xs (n + i)
get_elem?-drop zero i xs = ground arith
get_elem?-drop (suc n) i [] = refl
get_elem?-drop (suc n) i (x ∷ xs) = ground (arith, get_elem?-drop n i xs)

get_elem?-replicate :
    (n i : ℕ) → get_elem? {A = ℕ} (replicate n 0) i ≡ (if ltb i n then some 0 else none)
get_elem?-replicate zero i = ground arith
get_elem?-replicate (suc n) zero = ground arith
get_elem?-replicate (suc n) (suc i) = ground (arith, get_elem?-replicate n i)

get_elem?-past : (xs : Bytes) (i : ℕ) → length xs ≤ i → get_elem? xs i ≡ none
get_elem?-past [] i h = refl
get_elem?-past (x ∷ xs) zero h = absurd (omega arith)
get_elem?-past (x ∷ xs) (suc i) h = get_elem?-past xs i (omega arith)

-- A byte of the file, with zeros between its end and `end`.
abbrev pub padded : Bytes → ℕ → ℕ → Option ℕ
padded content end i =
    if ltb i (length content) then get_elem? content i else if ltb i end then some 0 else none

get_elem?-grow :
    (end : ℕ) (content : Bytes) (i : ℕ) → get_elem? (grow end content) i ≡ padded content end i
get_elem?-grow end content i = elim (Bool-cases (ltb (length content) end)) [
  | inl e ↦ rw e (
      ground (
        arith,
        get_elem?-append content (replicate (end - length content) 0) i,
        get_elem?-replicate (end - length content) (i - length content),
      ))
  | inr e ↦ rw e (ground (arith, get_elem?-past content i))
]

pub length-grow :
    (end : ℕ) (content : Bytes)
    → (length content ≤ length (grow end content))
      × (end ≤ length (grow end content))
      × (length (grow end content) ≡ (if ltb (length content) end then end else length content))
length-grow end content = ground (
  arith,
  length-append content (replicate (end - length content) 0),
  length-replicate {A = ℕ} (end - length content) 0,
)

-- The file that a write of `input` at `offset` leaves, byte by byte: the old bytes and a gap of
-- zeros before it, the bytes written, and the old bytes behind them.
pub get_elem?-write_at :
    (content : Bytes) (offset : ℕ) (input : Bytes) (i : ℕ)
    → get_elem? (write_at content offset input) i ≡ (
        if ltb i offset
        then padded content offset i
        else if ltb i (offset + length input)
        then get_elem? input (i - offset)
        else get_elem? content i)
unfolding write_at
get_elem?-write_at content offset input i =
    let end : ℕ = offset + length input in
    let grown : Bytes = grow end content in
    let tail : Bytes = drop end grown in
    ground (
      arith,
      get_elem?-append (take offset grown) (input ++ tail) i,
      get_elem?-append input tail (i - length (take offset grown)),
      length-take offset grown,
      get_elem?-take offset i grown,
      get_elem?-drop end (i - length (take offset grown) - length input) grown,
      get_elem?-grow end content i,
      get_elem?-grow end content (end + (i - length (take offset grown) - length input)),
      get_elem?-past content i,
      length-grow end content,
    )

-- A write never shortens the file, and ends inside it.
pub length-write_at :
    (content : Bytes) (offset : ℕ) (input : Bytes)
    → length (write_at content offset input) ≡ (
        if ltb (length content) (offset + length input)
        then offset + length input
        else length content)
unfolding write_at
length-write_at content offset input =
    let end : ℕ = offset + length input in
    let grown : Bytes = grow end content in
    ground (
      arith,
      length-append (take offset grown) (input ++ drop end grown),
      length-append input (drop end grown),
      length-take offset grown,
      length-drop end grown,
      length-grow end content,
    )
