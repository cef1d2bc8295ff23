-- ===== src/Handle/Writes.antt =====
-- Write and Read of an open file (internal/passfs/file_handle.go).
use passfs.Prelude.{
  leb→le, ℕ, zero, suc, ◌+◌, ◌-◌, ◌^◌, ◌≤◌, ◌<◌, ◌≡◌, ◌≢◌, ◌⊎◌, ◌||◌, not, inl, inr, refl, ap, Bool,
  true, false, [], ◌∷◌, ◌++◌, arith, Bytes, ltb, leb, if◌then◌else◌, length, take, drop, replicate,
  length-append, length-take, length-replicate, Bool-cases, drop-append, take-append, take_all,
}
use mathlib.Core.List.{append-nil}
use passfs.Prelude.Int.{ℤ, pos, negsuc, int_ltb, wrap_int64}
use passfs.Error.{Errno, success, ebadf, efbig}
use passfs.Handle.{stored, OpenFile, grow, write_at, place, store, store_at, write_locked, read}
use passfs.Handle.Content.{length-write_at, length-grow}

end_test :
    (max o n : ℕ)
    → max < 2 ^ 63
    → n < 2 ^ 63
    → o ≤ max
    → (int_ltb (wrap_int64 (o + n)) (pos o) || int_ltb (pos max) (wrap_int64 (o + n)))
      ≡ ltb max (o + n)
end_test max o n m l h = ground arith

-- With the limit and the input in the range of int64, the two overflow checks of Write come to
-- the plain bound on the end of the write.
pub store_lem :
    (max now : ℕ) (f : OpenFile) (input : Bytes) (o : ℕ)
    → max < 2 ^ 63
    → length input < 2 ^ 63
    → store max now f input o ≡ (
        if leb (o + length input) max
        then (stored now f input o, length input, success)
        else (f, 0, efbig))
unfolding store
store_lem max now f input o m l = elim (Bool-cases (ltb max o)) [
  | inl e ↦ rw e (ground arith)
  | inr e ↦ rw (e, end_test max o (length input) m l (ground arith)) (ground arith)
]

-- The outcome of a write that would go to `at`: it stores the whole input there, or it reports an
-- error and leaves the bytes, the metadata and the dirty mark alone.
abbrev pub AllOrNothing : ℕ → ℕ → OpenFile → Bytes → ℤ → OpenFile × ℕ × Errno → Type 0
AllOrNothing max now f input at (g, count, errno) =
    ((o : ℕ) × (at ≡ pos o)
      × (o + length input ≤ max)
      × (g.content ≡ write_at f.content o input)
      × (g.meta ≡ record f.meta { size = length (write_at f.content o input); mtime = now })
      × (g.dirty ≡ true)
      × (count ≡ length input)
      × (errno ≡ success))
    ⊎ ((errno ≢ success)
        × (count ≡ 0)
        × (g.content ≡ f.content)
        × (g.meta ≡ f.meta)
        × (g.dirty ≡ f.dirty))

store-AllOrNothing :
    (max now : ℕ) (f : OpenFile) (input : Bytes) (o : ℕ)
    → max < 2 ^ 63
    → length input < 2 ^ 63
    → AllOrNothing max now f input (pos o) (store max now f input o)
store-AllOrNothing max now f input o m l =
    rw (store_lem max now f input o m l) (cases (leb (o + length input) max) refl)
  where
    cases :
        (b : Bool)
        → leb (o + length input) max ≡ b
        → AllOrNothing max now f input
            (pos o)
            (if b then (stored now f input o, length input, success) else (f, 0, efbig))
    cases true e = unfold stored in inl (o, refl, leb→le _ _ e, refl, refl, refl, refl, refl)
    cases false e = inr ((λ p. cc), refl, refl, refl, refl)

store_at-AllOrNothing :
    (max now : ℕ) (f : OpenFile) (candidate : ℤ) (input : Bytes) (at : ℤ)
    → max < 2 ^ 63
    → length input < 2 ^ 63
    → AllOrNothing max now f input at
        (store_at max now (record f { append_candidate = candidate }) input at)
store_at-AllOrNothing max now f candidate input (negsuc o) m l =
    inr ((λ p. cc), refl, refl, refl, refl)
store_at-AllOrNothing max now f candidate input (pos o) m l =
    store-AllOrNothing max now (record f { append_candidate = candidate }) input o m l

guarded :
    (max now : ℕ) (f : OpenFile) (input : Bytes) (at : ℤ) (released writable : Bool)
    (rest : OpenFile × ℕ × Errno)
    → AllOrNothing max now f input at rest
    → AllOrNothing max now f input at
        (if released then (f, 0, ebadf) else if not writable then (f, 0, ebadf) else rest)
guarded max now f input at true w rest h = inr ((λ p. cc), refl, refl, refl, refl)
guarded max now f input at false false rest h = inr ((λ p. cc), refl, refl, refl, refl)
guarded max now f input at false true rest h = h

-- A write to an open writable handle stores all of its input at the place that the code chooses
-- for it, which is in the limit, or fails and changes no byte, no metadata and no dirty mark. The
-- limit and the length of the input are int64 values.
pub write-AllOrNothing :
    (workaround : Bool) (max now : ℕ) (f : OpenFile) (overlapping : Bool) (input : Bytes)
    (offset : ℤ)
    → max < 2 ^ 63
    → length input < 2 ^ 63
    → AllOrNothing max now f input
        (place workaround f overlapping offset).0
        (write_locked workaround max now f overlapping input offset)
unfolding write_locked
write-AllOrNothing workaround max now f overlapping input offset m l =
    let (at, candidate) = place workaround f overlapping offset in
    guarded max now f input at f.released f.writable
      (store_at max now (record f { append_candidate = candidate }) input at)
      (store_at-AllOrNothing max now f candidate input at m l)

-- A writable handle that is not released accepts every write that ends within the limit.
pub write_fits :
    (workaround : Bool) (max now : ℕ) (f : OpenFile) (overlapping : Bool) (input : Bytes)
    (offset : ℤ) (o : ℕ)
    → max < 2 ^ 63
    → length input < 2 ^ 63
    → f.released ≡ false
    → f.writable ≡ true
    → (place workaround f overlapping offset).0 ≡ pos o
    → o + length input ≤ max
    → (write_locked workaround max now f overlapping input offset).1 ≡ length input
unfolding write_locked
write_fits workaround max now f overlapping input offset o m l r w p h =
    let g : OpenFile = record f { append_candidate = (place workaround f overlapping offset).1 } in
    ground (arith, store_lem max now g input o)

pub drop_all : (n : ℕ) (xs : Bytes) → length xs ≤ n → drop n xs ≡ []
drop_all zero [] h = refl
drop_all zero (x ∷ xs) h = absurd (omega arith)
drop_all (suc n) [] h = refl
drop_all (suc n) (x ∷ xs) h = drop_all n xs (omega arith)

pub write_at_end :
    (content input : Bytes) → write_at content (length content) input ≡ content ++ input
unfolding write_at
write_at_end content input =
    let zeros : Bytes = replicate (length content + length input - length content) 0 in
    elim (Bool-cases (ltb (length content) (length content + length input))) [
      | inl e ↦
          rw (e, take-append content zeros)
            (ap (λ (r : Bytes). content ++ r)
              (rw
                (drop_all (length content + length input) (content ++ zeros) (
                  omega (
                    arith,
                    length-append content zeros,
                    length-replicate {0} {A = ℕ} (length content + length input - length content) 0,
                  )))
                (append-nil input)))
      | inr e ↦
          rw (e, take_all (length content) content (omega arith))
            (ap (λ (r : Bytes). content ++ r)
              (rw (drop_all (length content + length input) content (omega arith))
                (append-nil input)))
    ]

-- A handle opened with O_APPEND writes at the end of the file, whatever offset the kernel gives
-- and whatever other writes are pending.
pub append_write :
    (workaround : Bool) (max now : ℕ) (f : OpenFile) (overlapping : Bool) (input : Bytes)
    (offset : ℤ)
    → max < 2 ^ 63
    → length input < 2 ^ 63
    → f.released ≡ false
    → f.writable ≡ true
    → f.append ≡ true
    → length f.content + length input ≤ max
    → (write_locked workaround max now f overlapping input offset).0.content ≡ f.content ++ input
unfolding write_locked place stored
append_write workaround max now f overlapping input offset m l r w a h =
    ground (arith, store_lem max now f input (length f.content), write_at_end f.content input)

read_written :
    (content : Bytes) (o : ℕ) (input : Bytes)
    → take (length input) (drop o (write_at content o input)) ≡ input
unfolding write_at
read_written content o input =
    let grown : Bytes = grow (o + length input) content in
    let rest : Bytes = drop (o + length input) grown in
    rw
      (drop-append_at o (take o grown) (input ++ rest)
        (omega (arith, length-take o grown, (length-grow (o + length input) content).1)))
      (take-append input rest)
  where
    drop-append_at : (n : ℕ) (xs ys : Bytes) → length xs ≡ n → drop n (xs ++ ys) ≡ ys
    drop-append_at n xs ys e = rw (← e) (drop-append xs ys)

-- Reading back where a write stored its input returns the input.
pub read-write :
    (max now : ℕ) (f : OpenFile) (input : Bytes) (o : ℕ)
    → f.released ≡ false
    → input ≢ []
    → read (stored now f input o) (length input) (pos o) ≡ (input, success)
unfolding read stored
read-write max now f [] o r n = absurd (n refl)
read-write max now f (b ∷ input) o r n =
    let whole : Bytes = b ∷ input in
    ground (arith, read_written f.content o whole, length-write_at f.content o whole)
