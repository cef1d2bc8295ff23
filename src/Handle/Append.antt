-- ===== src/Handle/Append.antt =====
-- Two writes of one descriptor at the same end-of-file offset (internal/passfs/file_handle.go:
-- Write; append_workaround_darwin.go). `pendingWrites.Add(1)` runs before the handle's mutex is
-- taken, so a write that begins first need not be the first to get the mutex.
use passfs.Prelude.{
  ◌∙◌, ℕ, ◌+◌, ◌-◌, ◌^◌, ◌≤◌, ◌<◌, ◌≡◌, ◌≢◌, refl, ap, Bool, true, false, Bool-cases, inl, inr, ltb,
  replicate, [], ◌∷◌, ◌++◌, arith, Bytes, length, length-append, take-append,
}
use mathlib.Core.List.{append-nil, append_assoc}
use passfs.Prelude.Int.{ℤ, pos, negsuc}
use passfs.Handle.{OpenFile, grow, write_at, place, stored, write_locked, begin_write, end_write}
use passfs.Handle.Content.{length-grow}
use passfs.Handle.Writes.{drop_all, store_lem, write_at_end}

module _ (workaround : Bool) (max now : ℕ) where
  -- Both writes begin, `a` first; `a` gets the mutex first.
  unfoldable pub in_order : OpenFile → Bytes → Bytes → ℤ → OpenFile
  unfolding begin_write end_write
  in_order f a b offset =
      let (f₁, over_a) = begin_write f in
      let (f₂, over_b) = begin_write f₁ in
      let f₃ = end_write (write_locked workaround max now f₂ over_a a offset).0 in
      end_write (write_locked workaround max now f₃ over_b b offset).0

  -- Both writes begin, `a` first; `b` gets the mutex first.
  unfoldable pub out_of_order : OpenFile → Bytes → Bytes → ℤ → OpenFile
  unfolding begin_write end_write
  out_of_order f a b offset =
      let (f₁, over_a) = begin_write f in
      let (f₂, over_b) = begin_write f₁ in
      let f₃ = end_write (write_locked workaround max now f₂ over_b b offset).0 in
      end_write (write_locked workaround max now f₃ over_a a offset).0

-- An idle, writable handle that was opened without O_APPEND.
pub record IsIdle (f : OpenFile) : Type 0 where
  pub open_handle : f.released ≡ false
  pub can_write : f.writable ≡ true
  pub no_append : f.append ≡ false
  pub idle : f.pending_writes ≡ 0

-- A write at the end of the file appends, and the end becomes the candidate.
module _ (max now : ℕ) (f : OpenFile) (overlapping : Bool) (input : Bytes) (m : max < 2 ^ 63)
    (l : length input < 2 ^ 63) (r : f.released ≡ false) (w : f.writable ≡ true)
    (n : f.append ≡ false) where
  abbrev written : ℤ → OpenFile
  written offset = (write_locked true max now f overlapping input offset).0

  abbrev SameMode : OpenFile → Type 0
  SameMode g = (g.released ≡ false) × (g.writable ≡ true) × (g.append ≡ false)

  first_write :
      length f.content + length input ≤ max
      → ((written (pos (length f.content))).content ≡ f.content ++ input)
        × ((written (pos (length f.content))).append_candidate ≡ pos (length f.content))
        × SameMode (written (pos (length f.content)))
  unfolding write_locked place stored
  first_write h =
      let g : OpenFile = record f { append_candidate = pos (length f.content) } in
      ground (arith, store_lem max now g input (length f.content), write_at_end f.content input)

  -- An overlapping write at the candidate is moved to the end.
  repeated_write :
      (o : ℕ)
      → overlapping ≡ true
      → f.append_candidate ≡ pos o
      → o < length f.content
      → length f.content + length input ≤ max
      → (written (pos o)).content ≡ f.content ++ input
  unfolding write_locked place stored
  repeated_write o v c b h =
      ground (arith, store_lem max now f input (length f.content), write_at_end f.content input)

  -- A write that overlaps with none stays where the kernel put it.
  placed_write :
      (o : ℕ)
      → overlapping ≡ false
      → o < length f.content
      → o + length input ≤ max
      → (written (pos o)).content ≡ write_at f.content o input
  unfolding write_locked place stored
  placed_write o v b h =
      let g : OpenFile = record f { append_candidate = negsuc 0 } in
      ground (arith, store_lem max now g input o)

longer : (c a : Bytes) → a ≢ [] → (d : Bytes) → d ≡ c ++ a → length c < length d
longer c [] n d e = absurd (n refl)
longer c (x ∷ a) n d e = omega (arith, ap (λ (t : Bytes). length t) e, length-append c (x ∷ a))

-- On macOS both inputs end up in the file if the write that begins first is the first to get the
-- mutex.
pub in_order_keeps_both :
    (max now : ℕ) (f : OpenFile) (a b : Bytes)
    → max < 2 ^ 63
    → IsIdle f
    → a ≢ []
    → length f.content + length a + length b ≤ max
    → (in_order true max now f a b (pos (length f.content))).content ≡ f.content ++ (a ++ b)
unfolding in_order
in_order_keeps_both max now f a b m i n h =
    let g₀ : OpenFile = record f { pending_writes = f.pending_writes + 1 + 1 } in
    let over_a : Bool = ltb 1 (f.pending_writes + 1) in
    let first =
      first_write max now g₀ over_a a m (omega arith) i.open_handle i.can_write i.no_append
        (omega arith) in
    let g : OpenFile =
      end_write (write_locked true max now g₀ over_a a (pos (length f.content))).0 in
    repeated_write max now g (ltb 1 (f.pending_writes + 1 + 1)) b m (omega arith) first.2.0
      first.2.1 first.2.2 (length f.content) (ground (arith, i.idle)) first.1
      (longer f.content a n g.content first.0)
      (omega (arith, ap (λ (t : Bytes). length t) first.0, length-append f.content a))
    ∙ rw first.0 (append_assoc f.content a b)

grow-append : (end : ℕ) (c b : Bytes) → (y : Bytes) × (grow end (c ++ b) ≡ c ++ y)
grow-append end c b = elim (Bool-cases (ltb (length (c ++ b)) end)) [
  | inl e ↦
      let zeros : Bytes = replicate (end - length (c ++ b)) 0 in
      (b ++ zeros, rw e (append_assoc c b zeros))
  | inr e ↦ (b, rw e)
]

overwritten : (c a b : Bytes) → length b ≤ length a → write_at (c ++ b) (length c) a ≡ c ++ a
unfolding write_at
overwritten c a b h =
    let end : ℕ = length c + length a in
    let (y, e) = grow-append end c b in
    let bounded : length (grow end (c ++ b)) ≤ end =
      ground (arith, length-grow end (c ++ b), length-append c b) in
    let short : length (c ++ y) ≤ end = rw e at bounded in
    rw e (
      rw (take-append c y)
        (ap (λ (r : Bytes). c ++ r) (rw (drop_all end (c ++ y) short) (append-nil a))))

-- Two writes to the same offset, the end of an idle handle without O_APPEND, that fit in the limit, in a
-- build with the workaround for macOS: if the write that begins second is the first to get the mutex, the
-- other one is put over it, and an input that is not empty and no longer than the other is lost whole.
pub out_of_order_loses :
    (max now : ℕ) (f : OpenFile) (a b : Bytes)
    → max < 2 ^ 63
    → IsIdle f
    → b ≢ []
    → length b ≤ length a
    → length f.content + length a + length b ≤ max
    → (out_of_order true max now f a b (pos (length f.content))).content ≡ f.content ++ a
unfolding out_of_order
out_of_order_loses max now f a b m i n k h =
    let g₀ : OpenFile = record f { pending_writes = f.pending_writes + 1 + 1 } in
    let over_b : Bool = ltb 1 (f.pending_writes + 1 + 1) in
    let first =
      first_write max now g₀ over_b b m (omega arith) i.open_handle i.can_write i.no_append
        (omega arith) in
    let g : OpenFile =
      end_write (write_locked true max now g₀ over_b b (pos (length f.content))).0 in
    placed_write max now g (ltb 1 (f.pending_writes + 1)) a m (omega arith) first.2.0 first.2.1
      first.2.2 (length f.content) (ground (arith, i.idle)) (longer f.content b n g.content first.0)
      (omega arith)
    ∙ rw first.0 (overwritten f.content a b k)
