-- ===== src/Process.antt =====
-- Which process is asking (internal/passfs/process_name.go: processIsOrDescendsFrom; volume.go:
-- processAlive). The operating system's answers are a parameter.
use passfs.Prelude.{
  ℕ, zero, suc, ◌<◌, ◌≡◌, ◌≢◌, Bool, true, false, ◌||◌, List, [], ◌∷◌, arith, ◌==◌, nat_equality,
  any, if◌then◌else◌, Bool-cases, inl, inr, ==→eq,
}

-- `signalled` is that kill(pid, 0) succeeds or fails with EPERM; `parent` is
-- platformParentProcessID, 0 where it finds none.
pub record Machine : Type 0 where
  pub signalled : ℕ → Bool
  pub parent : ℕ → ℕ

unfoldable pub process_alive : Machine → ℕ → Bool
process_alive m pid = if pid == 0 then false else m.signalled pid

-- The loop, at most 64 rounds, over the processes seen so far.
unfoldable pub descends_loop : Machine → ℕ → ℕ → List ℕ → ℕ → Bool
descends_loop m ancestor zero visited pid = false
descends_loop m ancestor (suc rounds) visited pid =
    let above = m.parent pid in
    let further = descends_loop m ancestor rounds (pid ∷ visited) above in
    if pid == 0
    then false
    else if pid == ancestor
    then true
    else if any (λ p. p == pid) visited
    then false
    else if above == pid
    then false
    else further

unfoldable pub process_is_or_descends_from : Machine → ℕ → ℕ → Bool
unfolding descends_loop
process_is_or_descends_from m pid ancestor =
    if pid == 0 || ancestor == 0 then false else descends_loop m ancestor 64 [] pid

-- The process `n` generations above.
unfoldable pub nth_parent : Machine → ℕ → ℕ → ℕ
nth_parent m zero pid = pid
nth_parent m (suc n) pid = nth_parent m n (m.parent pid)

descends_loop-ancestor :
    (m : Machine) (ancestor rounds : ℕ) (visited : List ℕ) (pid : ℕ)
    → descends_loop m ancestor rounds visited pid ≡ true
    → (n : ℕ) × (n < rounds) × (nth_parent m n pid ≡ ancestor)
unfolding descends_loop nth_parent
descends_loop-ancestor m ancestor zero visited pid h = cc
descends_loop-ancestor m ancestor (suc rounds) visited pid h = elim (Bool-cases (pid == ancestor)) [
  | inl e ↦ (0, omega arith, ==→eq pid ancestor e)
  | inr e ↦
      let (n, b, q) =
        descends_loop-ancestor m ancestor rounds (pid ∷ visited) (m.parent pid) (ground arith) in
      (suc n, omega arith, q)
]

-- A process that is taken for another one or its descendant has that one among its 63 nearest
-- ancestors or is that one, and neither has the number 0.
pub process_is_or_descends_from_lem :
    (m : Machine) (pid ancestor : ℕ)
    → process_is_or_descends_from m pid ancestor ≡ true
    → (n : ℕ) × (n < 64) × (nth_parent m n pid ≡ ancestor) × (pid ≢ 0) × (ancestor ≢ 0)
unfolding process_is_or_descends_from
process_is_or_descends_from_lem m pid ancestor h =
    let (n, b, q) =
      descends_loop-ancestor m ancestor 64 [] pid (unfold descends_loop in ground arith) in
    (n, b, q, ground arith, ground arith)
