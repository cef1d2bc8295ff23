-- ===== src/Meta/Shrinking.antt =====
-- The passes that drop entries: what is as long as before is the same as before
-- (internal/passfs/metadata_migration.go: the last loops of reconcileMetadata).
use passfs.Prelude.{
  ℕ, ◌≡◌, ◌≤◌, ◌<◌, refl, ap, ◌∙◌, Bool, true, false, not, [], ◌∷◌, Bytes, ◌==◌, nat_equality,
  list_equality, if◌then◌else◌, arith, Bool-cases, inl, inr, length,
}
use passfs.Table.{Table, lookup, delete}
use passfs.FileMeta.{FileMeta}
use passfs.Meta.Disk.{has, time_or_zero}
use passfs.Meta.Reconcile.{retain, unmark}

pub retain_shorter :
    {V : Type 0} (f : Table Bytes FileMeta) (t : Table Bytes V) → length (retain f t) ≤ length t
unfolding retain
retain_shorter f [] = omega arith
retain_shorter f ((k, v) ∷ t) = ground (arith, retain_shorter f t)

-- The entries that are kept are all of them, if they are as many.
pub retain_same :
    {V : Type 0} (f : Table Bytes FileMeta) (t : Table Bytes V)
    → length (retain f t) ≡ length t
    → retain f t ≡ t
unfolding retain
retain_same f [] h = refl
retain_same f ((k, v) ∷ t) h = elim (Bool-cases (has k f)) [
  | inl e ↦
      ap (λ b. if b then (k, v) ∷ retain f t else retain f t) e
      ∙ ap ((k, v) ∷◌) (retain_same f t (fewer e))
  | inr e ↦ absurd (lost e)
]
  where
    fewer : has k f ≡ true → length (retain f t) ≡ length t
    fewer e = ground (arith, h)

    lost : has k f ≡ false → ⊥
    lost e = ground (arith, h, retain_shorter f t)

delete_shorter : {V : Type 0} (k : Bytes) (t : Table Bytes V) → length (delete k t) ≤ length t
unfolding delete
delete_shorter k [] = omega arith
delete_shorter k ((j, v) ∷ t) = ground (arith, delete_shorter k t)

delete_loses :
    (k : Bytes) (t : Table Bytes ℕ)
    → (time_or_zero (lookup k t) == 0) ≡ false
    → length (delete k t) < length t
unfolding delete lookup
delete_loses k [] h = absurd (ground (arith, h))
delete_loses k ((j, v) ∷ t) h = ground (arith, delete_loses k t, delete_shorter k t)

pub unmark_shorter :
    {V : Type 0} (m : Table Bytes V) (o : Table Bytes ℕ) → length (unmark m o) ≤ length o
unfolding unmark
unmark_shorter [] o = omega arith
unmark_shorter ((k, v) ∷ m) o =
    ground (arith, unmark_shorter m o, unmark_shorter m (delete k o), delete_shorter k o)

pub unmark_same :
    {V : Type 0} (m : Table Bytes V) (o : Table Bytes ℕ)
    → length (unmark m o) ≡ length o
    → unmark m o ≡ o
unfolding unmark
unmark_same [] o h = refl
unmark_same ((k, v) ∷ m) o h = known (time_or_zero (lookup k o) == 0) refl h (unmark_same m o)
  where
    known :
        (b : Bool)
        → (time_or_zero (lookup k o) == 0) ≡ b
        → length (unmark m (if not b then delete k o else o)) ≡ length o
        → (length (unmark m o) ≡ length o → unmark m o ≡ o)
        → unmark m (if not b then delete k o else o) ≡ o
    known true e i rest = rest i
    known false e i rest = absurd (shorter (delete_loses k o e) (unmark_shorter m (delete k o)) i)
      where
        shorter : {a b c : ℕ} → b < c → a ≤ b → a ≡ c → ⊥
        shorter p q r = omega arith
