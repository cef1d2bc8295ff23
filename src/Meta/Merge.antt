-- ===== src/Meta/Merge.antt =====
-- Access times merged into the metadata, and the pending ones dropped after a save
-- (internal/passfs/volume.go: the two loops of updateMetadataLocked).
use passfs.Prelude.{
  ==_refl, ◌≤◌, ◌∙◌, Bool-cases, sym, ==→eq, inr, inl, ap, ℕ, ◌≡◌, refl, Bool, true, false, not,
  ◌&&◌, Option, none, some, [], ◌∷◌, arith, ◌==◌, nat_equality, list_equality, Bytes, ltb, leb,
  if◌then◌else◌,
}
use passfs.Prelude.Eq.{list_beq_iff}
use passfs.Table.{Table, lookup, insert, delete, lookup-insert, lookup-delete}
use passfs.FileMeta.{FileMeta}
use passfs.Meta.Disk.{has, time_or_zero, advance, merge_access, drop_flushed}

-- The access time of an entry, 0 where there is none.
abbrev pub atime_of : Option FileMeta → ℕ
atime_of none = 0
atime_of (some meta) = meta.atime

pub has-insert :
    {V : Type 0} (k j : Bytes) (v : V) (m : Table Bytes V)
    → has j (insert k v m) ≡ (if k == j then true else has j m)
has-insert k j v m = ground (arith, lookup-insert k j v m)

pub has-delete :
    {V : Type 0} (k j : Bytes) (m : Table Bytes V)
    → has j (delete k m) ≡ (if k == j then false else has j m)
has-delete k j m = ground (arith, lookup-delete k j m)

pub has-advance : (k j : Bytes) (t : ℕ) (m : Table Bytes FileMeta) → has j (advance k t m) ≡ has j m
unfolding advance
has-advance k j t m = when (lookup k m) refl
  where
    moved :
        (meta : FileMeta) (b : Bool)
        → lookup k m ≡ some meta
        → has j (if b then insert k (record meta { atime = t }) m else m) ≡ has j m
    moved meta true e =
        ground (arith, list_beq_iff k j, has-insert k j (record meta { atime = t }) m)
    moved meta false e = refl

    when :
        (o : Option FileMeta)
        → lookup k m ≡ o
        → has j (elim o [
          | none ↦ m
          | some meta ↦ if ltb meta.atime t then insert k (record meta { atime = t }) m else m
        ])
          ≡ has j m
    when none e = refl
    when (some meta) e = moved meta (ltb meta.atime t) e

pub has-merge_access :
    (p : Table Bytes ℕ) (j : Bytes) (m : Table Bytes FileMeta) → has j (merge_access p m) ≡ has j m
unfolding merge_access
has-merge_access [] j m = refl
has-merge_access ((k, t) ∷ p) j m = rw (has-merge_access p j (advance k t m)) (has-advance k j t m)

-- A pending time moves no access time back.
advance_keeps :
    (k j : Bytes) (t : ℕ) (m : Table Bytes FileMeta)
    → atime_of (lookup j m) ≤ atime_of (lookup j (advance k t m))
unfolding advance
advance_keeps k j t m = when (lookup k m) refl
  where
    moved :
        (meta : FileMeta) (b : Bool)
        → lookup k m ≡ some meta
        → ltb meta.atime t ≡ b
        → atime_of (lookup j m)
          ≤ atime_of (lookup j (if b then insert k (record meta { atime = t }) m else m))
    moved meta true e lt =
        rw (lookup-insert k j (record meta { atime = t }) m) (later (k == j) refl)
      where
        later :
            (b : Bool)
            → (k == j) ≡ b
            → atime_of (lookup j m)
              ≤ atime_of (if b then some (record meta { atime = t }) else lookup j m)
        later true same = rw (sym (==→eq k j same)) (rw e (ground arith))
        later false other = ground arith
    moved meta false e lt = ground arith

    when :
        (o : Option FileMeta)
        → lookup k m ≡ o
        → atime_of (lookup j m)
          ≤ atime_of (
              lookup j (elim o [
                | none ↦ m
                | some meta ↦ if ltb meta.atime t then insert k (record meta { atime = t }) m else m
              ]))
    when none e = ground arith
    when (some meta) e = moved meta (ltb meta.atime t) e refl

advance_reaches :
    (k : Bytes) (t : ℕ) (m : Table Bytes FileMeta)
    → has k m ≡ true
    → t ≤ atime_of (lookup k (advance k t m))
unfolding advance
advance_reaches k t m h = when (lookup k m) refl
  where
    moved :
        (meta : FileMeta) (b : Bool)
        → lookup k m ≡ some meta
        → ltb meta.atime t ≡ b
        → t ≤ atime_of (lookup k (if b then insert k (record meta { atime = t }) m else m))
    moved meta true e lt =
        rw (lookup-insert k k (record meta { atime = t }) m) (rw (==_refl k) (ground arith))
    moved meta false e lt = rw e (ground arith)

    when :
        (o : Option FileMeta)
        → lookup k m ≡ o
        → t
          ≤ atime_of (
              lookup k (elim o [
                | none ↦ m
                | some meta ↦ if ltb meta.atime t then insert k (record meta { atime = t }) m else m
              ]))
    when none e = ground arith
    when (some meta) e = moved meta (ltb meta.atime t) e refl

-- Merging pending access times moves no file's access time back.
pub merge_access_keeps :
    (p : Table Bytes ℕ) (j : Bytes) (m : Table Bytes FileMeta)
    → atime_of (lookup j m) ≤ atime_of (lookup j (merge_access p m))
unfolding merge_access
merge_access_keeps [] j m = ground arith
merge_access_keeps ((k, t) ∷ p) j m =
    ground (arith, advance_keeps k j t m, merge_access_keeps p j (advance k t m))

le_trans : {a b c : ℕ} → a ≤ b → b ≤ c → a ≤ c
le_trans h k = omega arith

reaches :
    (p : Table Bytes ℕ) (j : Bytes) (m : Table Bytes FileMeta)
    → has j m ≡ true
    → time_or_zero (lookup j p) ≤ atime_of (lookup j (merge_access p m))
unfolding merge_access lookup
reaches [] j m h = ground arith
reaches ((k, t) ∷ p) j m h = elim (Bool-cases (k == j)) [
  | inl same ↦
      rw (==→eq k j same) (
        rw (==_refl j)
          (le_trans (advance_reaches j t m h) (merge_access_keeps p j (advance j t m))))
  | inr other ↦ rw other (reaches p j (advance k t m) (has-advance k j t m ∙ h))
]

-- Merging the pending access times `p` into files `m` keeps a file `j` that is there, moves its
-- access time not back, and to its pending one at least.
pub merge_access_lem :
    (p : Table Bytes ℕ) (j : Bytes) (m : Table Bytes FileMeta)
    → has j m ≡ true
    → (has j (merge_access p m) ≡ true)
      × (atime_of (lookup j m) ≤ atime_of (lookup j (merge_access p m)))
      × (time_or_zero (lookup j p) ≤ atime_of (lookup j (merge_access p m)))
merge_access_lem p j m h = (has-merge_access p j m ∙ h, merge_access_keeps p j m, reaches p j m h)

-- The entries whose key a test keeps.
unfoldable keep {ℓ} : {V : Type ℓ} → (Bytes → Bool) → Table Bytes V → Table Bytes V
keep f [] = []
keep f ((k, v) ∷ m) = let rest = keep f m in if f k then (k, v) ∷ rest else rest

keep_all : (m : Table Bytes ℕ) → keep (λ k. true) m ≡ m
unfolding keep
keep_all [] = refl
keep_all ((k, v) ∷ m) = ap ((k, v) ∷◌) (keep_all m)

except : Bytes → (Bytes → Bool) → Bytes → Bool
except k f j = f j && not (k == j)

delete-keep :
    (k : Bytes) (f : Bytes → Bool) (m : Table Bytes ℕ) → delete k (keep f m) ≡ keep (except k f) m
unfolding keep delete except
delete-keep k f [] = refl
delete-keep k f ((j, v) ∷ m) = ground (arith, list_beq_iff j k, list_beq_iff k j, delete-keep k f m)

lookup-keep :
    (k : Bytes) (f : Bytes → Bool) (m : Table Bytes ℕ) → f k ≡ false → lookup k (keep f m) ≡ none
unfolding keep lookup
lookup-keep k f [] h = refl
lookup-keep k f ((j, v) ∷ m) h = elim (Bool-cases (j == k)) [
  | inl e ↦ rw (==→eq j k e) (rw h (lookup-keep k f m h))
  | inr e ↦ ground (arith, lookup-keep k f m h)
]

-- One step of the loop over the flushed times leaves the other entries.
drop_step :
    (k : Bytes) (t : ℕ) (m : Table Bytes ℕ) (f : Bytes → Bool) (b : Bool)
    → f k ≡ b
    → (if leb (time_or_zero (lookup k (keep f ((k, t) ∷ m)))) t
        then delete k (keep f ((k, t) ∷ m))
        else keep f ((k, t) ∷ m))
      ≡ keep (except k f) m
unfolding keep lookup delete
drop_step k t m f true h = ground (arith, list_beq_iff k k, delete-keep k f m)
drop_step k t m f false h = ground (arith, lookup-keep k f m h, delete-keep k f m)

drop_flushed-keep : (m : Table Bytes ℕ) (f : Bytes → Bool) → drop_flushed m (keep f m) ≡ []
unfolding drop_flushed keep
drop_flushed-keep [] f = refl
drop_flushed-keep ((k, t) ∷ m) f =
    rw (drop_step k t m f (f k) refl) (drop_flushed-keep m (except k f))

-- Every pending access time is dropped by the update that has saved it.
pub drop_flushed_all : (m : Table Bytes ℕ) → drop_flushed m m ≡ []
drop_flushed_all m = ap (drop_flushed m) (sym (keep_all m)) ∙ drop_flushed-keep m (λ k. true)
