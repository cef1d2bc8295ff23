-- ===== src/Meta/Sound.antt =====
-- The links, orphans, recovery entries and legacy targets of the metadata always belong to a
-- protected file (internal/passfs/volume.go: the functions that change the metadata).
use passfs.Prelude.{
  ap, sym, ◌∙◌, ℕ, ◌≡◌, refl, Bool, true, false, not, arith, Bytes, if◌then◌else◌, ◌==◌,
  nat_equality, list_equality, ==→eq,
}
use passfs.Error.{message, not_exist}
use passfs.Result.{Result, ok, err}
use passfs.Table.{Table, insert, delete}
use passfs.FileMeta.{FileMeta}
use passfs.Meta.Disk.{Metadata, RecoveryState, has, merged, Store}
use passfs.Meta.Updates.{
  put_file_meta, delete_file_metadata, put_link_source, put_orphan, drop_orphan, put_recovery,
}
use passfs.Meta.Merge.{has-insert, has-delete, has-merge_access}

-- Every key of `t` is one of `m`.
abbrev pub Covers : {V W : Type 0} → Table Bytes V → Table Bytes W → Type 0
Covers t m = (k : Bytes) → has k t ≡ true → has k m ≡ true

abbrev pub IsSound : Metadata → Type 0
IsSound m =
    Covers m.links m.files
    × Covers m.orphaned m.files
    × Covers m.recovery m.files
    × Covers m.legacy_targets m.files

abbrev pub ResultIsSound : Result Metadata → Type 0
ResultIsSound (ok m) = IsSound m
ResultIsSound (err e) = Unit

module _ {V W : Type 0} (key : Bytes) (t : Table Bytes V) (m : Table Bytes W) where
  pub Covers-file : (w : W) → Covers t m → Covers t (insert key w m)
  Covers-file w c k i = rw (has-insert key k w m) (ground (arith, c k i))

  Covers-entry : (v : V) → has key m ≡ true → Covers t m → Covers (insert key v t) m
  Covers-entry v h c k i = known (key == k) refl
    where
      known : (b : Bool) → (key == k) ≡ b → has k m ≡ true
      known true same = rw (sym (==→eq key k same)) h
      known false other =
          c k (sym (has-insert key k v t ∙ ap (λ b. if b then true else has k t) other) ∙ i)

  Covers-both : (v : V) (w : W) → Covers t m → Covers (insert key v t) (insert key w m)
  Covers-both v w c k i = rw (has-insert key k w m) (known (key == k) refl)
    where
      known : (b : Bool) → (key == k) ≡ b → (if b then true else has k m) ≡ true
      known true same = refl
      known false other =
          c k (sym (has-insert key k v t ∙ ap (λ b. if b then true else has k t) other) ∙ i)

  pub Covers-delete : Covers t m → Covers (delete key t) m
  Covers-delete c k i = known (key == k) refl
    where
      known : (b : Bool) → (key == k) ≡ b → has k m ≡ true
      known true same =
          ground (arith, sym (has-delete key k t ∙ ap (λ b. if b then false else has k t) same) ∙ i)
      known false other =
          c k (sym (has-delete key k t ∙ ap (λ b. if b then false else has k t) other) ∙ i)

  Covers-gone : Covers t m → Covers (delete key t) (delete key m)
  Covers-gone c k i = rw (has-delete key k m) (known (key == k) refl)
    where
      known : (b : Bool) → (key == k) ≡ b → (if b then false else has k m) ≡ true
      known true same =
          ground (arith, sym (has-delete key k t ∙ ap (λ b. if b then false else has k t) same) ∙ i)
      known false other =
          c k (sym (has-delete key k t ∙ ap (λ b. if b then false else has k t) other) ∙ i)

Covers-if :
    {V W : Type 0} (b : Bool) (t u : Table Bytes V) (m : Table Bytes W)
    → Covers t m
    → Covers u m
    → Covers (if b then t else u) m
Covers-if true t u m c d = c
Covers-if false t u m c d = d

pub put_file_meta-IsSound :
    (now fresh : ℕ) (key : Bytes) (meta : FileMeta) (m : Metadata)
    → IsSound m
    → IsSound (put_file_meta now fresh key meta m)
unfolding put_file_meta
put_file_meta-IsSound now fresh key meta m (l, o, r, g) = (
  Covers-file key m.links m.files _ l,
  Covers-if _ _ _ _ (Covers-both key m.orphaned m.files now _ o)
      (Covers-file key m.orphaned m.files _ o),
  Covers-file key m.recovery m.files _ r,
  Covers-file key m.legacy_targets m.files _ g,
)

pub delete_file_metadata-IsSound :
    (key : Bytes) (m : Metadata) → IsSound m → IsSound (delete_file_metadata key m)
unfolding delete_file_metadata
delete_file_metadata-IsSound key m (l, o, r, g) = (
  Covers-gone key m.links m.files l,
  Covers-gone key m.orphaned m.files o,
  Covers-gone key m.recovery m.files r,
  Covers-gone key m.legacy_targets m.files g,
)

pub drop_orphan-IsSound : (key : Bytes) (m : Metadata) → IsSound m → IsSound (drop_orphan key m)
unfolding drop_orphan
drop_orphan-IsSound key m (l, o, r, g) = (
  l,
  Covers-delete key m.orphaned m.files o,
  Covers-delete key m.recovery m.files r,
  Covers-delete key m.legacy_targets m.files g,
)

-- A change that is refused for a pathname without a file.
guarded :
    (b : Bool) (r : Result Metadata)
    → (b ≡ true → ResultIsSound r)
    → ResultIsSound (if not b then err not_exist else r)
guarded true r h = h refl
guarded false r h = tt

guarded_path :
    (b : Bool) (m : Metadata) → IsSound m → ResultIsSound (if b then err message else ok m)
guarded_path true m h = tt
guarded_path false m h = h

pub put_link_source-IsSound :
    (key source : Bytes) (m : Metadata) → IsSound m → ResultIsSound (put_link_source key source m)
unfolding put_link_source
put_link_source-IsSound key source m (l, o, r, g) = guarded (has key m.files) _ (λ h. (
  Covers-entry key m.links m.files source h l,
  Covers-delete key m.orphaned m.files o,
  Covers-delete key m.recovery m.files r,
  Covers-delete key m.legacy_targets m.files g,
))

pub put_orphan-IsSound :
    (key : Bytes) (now : ℕ) (m : Metadata) → IsSound m → ResultIsSound (put_orphan key now m)
unfolding put_orphan
put_orphan-IsSound key now m (l, o, r, g) =
    guarded (has key m.files) _
      (λ h. (l, Covers-if _ _ _ _ (Covers-entry key m.orphaned m.files now h o) o, r, g))

pub put_recovery-IsSound :
    (key : Bytes) (state : RecoveryState) (reason : Bytes) (now : ℕ) (m : Metadata)
    → IsSound m
    → ResultIsSound (put_recovery key state reason now m)
unfolding put_recovery
put_recovery-IsSound key state reason now m (l, o, r, g) = guarded (has key m.files) _ (λ h.
    guarded_path _ _ (
      l,
      Covers-delete key m.orphaned m.files o,
      Covers-entry key m.recovery m.files _ h r,
      Covers-delete key m.legacy_targets m.files g,
    ))

pub merged-IsSound : (s : Store) (m : Metadata) → IsSound m → IsSound (merged s m)
merged-IsSound s m (l, o, r, g) = (
  λ k i. has-merge_access s.pending k m.files ∙ l k i,
  λ k i. has-merge_access s.pending k m.files ∙ o k i,
  λ k i. has-merge_access s.pending k m.files ∙ r k i,
  λ k i. has-merge_access s.pending k m.files ∙ g k i,
)
