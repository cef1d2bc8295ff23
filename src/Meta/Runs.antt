-- ===== src/Meta/Runs.antt =====
-- Any sequence of metadata operations, each with its own faults of the file system
-- (internal/passfs/volume.go: the functions that change the metadata).
use passfs.Prelude.{
  ◌-◌, ltb, leb, inr, inl, subst, ℕ, ◌≡◌, Bool, true, false, not, ◌&&◌, ◌||◌, Option, none, some,
  List, [], ◌∷◌, All, Bytes, if◌then◌else◌, ◌==◌, nat_equality, list_equality, sym,
}
use passfs.Error.{Error, wrap, message}
use passfs.Result.{Result, ok, err}
use passfs.Table.{lookup, insert}
use passfs.Path.{clean}
use passfs.FileMeta.{FileMeta}
use passfs.Meta.Disk.{
  refresh_locked, refresh_read, refreshed, Metadata, RecoveryState, trash, conflict, other_state,
  merged, valid_recovery, read_metadata, Io, Store, update_metadata, refresh_metadata,
  record_file_access, flush_access_times, flush_in_background, minute, rearm,
}
use passfs.Meta.Updates.{
  set_file_meta, remove_file_meta, set_link_source, mark_link_orphan, clear_link_orphan,
  mark_link_recovery,
}
use passfs.Meta.Atomic.{Outcome, Changed, update_metadata-AllOrNothing}
use passfs.Meta.Sound.{
  IsSound, ResultIsSound, merged-IsSound, put_file_meta-IsSound, delete_file_metadata-IsSound,
  Covers-file, drop_orphan-IsSound, put_link_source-IsSound, put_orphan-IsSound,
  put_recovery-IsSound,
}

-- The operations on the metadata.
pub data Call : Type 0 where
  set_meta : ℕ → ℕ → Bytes → FileMeta → Call
  remove_meta : Bytes → Call
  set_source : Bytes → Result Bytes → Call
  mark_orphan : Bytes → ℕ → Call
  clear_orphan : Bytes → Call
  mark_recovery : Bytes → RecoveryState → Bytes → ℕ → Call
  access : Bytes → ℕ → Call
  refresh flush background : Call

unfoldable pub apply : Io → Call → Store → Store
unfolding set_file_meta remove_file_meta set_link_source mark_link_orphan clear_link_orphan
    mark_link_recovery record_file_access refresh_metadata flush_access_times flush_in_background
apply io (set_meta now fresh key meta) s = (set_file_meta io now fresh key meta s).1
apply io (remove_meta key) s = (remove_file_meta io key s).1
apply io (set_source key source) s = (set_link_source io key source s).1
apply io (mark_orphan key now) s = (mark_link_orphan io key now s).1
apply io (clear_orphan key) s = (clear_link_orphan io key s).1
apply io (mark_recovery key state reason now) s = (mark_link_recovery io key state reason now s).1
apply io (access key at) s = record_file_access key at s
apply io refresh s = (refresh_metadata io s).1
apply io flush s = (flush_access_times io s).1
apply io background s = flush_in_background io s

unfoldable pub apply_all : List (Io × Call) → Store → Store
unfolding apply
apply_all [] s = s
apply_all ((io, call) ∷ calls) s = apply_all calls (apply io call s)

-- What migrateLegacyMetadata gives and leaves on disk is metadata whose entries belong to files, if
-- it was so before.
abbrev pub ReadIsSound : Result Metadata × Metadata → Type 0
ReadIsSound (r, disk) = ResultIsSound r × IsSound disk

abbrev pub Migrates : Io → Type 0
Migrates io = (m : Metadata) → IsSound m → ReadIsSound (io.migrate m)

abbrev pub StoreIsSound : Store → Type 0
StoreIsSound s = IsSound s.disk × IsSound s.memory

read-if-IsSound :
    (b : Bool) (x y : Result Metadata × Metadata)
    → ReadIsSound x
    → ReadIsSound y
    → ReadIsSound (if b then x else y)
read-if-IsSound true x y h k = h
read-if-IsSound false x y h k = k

read_metadata-IsSound :
    (io : Io) (m : Metadata) → Migrates io → IsSound m → ReadIsSound (read_metadata io m)
unfolding read_metadata
read_metadata-IsSound io m mig h = at_read io.read
  where
    at_version : ReadIsSound (
        if not (m.version == 2) && not (m.version == 3)
        then (err message, m)
        else if valid_recovery m.recovery
        then (ok m, m)
        else (err message, m))
    at_version =
        read-if-IsSound (not (m.version == 2) && not (m.version == 3)) (err message, m)
          (if valid_recovery m.recovery then (ok m, m) else (err message, m)) (tt, h)
          (read-if-IsSound (valid_recovery m.recovery) (ok m, m) (err message, m) (h, h) (tt, h))

    at_read :
        (o : Option Error)
        → ReadIsSound (elim o [
          | some e ↦ (err (wrap e), m)
          | none ↦
              if m.version == 1
              then io.migrate m
              else if not (m.version == 2) && not (m.version == 3)
              then (err message, m)
              else if valid_recovery m.recovery
              then (ok m, m)
              else (err message, m)
        ])
    at_read (some e) = (tt, h)
    at_read none =
        read-if-IsSound (m.version == 1) (io.migrate m)
          (if not (m.version == 2) && not (m.version == 3)
            then (err message, m)
            else if valid_recovery m.recovery
            then (ok m, m)
            else (err message, m))
          (mig m h) at_version

module _ (io : Io) (mig : Migrates io) (s : Store) (h : StoreIsSound s) where
  read_merged :
      (current : Metadata) → (read_metadata io s.disk).0 ≡ ok current → IsSound (merged s current)
  read_merged current r =
      merged-IsSound s current (subst ResultIsSound r (read_metadata-IsSound io s.disk mig h.0).0)

  update_metadata-IsSound :
      (change : Metadata → Result Metadata)
      → ((m : Metadata) → IsSound m → ResultIsSound (change m))
      → StoreIsSound (update_metadata io change s).1
  update_metadata-IsSound change keeps =
      known (update_metadata io change s) (update_metadata-AllOrNothing io change s)
    where
      changed : (next : Metadata) → Changed io change s next → IsSound next
      changed next (current, r, c) =
          subst ResultIsSound c (keeps (merged s current) (read_merged current r))

      known : (t : Option Error × Store) → Outcome io change s t → StoreIsSound t.1
      known (none, t) (c, same, p, q) =
          (subst IsSound (sym same) (changed t.memory c), changed t.memory c)
      known (some e, t) (m, p, q, inl (inl same)) =
          (subst IsSound (sym same) h.0, subst IsSound (sym m) h.1)
      known (some e, t) (m, p, q, inl (inr same)) = (
        subst IsSound (sym same) (read_metadata-IsSound io s.disk mig h.0).1,
        subst IsSound (sym m) h.1,
      )
      known (some e, t) (m, p, q, inr (l, c)) = (changed t.disk c, subst IsSound (sym m) h.1)

  refresh-IsSound : StoreIsSound (refresh_metadata io s).1
  unfolding refresh_metadata
  refresh-IsSound = at_lock io.lock
    where
      at_unlock :
          (o : Option Error) (current disk : Metadata)
          → IsSound disk
          → IsSound (merged s current)
          → StoreIsSound (refreshed (record s { disk = disk }) current o).1
      at_unlock (some e) current disk d c = (d, h.1)
      at_unlock none current disk d c = (d, c)

      at_read :
          (x : Result Metadata × Metadata) → ReadIsSound x → StoreIsSound (refresh_read io s x).1
      at_read (err e, disk) r = (r.1, h.1)
      at_read (ok current, disk) r =
          at_unlock io.unlock current disk r.1 (merged-IsSound s current r.0)

      at_lock : (o : Option Error) → StoreIsSound (refresh_locked io s o).1
      at_lock (some e) = h
      at_lock none = at_read (read_metadata io s.disk) (read_metadata-IsSound io s.disk mig h.0)

-- A recorded access changes the files' times alone.
record_file_access-IsSound :
    (key : Bytes) (at : ℕ) (s : Store) → StoreIsSound s → StoreIsSound (record_file_access key at s)
unfolding record_file_access
record_file_access-IsSound key at s (d, (l, o, r, g)) = found (lookup key s.memory.files)
  where
    moved :
        (b : Bool) (meta : FileMeta)
        → StoreIsSound (
            if b then s else record s {
              memory = record s.memory {
                files = insert key (record meta { atime = at }) s.memory.files;
              };
              pending = insert key at s.pending;
              timer = true;
            })
    moved true meta = (d, (l, o, r, g))
    moved false meta = (
      d,
      (
        Covers-file key s.memory.links s.memory.files _ l,
        Covers-file key s.memory.orphaned s.memory.files _ o,
        Covers-file key s.memory.recovery s.memory.files _ r,
        Covers-file key s.memory.legacy_targets s.memory.files _ g,
      ),
    )

    found :
        (e : Option FileMeta)
        → StoreIsSound (elim e as (λ x. Store) [
          | none ↦ s
          | some meta ↦ if leb at meta.atime || ltb (at - meta.atime) minute then s else record s {
            memory = record s.memory {
              files = insert key (record meta { atime = at }) s.memory.files;
            };
            pending = insert key at s.pending;
            timer = true;
          }
        ])
    found none = (d, (l, o, r, g))
    found (some meta) = moved _ meta

if-IsSound :
    (b : Bool) (x y : Option Error × Store)
    → StoreIsSound x.1
    → StoreIsSound y.1
    → StoreIsSound (if b then x else y).1
if-IsSound true x y h k = h
if-IsSound false x y h k = k

stopped-IsSound :
    (b : Bool) (x y : Store) → StoreIsSound x → StoreIsSound y → StoreIsSound (if b then x else y)
stopped-IsSound true x y h k = h
stopped-IsSound false x y h k = k

rearm-IsSound : (x : Option Error × Store) → StoreIsSound x.1 → StoreIsSound (rearm x)
rearm-IsSound (none, s) h = h
rearm-IsSound (some e, s) h = h

apply-IsSound :
    (io : Io) (call : Call) (s : Store)
    → Migrates io
    → StoreIsSound s
    → StoreIsSound (apply io call s)
unfolding apply set_file_meta remove_file_meta set_link_source mark_link_orphan clear_link_orphan
    mark_link_recovery flush_access_times flush_in_background
apply-IsSound io (set_meta now fresh key meta) s mig h =
    update_metadata-IsSound io mig s h _ (put_file_meta-IsSound now fresh key meta)
apply-IsSound io (remove_meta key) s mig h =
    update_metadata-IsSound io mig s h _ (delete_file_metadata-IsSound key)
apply-IsSound io (set_source key (ok source)) s mig h =
    update_metadata-IsSound io mig s h _ (put_link_source-IsSound key (clean source))
apply-IsSound io (set_source key (err e)) s mig h = h
apply-IsSound io (mark_orphan key now) s mig h =
    if-IsSound _ _ _ (update_metadata-IsSound io mig s h _ (put_orphan-IsSound key now)) h
apply-IsSound io (clear_orphan key) s mig h =
    if-IsSound _ _ _ h (update_metadata-IsSound io mig s h _ (drop_orphan-IsSound key))
apply-IsSound io (mark_recovery key (other_state name) reason now) s mig h = h
apply-IsSound io (mark_recovery key trash reason now) s mig h =
    update_metadata-IsSound io mig s h _ (put_recovery-IsSound key trash reason now)
apply-IsSound io (mark_recovery key conflict reason now) s mig h =
    update_metadata-IsSound io mig s h _ (put_recovery-IsSound key conflict reason now)
apply-IsSound io (access key at) s mig h = record_file_access-IsSound key at s h
apply-IsSound io refresh s mig h = refresh-IsSound io mig s h
apply-IsSound io flush s mig h =
    if-IsSound _ _ _ h (update_metadata-IsSound io mig (record s { timer = false }) h _ (λ m k. k))
apply-IsSound io background s mig h =
    stopped-IsSound _ _ _ h
      (rearm-IsSound _ (update_metadata-IsSound io mig (record s { timer = false }) h _ (λ m k. k)))

-- From metadata whose links, orphans, recovery entries and legacy targets all belong to protected
-- files, on disk and in memory, any sequence of operations keeps it so, whatever locks, reads,
-- saves and releases fail, if the migration of format 1 gives and leaves such metadata.
pub apply_all-IsSound :
    (calls : List (Io × Call)) (s : Store)
    → All (λ x. Migrates x.0) calls
    → StoreIsSound s
    → StoreIsSound (apply_all calls s)
unfolding apply_all
apply_all-IsSound [] s mig h = h
apply_all-IsSound ((io, call) ∷ calls) s mig h =
    apply_all-IsSound calls (apply io call s) mig.1 (apply-IsSound io call s mig.0 h)
