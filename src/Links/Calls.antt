-- ===== src/Links/Calls.antt =====
-- The synchronizer's records, the calls that it makes, and what it asks of the disk and the tracker
-- (internal/passfs/volume.go: linkRecord; links.go: protectedLink, and the calls of
-- synchronizeOpaqueLinksOnce).
use passfs.Prelude.{
  ℕ, Bool, false, not, ◌&&◌, ◌||◌, Option, none, some, List, [], ◌∷◌, Bytes, ◌==◌, nat_equality,
  list_equality, if◌then◌else◌,
}
use passfs.Error.{Error, is_not_exist, wrap}
use passfs.Result.{Result}
use passfs.Path.{clean, dot}
use passfs.Meta.{RecoveryState}
use passfs.Links.Targets.{target_matches_storage}

-- linkRecord; `recovery` is whether its recovery state is not empty.
pub record LinkRecord : Type 0 where
  pub relative : Bytes
  pub source_path : Bytes
  pub protected : Bool
  pub orphaned_at : ℕ
  pub recovery : Bool
  pub legacy_target : Bytes

pub record ProtectedLink : Type 0 where
  pub exists : Bool
  pub is_symlink : Bool
  pub target : Bytes

-- The calls that change the disk, the metadata or the tracker, with the storage path of the object first
-- where they have one. Marks take the time of the call.
pub data LinkCall : Type 0 where
  replace_link : Bytes → Bytes → Bytes → LinkCall  -- replaceProtectedLink: path, target, expected target
  retire_link : Bytes → Bytes → LinkCall  -- retireProtectedLink
  track : Bytes → Bytes → LinkCall  -- tracker.ensure
  retrack : Bytes → Bytes → LinkCall  -- tracker.replace
  forget : Bytes → LinkCall  -- tracker.forget
  clear_orphan : Bytes → LinkCall
  mark_orphan : Bytes → LinkCall
  mark_recovery : Bytes → RecoveryState → LinkCall
  set_source : Bytes → Bytes → LinkCall

-- What the pass asks: inspectProtectedLink, the tracker's state of an object (`none` where it is not
-- tracked, else its path and whether it is linked), the search's find, whether the search is comprehensive
-- and has indexed all of its roots, time.Since of a mark, and the result of a call.
pub record World (V : Type 0) : Type 0 where
  pub has_tracker : Bool
  pub inspect : Bytes → V → Result ProtectedLink
  pub tracked : Bytes → V → Result (Option (Bytes × Bool))
  pub find : Bytes → Bytes → V → Result Bytes × V
  pub exhausted : V → Bool
  pub since : ℕ → V → ℕ
  pub call : LinkCall → V → Option Error × V

-- What a record's pass leaves: the issues by their path, the calls that it made, and the state.
pub record Pass (V : Type 0) : Type 0 where
  pub issues : List (Bytes × Error)
  pub calls : List LinkCall
  pub after : V

-- trackedLinkDeletionGrace and pendingObjectRegistrationGrace in nanoseconds
abbrev pub deletion_grace : ℕ
deletion_grace = 500000000

abbrev pub registration_grace : ℕ
registration_grace = 30000000000

abbrev pub no_link : ProtectedLink
no_link = record { exists = false; is_symlink = false; target = [] }

abbrev pub source_of : Bytes → Bytes
source_of path = if clean path == dot then [] else clean path

-- A symlink that leads to the record's object, or to its legacy target.
abbrev pub leads_here : LinkRecord → ProtectedLink → Bool
leads_here r link =
    target_matches_storage link.target r.relative || link.target == clean r.legacy_target

abbrev pub moved_path : Bytes → Bytes → Bool → Bytes
moved_path source path linked = if linked && not (clean path == source) then path else []

-- The right link of an object: one to the object, or to its legacy target.
abbrev pub is_right : LinkRecord → ProtectedLink → Bool
is_right r link =
    link.is_symlink
    && (target_matches_storage link.target r.relative
        || not (r.legacy_target == []) && link.target == clean r.legacy_target)

module _ {V : Type 0} where
  abbrev pub end_pass : V → Pass V
  end_pass v = record { issues = []; calls = []; after = v }

  abbrev pub with_issue : Bytes → Error → Pass V → Pass V
  with_issue path e p = record p { issues = (path, e) ∷ p.issues }

  abbrev pub issue : Bytes → Error → V → Pass V
  issue path e v = with_issue path e (end_pass v)

  abbrev pub called : LinkCall → Pass V → Pass V
  called c p = record p { calls = c ∷ p.calls }

  -- `if err != nil { issues[path] = …; continue }`
  abbrev pub or_issue : Bytes → (V → Pass V) → Option Error × V → Pass V
  or_issue path next (some e, v) = issue path (wrap e) v
  or_issue path next (none, v) = next v

  -- The same for an error that is not os.ErrNotExist.
  abbrev pub or_missing : Bytes → (V → Pass V) → Option Error × V → Pass V
  or_missing path next (some e, v) = if is_not_exist e then next v else issue path (wrap e) v
  or_missing path next (none, v) = next v

module _ {V : Type 0} (w : World V) where
  -- A call, and what follows its error and the state after it.
  abbrev pub do_call : LinkCall → V → (Option Error × V → Pass V) → Pass V
  do_call c v next = called c (next (w.call c v))

  -- A call whose error is dropped.
  abbrev pub try_call : LinkCall → V → (V → Pass V) → Pass V
  try_call c v next = do_call c v (λ (e, after). next after)

  abbrev pub if_tracker : LinkCall → V → (V → Pass V) → Pass V
  if_tracker c v next = if w.has_tracker then try_call c v next else next v
