-- ===== src/Links.antt =====
-- One pass of the link synchronizer over one record (internal/passfs/links.go:
-- synchronizeOpaqueLinksOnce, the body of its loop). What the pass looks at and calls is a parameter; the
-- calls that change something are listed in the order in which they are made.
pub mod Calls
pub mod Targets
pub mod Trash
pub mod Sources
pub mod Matching
use passfs.Prelude.{
  ◌++◌, ℕ, Bool, true, false, not, ◌&&◌, ◌||◌, Option, none, some, List, [], ◌∷◌, Bytes, ltb, ◌==◌,
  nat_equality, list_equality, list_beq, if◌then◌else◌, is_empty,
}
use passfs.Error.{Error, message, errno, ebusy, is_not_exist, wrap}
use passfs.Result.{Result, ok, err}
use passfs.Path.{clean, dot}
use passfs.Objects.{mounted_path_for_storage}
use passfs.Meta.{RecoveryState, trash, conflict}
use passfs.Links.Targets.{target_matches_storage}
use passfs.Links.Calls.{
  LinkRecord, ProtectedLink, World, Pass, called, clear_orphan, deletion_grace, do_call, end_pass,
  forget, if_tracker, is_right, issue, leads_here, mark_orphan, mark_recovery, moved_path, no_link,
  or_issue, or_missing, registration_grace, replace_link, retire_link, retrack, set_source,
  source_of, track, try_call, with_issue,
}

module _ {V : Type 0} (w : World V) where
  -- The link at the source path is right: its target is updated, it is tracked, and its marks are cleared.
  abbrev pub clear_marks : LinkRecord → Bytes → V → Pass V
  clear_marks r source v = do_call w (clear_orphan r.relative) v (or_issue source end_pass)

  abbrev pub keep_link : LinkRecord → Bytes → V → Pass V
  keep_link r source v =
      if w.has_tracker
      then do_call w (track r.relative source) v (or_issue source (clear_marks r source))
      else clear_marks r source v

  abbrev pub settle_link : LinkRecord → Bytes → Bytes → ProtectedLink → V → Pass V
  settle_link r source expected link v =
      if not (link.target == clean expected)
      then do_call w (replace_link source expected link.target) v
          (or_issue source (keep_link r source))
      else keep_link r source v

  -- A tracked link that is linked nowhere.
  abbrev pub bury : LinkRecord → Bytes → V → Pass V
  bury r source v =
      do_call w (mark_recovery r.relative trash) v
        (or_missing source (λ after. try_call w (forget r.relative) after end_pass))

  abbrev pub tracked_gone : LinkRecord → Bytes → ProtectedLink → V → Pass V
  tracked_gone r source link v =
      if link.exists
      then try_call w (mark_recovery r.relative conflict) v (issue source message)
      else if r.orphaned_at == 0 || ltb (w.since r.orphaned_at v) deletion_grace
      then try_call w (mark_orphan r.relative) v (issue source (errno ebusy))
      else bury r source v

  -- The moved link `moved` takes the place of the missing one.
  abbrev pub adopt_source : LinkRecord → Bytes → V → Pass V
  adopt_source r moved v = do_call w (set_source r.relative moved) v (
      or_issue moved (λ after.
        if w.has_tracker
        then do_call w (retrack r.relative moved) after (or_issue moved end_pass)
        else end_pass after))

  abbrev pub record_conflict : LinkRecord → Bytes → V → Pass V
  record_conflict r source v =
      do_call w (mark_recovery r.relative conflict) v
        (or_issue source (λ after. if_tracker w (forget r.relative) after (issue source message)))

  abbrev pub adopt_moved :
      LinkRecord → Bytes → Bytes → ProtectedLink → Bytes → ProtectedLink → V → Pass V
  adopt_moved r source expected link moved found v =
      if link.exists
      then do_call w (retire_link moved r.relative) v (or_missing moved (record_conflict r source))
      else if not (found.target == clean expected)
      then do_call w (replace_link moved expected found.target) v
          (or_issue moved (adopt_source r moved))
      else adopt_source r moved v

  abbrev pub at_moved :
      LinkRecord → Bytes → Bytes → ProtectedLink → Bytes → V → Result ProtectedLink → Pass V
  at_moved r source expected link moved v (err e) = issue moved e v
  at_moved r source expected link moved v (ok found) =
      if not found.is_symlink || not (leads_here r found)
      then with_issue moved message (try_call w (mark_recovery r.relative conflict) v end_pass)
      else adopt_moved r source expected link moved found v

  -- Neither the tracker nor the search knows the link.
  abbrev pub lost : LinkRecord → Bytes → ProtectedLink → V → Pass V
  lost r source link v =
      if link.exists
      then try_call w (mark_recovery r.relative conflict) v (issue source message)
      else if source == []
          && not (r.orphaned_at == 0)
          && ltb (w.since r.orphaned_at v) registration_grace
      then issue r.relative (errno ebusy) v
      else if not (r.legacy_target == [])
      then issue r.relative message v
      else if not (w.exhausted v)
      then try_call w (mark_orphan r.relative) v (issue source message)
      else do_call w (mark_recovery r.relative trash) v
          (or_missing source (λ after. if_tracker w (forget r.relative) after end_pass))

  abbrev pub at_path : LinkRecord → Bytes → Bytes → ProtectedLink → Bytes → V → Pass V
  at_path r source expected link moved v =
      if moved == []
      then lost r source link v
      else at_moved r source expected link moved v (w.inspect moved v)

  -- After the search: a failed one marks the orphan.
  abbrev pub searched : LinkRecord → Bytes → Bytes → ProtectedLink → Result Bytes × V → Pass V
  searched r source expected link (err e, v) =
      with_issue source e (try_call w (mark_orphan r.relative) v end_pass)
  searched r source expected link (ok moved, v) = at_path r source expected link moved v

  abbrev pub search_legacy : LinkRecord → Bytes → Bytes → ProtectedLink → Result Bytes × V → Pass V
  search_legacy r source expected link (err e, v) = searched r source expected link (err e, v)
  search_legacy r source expected link (ok moved, v) =
      if moved == [] && not (r.legacy_target == [])
      then searched r source expected link (w.find source r.legacy_target v)
      else searched r source expected link (ok moved, v)

  abbrev pub search_link : LinkRecord → Bytes → Bytes → ProtectedLink → V → Pass V
  search_link r source expected link v =
      search_legacy r source expected link (w.find source expected v)

  abbrev pub at_tracked :
      LinkRecord → Bytes → Bytes → ProtectedLink → V → Result (Option (Bytes × Bool)) → Pass V
  at_tracked r source expected link v (err e) = issue source e v
  at_tracked r source expected link v (ok none) = search_link r source expected link v
  at_tracked r source expected link v (ok (some (path, linked))) =
      if not (moved_path source path linked == [])
      then at_path r source expected link (moved_path source path linked) v
      else if linked
      then issue source (errno ebusy) v
      else tracked_gone r source link v

  -- What is not the right link.
  abbrev pub follow : LinkRecord → Bytes → Bytes → ProtectedLink → V → Pass V
  follow r source expected link v =
      if r.recovery
      then end_pass v
      else if w.has_tracker
      then at_tracked r source expected link v (w.tracked r.relative v)
      else search_link r source expected link v

  abbrev pub at_link : LinkRecord → Bytes → Bytes → V → Result ProtectedLink → Pass V
  at_link r source expected v (err e) = issue source e v
  at_link r source expected v (ok link) =
      if is_right r link
      then settle_link r source expected link v
      else follow r source expected link v

  abbrev pub inspected : Bytes → V → Result ProtectedLink
  inspected source v = if source == [] then ok no_link else w.inspect source v

  abbrev pub at_target : LinkRecord → V → Result Bytes → Pass V
  at_target r v (err e) = issue r.relative e v
  at_target r v (ok expected) =
      at_link r (source_of r.source_path) expected v (inspected (source_of r.source_path) v)

  -- One round of the loop; `mount` is the mount point.
  unfoldable pub sync_record : Bytes → LinkRecord → V → Pass V
  unfolding list_beq mounted_path_for_storage target_matches_storage
  sync_record mount r v =
      if not r.protected
      then end_pass v
      else at_target r v (mounted_path_for_storage mount r.relative)

  -- The records in their order, with all their issues and calls.
  abbrev pub joined_pass : Pass V → Pass V → Pass V
  joined_pass p q = record {
    issues = p.issues ++ q.issues;
    calls = p.calls ++ q.calls;
    after = q.after;
  }

  -- The loop over the records; what the pass makes of moved directories after it is not here.
  unfoldable pub sync_records : Bytes → List LinkRecord → V → Pass V
  unfolding sync_record
  sync_records mount [] v = end_pass v
  sync_records mount (r ∷ rs) v =
      let p = sync_record mount r v in joined_pass p (sync_records mount rs p.after)
