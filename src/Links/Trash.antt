-- ===== src/Links/Trash.antt =====
-- When a pass moves an object to the trash (internal/passfs/links.go: synchronizeOpaqueLinksOnce).
use passfs.Prelude.{
  ◌≡◌, ◌⊎◌, inl, inr, refl, sym, ap, ◌∙◌, Bool, true, false, not, ◌&&◌, Option, none, some, [],
  Bytes, ltb, ◌==◌, nat_equality, list_equality, if◌then◌else◌, any, arith, ==→eq,
}
use passfs.Error.{errno, ebusy, errno, ebusy}
use passfs.Result.{Result, ok, err}
use passfs.Objects.{mounted_path_for_storage}
use passfs.Meta.{trash}
use passfs.Links.Calls.{
  LinkRecord, ProtectedLink, LinkCall, mark_recovery, World, Pass, deletion_grace, issue, end_pass,
  moved_path, source_of, is_right,
}
use passfs.Links.{
  clear_marks, settle_link, at_moved, tracked_gone, lost, at_path, searched, search_legacy,
  search_link, at_tracked, follow, at_link, at_target, inspected, sync_record,
}

abbrev pub is_trash : LinkCall → Bool
is_trash (mark_recovery key trash) = true
is_trash c = false

module _ {V : Type 0} (w : World V) (r : LinkRecord) where
  abbrev Spares : Pass V → Type 0
  Spares p = any is_trash p.calls ≡ false

  clear_marks-Spares : (source : Bytes) (v : V) → Spares (clear_marks w r source v)
  clear_marks-Spares source v = ground arith

  settle_link-Spares :
      (source expected : Bytes) (link : ProtectedLink) (v : V)
      → Spares (settle_link w r source expected link v)
  settle_link-Spares source expected link v = ground arith

  at_moved-Spares :
      (source expected : Bytes) (link : ProtectedLink) (moved : Bytes) (v : V)
      (f : Result ProtectedLink)
      → Spares (at_moved w r source expected link moved v f)
  at_moved-Spares source expected link moved v f = ground arith

  -- The link is gone, and the tracker says so since the grace period.
  abbrev pub IsBuried : ProtectedLink → V → Type 0
  IsBuried link v =
      (link.exists ≡ false)
      × ((r.orphaned_at == 0) ≡ false)
      × (ltb (w.since r.orphaned_at v) deletion_grace ≡ false)

  tracked_gone-IsBuried :
      (source : Bytes) (link : ProtectedLink) (v : V)
      → any is_trash (tracked_gone w r source link v).calls ≡ true
      → IsBuried link v
  tracked_gone-IsBuried source link v h = ground arith

  -- The link is gone, and a search of every place has not found it.
  abbrev pub IsLost : ProtectedLink → V → Type 0
  IsLost link v = (link.exists ≡ false) × ((r.legacy_target == []) ≡ true) × (w.exhausted v ≡ true)

  lost-IsLost :
      (source : Bytes) (link : ProtectedLink) (v : V)
      → any is_trash (lost w r source link v).calls ≡ true
      → IsLost link v
  lost-IsLost source link v h = ground arith

  at_path-IsLost :
      (source expected : Bytes) (link : ProtectedLink) (moved : Bytes) (v : V)
      → any is_trash (at_path w r source expected link moved v).calls ≡ true
      → ((moved == []) ≡ true) × IsLost link v
  at_path-IsLost source expected link moved v h = known (moved == []) refl
    where
      known : (b : Bool) → (moved == []) ≡ b → ((moved == []) ≡ true) × IsLost link v
      known true e = (
        e,
        lost-IsLost source link v (
            ap
              (λ c.
                any is_trash
                  (if◌then◌else◌ {A = Pass V} c (lost w r source link v)
                    (at_moved w r source expected link moved v (w.inspect moved v))).calls)
              (sym e)
            ∙ h),
      )
      known false e = absurd (
          cc (
            ap
                  (λ c.
                    any is_trash
                      (if◌then◌else◌ {A = Pass V} c (lost w r source link v)
                        (at_moved w r source expected link moved v (w.inspect moved v))).calls)
                  (sym e)
                ∙ h,
            at_moved-Spares source expected link moved v (w.inspect moved v),
          ))

  -- What the search has answered before an object is moved to the trash: that it knows no link.
  abbrev pub IsUnfound : Bytes → Bytes → ProtectedLink → V → Type 0
  IsUnfound source expected link v =
      ((w.find source expected v).0 ≡ ok []) × IsLost link (w.find source expected v).1

  search_link-IsUnfound :
      (source expected : Bytes) (link : ProtectedLink) (v : V)
      → any is_trash (search_link w r source expected link v).calls ≡ true
      → IsUnfound source expected link v
  search_link-IsUnfound source expected link v h = first (w.find source expected v) h
    where
      -- A search whose answer leads to the trash has no answer.
      found :
          (x : Result Bytes × V)
          → any is_trash (searched w r source expected link x).calls ≡ true
          → (x.0 ≡ ok []) × IsLost link x.1
      found (err e, u) k = absurd (ground (arith, k))
      found (ok moved, u) k =
          let (none_moved, gone) = at_path-IsLost source expected link moved u k in
          (ap ok (==→eq moved [] none_moved), gone)

      legacy :
          (moved : Bytes) (u : V) (c : Bool)
          → (moved == [] && not (r.legacy_target == [])) ≡ c
          → any is_trash
              (if◌then◌else◌ {A = Pass V} c
                (searched w r source expected link (w.find source r.legacy_target u))
                (searched w r source expected link (ok moved, u))).calls
            ≡ true
          → (◌≡◌ {A = Result Bytes} (ok moved) (ok [])) × IsLost link u
      legacy moved u false e k = found (ok moved, u) k
      legacy moved u true e k =
          absurd (ground (arith, e, (found (w.find source r.legacy_target u) k).1.1))

      first :
          (x : Result Bytes × V)
          → any is_trash (search_legacy w r source expected link x).calls ≡ true
          → (x.0 ≡ ok []) × IsLost link x.1
      first (err e, u) k = absurd (ground (arith, k))
      first (ok moved, u) k = legacy moved u _ refl k

  -- Why an object is moved to the trash: the kernel's reference to its link has been linked nowhere since
  -- the grace period, or a search of every place knows no link.
  abbrev pub IsGone : Bytes → Bytes → ProtectedLink → V → Type 0
  IsGone source expected link v =
      ((path : Bytes) × (w.tracked r.relative v ≡ ok (some (path, false))) × IsBuried link v)
      ⊎ IsUnfound source expected link v

  at_tracked-IsGone :
      (source expected : Bytes) (link : ProtectedLink) (v : V) (t : Result (Option (Bytes × Bool)))
      → w.tracked r.relative v ≡ t
      → any is_trash (at_tracked w r source expected link v t).calls ≡ true
      → IsGone source expected link v
  at_tracked-IsGone source expected link v (err e) i h = absurd (ground (arith, h))
  at_tracked-IsGone source expected link v (ok none) i h =
      inr (search_link-IsUnfound source expected link v h)
  at_tracked-IsGone source expected link v (ok (some (path, linked))) i h =
      moves (moved_path source path linked == []) refl h
    where
      gone :
          (b : Bool)
          → w.tracked r.relative v ≡ ok (some (path, b))
          → any is_trash
              (if◌then◌else◌ {A = Pass V} b
                (issue source (errno ebusy) v)
                (tracked_gone w r source link v)).calls
            ≡ true
          → IsGone source expected link v
      gone true j k = absurd (ground (arith, k))
      gone false j k = inl (path, j, tracked_gone-IsBuried source link v k)

      moves :
          (b : Bool)
          → (moved_path source path linked == []) ≡ b
          → any is_trash
              (if◌then◌else◌ {A = Pass V}
                (not b)
                (at_path w r source expected link (moved_path source path linked) v)
                (if linked
                  then issue source (errno ebusy) v
                  else tracked_gone w r source link v)).calls
            ≡ true
          → IsGone source expected link v
      moves true e k = gone linked i k
      moves false e k =
          absurd
            (cc (e, (at_path-IsLost source expected link (moved_path source path linked) v k).0))

  -- A link that is not right, of an object that is not in recovery.
  follow-IsGone :
      (source expected : Bytes) (link : ProtectedLink) (v : V)
      → any is_trash (follow w r source expected link v).calls ≡ true
      → (r.recovery ≡ false) × IsGone source expected link v
  follow-IsGone source expected link v h = known r.recovery w.has_tracker refl h
    where
      known :
          (b c : Bool)
          → r.recovery ≡ b
          → any is_trash
              (if◌then◌else◌ {A = Pass V} b (end_pass v) (
                if c
                then at_tracked w r source expected link v (w.tracked r.relative v)
                else search_link w r source expected link v)).calls
            ≡ true
          → (r.recovery ≡ false) × IsGone source expected link v
      known true c e k = absurd (ground (arith, k))
      known false true e k = (e, at_tracked-IsGone source expected link v _ refl k)
      known false false e k = (e, inr (search_link-IsUnfound source expected link v k))

  -- What holds when a pass moves the object to the trash.
  abbrev pub MayTrash : Bytes → V → Type 0
  MayTrash mount v =
      (r.protected ≡ true)
      × (r.recovery ≡ false)
      × ((expected : Bytes) × (link : ProtectedLink) × (mounted_path_for_storage mount r.relative
            ≡ ok expected)
          × (inspected w (source_of r.source_path) v ≡ ok link)
          × (is_right r link ≡ false)
          × IsGone (source_of r.source_path) expected link v)

  at_target-MayTrash :
      (mount : Bytes) (v : V) (t : Result Bytes)
      → r.protected ≡ true
      → mounted_path_for_storage mount r.relative ≡ t
      → any is_trash (at_target w r v t).calls ≡ true
      → MayTrash mount v
  at_target-MayTrash mount v (err e) p i h = absurd (ground (arith, h))
  at_target-MayTrash mount v (ok expected) p i h =
      at_inspected (inspected w (source_of r.source_path) v) refl h
    where
      right :
          (link : ProtectedLink) (b : Bool)
          → inspected w (source_of r.source_path) v ≡ ok link
          → is_right r link ≡ b
          → any is_trash
              (if◌then◌else◌ {A = Pass V} b
                (settle_link w r (source_of r.source_path) expected link v)
                (follow w r (source_of r.source_path) expected link v)).calls
            ≡ true
          → MayTrash mount v
      right link true j e k =
          absurd (cc (k, settle_link-Spares (source_of r.source_path) expected link v))
      right link false j e k =
          let (calm, gone) = follow-IsGone (source_of r.source_path) expected link v k in
          (p, calm, (expected, link, i, j, e, gone))

      at_inspected :
          (x : Result ProtectedLink)
          → inspected w (source_of r.source_path) v ≡ x
          → any is_trash (at_link w r (source_of r.source_path) expected v x).calls ≡ true
          → MayTrash mount v
      at_inspected (err e) j k = absurd (ground (arith, k))
      at_inspected (ok link) j k = right link (is_right r link) j refl k

  -- A pass moves an object to the trash only if it is protected and in no recovery state, the pathname of
  -- its link has been inspected and nothing is there, and either the tracker says that the link is linked
  -- nowhere and the orphan's mark is older than the grace period, or the search, comprehensive and with all
  -- of its roots indexed, knows no link, and the object has no legacy target.
  pub sync_record-MayTrash :
      (mount : Bytes) (v : V)
      → any is_trash (sync_record w mount r v).calls ≡ true
      → MayTrash mount v
  unfolding sync_record
  sync_record-MayTrash mount v h = known r.protected refl h
    where
      known :
          (b : Bool)
          → r.protected ≡ b
          → any is_trash
              (if◌then◌else◌ {A = Pass V}
                (not b)
                (end_pass v)
                (at_target w r v (mounted_path_for_storage mount r.relative))).calls
            ≡ true
          → MayTrash mount v
      known false e k = absurd (ground (arith, k))
      known true e k =
          at_target-MayTrash mount v (mounted_path_for_storage mount r.relative) e refl k
