-- ===== src/Links/Sources.antt =====
-- Which pathname a pass records for a link, and that recovery states are left alone
-- (internal/passfs/links.go: synchronizeOpaqueLinksOnce).
use passfs.Prelude.{
  ◌≡◌, ◌⊎◌, inl, inr, refl, sym, ap, ◌∙◌, Bool, true, false, not, ◌&&◌, ◌||◌, Option, none, some,
  [], Bytes, ◌==◌, nat_equality, list_equality, if◌then◌else◌, any, arith, ==→eq,
}
use passfs.Error.{errno, ebusy, message}
use passfs.Result.{Result, ok, err}
use passfs.Objects.{mounted_path_for_storage}
use passfs.Meta.{conflict}
use passfs.Links.Calls.{
  LinkRecord, ProtectedLink, LinkCall, set_source, mark_recovery, World, Pass, issue, with_issue,
  try_call, end_pass, moved_path, source_of, is_right, leads_here,
}
use passfs.Links.{
  settle_link, at_moved, adopt_moved, tracked_gone, lost, at_path, searched, search_legacy,
  search_link, at_tracked, follow, at_link, at_target, inspected, sync_record,
}

-- The recording of a source path.
abbrev pub is_move : Bytes → LinkCall → Bool
is_move moved (set_source key path) = moved == path
is_move moved c = false

module _ {V : Type 0} (w : World V) (r : LinkRecord) (new : Bytes) where
  abbrev Moves : Pass V → Type 0
  Moves p = any (is_move new) p.calls ≡ true

  abbrev Stays : Pass V → Type 0
  Stays p = any (is_move new) p.calls ≡ false

  settle_link-Stays :
      (source expected : Bytes) (link : ProtectedLink) (v : V)
      → Stays (settle_link w r source expected link v)
  settle_link-Stays source expected link v = ground arith

  tracked_gone-Stays :
      (source : Bytes) (link : ProtectedLink) (v : V) → Stays (tracked_gone w r source link v)
  tracked_gone-Stays source link v = ground arith

  lost-Stays : (source : Bytes) (link : ProtectedLink) (v : V) → Stays (lost w r source link v)
  lost-Stays source link v = ground arith

  -- The new path was inspected in the state `u`: a symlink that leads to the object is there.
  abbrev pub IsFound : ProtectedLink → V → Type 0
  IsFound link u =
      (link.exists ≡ false)
      × ((found : ProtectedLink) × (w.inspect new u ≡ ok found)
          × (found.is_symlink ≡ true)
          × (leads_here r found ≡ true))

  adopt_moved-IsFound :
      (source expected : Bytes) (link : ProtectedLink) (moved : Bytes) (found : ProtectedLink)
      (v : V)
      → any (is_move new) (adopt_moved w r source expected link moved found v).calls ≡ true
      → (link.exists ≡ false) × ((new == moved) ≡ true)
  adopt_moved-IsFound source expected link moved found v h = ground arith

  at_moved-IsFound :
      (source expected : Bytes) (link : ProtectedLink) (moved : Bytes) (v : V)
      (f : Result ProtectedLink)
      → w.inspect moved v ≡ f
      → Moves (at_moved w r source expected link moved v f)
      → IsFound link v
  at_moved-IsFound source expected link moved v (err e) i h = absurd (ground (arith, h))
  at_moved-IsFound source expected link moved v (ok found) i h =
      known found.is_symlink (leads_here r found) refl refl h
    where
      known :
          (b c : Bool)
          → found.is_symlink ≡ b
          → leads_here r found ≡ c
          → Moves (
              if◌then◌else◌ {A = Pass V}
                (not b || not c)
                (with_issue moved message
                  (try_call w (mark_recovery r.relative conflict) v end_pass))
                (adopt_moved w r source expected link moved found v))
          → IsFound link v
      known false c p q k = absurd (ground (arith, k))
      known true false p q k = absurd (ground (arith, k))
      known true true p q k =
          let (gone, same) = adopt_moved-IsFound source expected link moved found v k in
          (gone, (found, ap (λ x. w.inspect x v) (==→eq new moved same) ∙ i, p, q))

  at_path-IsFound :
      (source expected : Bytes) (link : ProtectedLink) (moved : Bytes) (v : V)
      → Moves (at_path w r source expected link moved v)
      → IsFound link v
  at_path-IsFound source expected link moved v h = known (moved == []) h
    where
      known :
          (b : Bool)
          → Moves (
              if◌then◌else◌ {A = Pass V} b
                (lost w r source link v)
                (at_moved w r source expected link moved v (w.inspect moved v)))
          → IsFound link v
      known true k = absurd (cc (k, lost-Stays source link v))
      known false k = at_moved-IsFound source expected link moved v _ refl k

  -- A state in which a pass inspects a moved link: as it began, or after one or two searches.
  abbrev pub IsReached : Bytes → Bytes → V → V → Type 0
  IsReached source expected v u =
      (u ≡ v)
      ⊎ ((u ≡ (w.find source expected v).1)
          ⊎ (u ≡ (w.find source r.legacy_target (w.find source expected v).1).1))

  abbrev pub MayMove : Bytes → Bytes → ProtectedLink → V → Type 0
  MayMove source expected link v = (u : V) × IsReached source expected v u × IsFound link u

  search_link-MayMove :
      (source expected : Bytes) (link : ProtectedLink) (v : V)
      → Moves (search_link w r source expected link v)
      → MayMove source expected link v
  search_link-MayMove source expected link v h = first (w.find source expected v) refl h
    where
      found :
          (x : Result Bytes × V)
          → IsReached source expected v x.1
          → Moves (searched w r source expected link x)
          → MayMove source expected link v
      found (err e, u) i k = absurd (ground (arith, k))
      found (ok moved, u) i k = (u, i, at_path-IsFound source expected link moved u k)

      legacy :
          (moved : Bytes) (u : V) (c : Bool)
          → (w.find source expected v).1 ≡ u
          → Moves (
              if◌then◌else◌ {A = Pass V} c
                (searched w r source expected link (w.find source r.legacy_target u))
                (searched w r source expected link (ok moved, u)))
          → MayMove source expected link v
      legacy moved u false i k = found (ok moved, u) (inr (inl (sym i))) k
      legacy moved u true i k =
          found (w.find source r.legacy_target u)
            (inr (inr (ap (λ x. (w.find source r.legacy_target x).1) (sym i)))) k

      first :
          (x : Result Bytes × V)
          → w.find source expected v ≡ x
          → Moves (search_legacy w r source expected link x)
          → MayMove source expected link v
      first (err e, u) i k = absurd (ground (arith, k))
      first (ok moved, u) i k =
          legacy moved u (moved == [] && not (r.legacy_target == [])) (ap (λ x. x.1) i) k

  at_tracked-MayMove :
      (source expected : Bytes) (link : ProtectedLink) (v : V) (t : Result (Option (Bytes × Bool)))
      → Moves (at_tracked w r source expected link v t)
      → MayMove source expected link v
  at_tracked-MayMove source expected link v (err e) h = absurd (ground (arith, h))
  at_tracked-MayMove source expected link v (ok none) h =
      search_link-MayMove source expected link v h
  at_tracked-MayMove source expected link v (ok (some (path, linked))) h =
      known (moved_path source path linked == []) linked h
    where
      known :
          (b c : Bool)
          → Moves (
              if◌then◌else◌ {A = Pass V}
                (not b)
                (at_path w r source expected link (moved_path source path linked) v)
                (if c then issue source (errno ebusy) v else tracked_gone w r source link v))
          → MayMove source expected link v
      known false c k =
          (v, inl refl, at_path-IsFound source expected link (moved_path source path linked) v k)
      known true true k = absurd (ground (arith, k))
      known true false k = absurd (cc (k, tracked_gone-Stays source link v))

  follow-MayMove :
      (source expected : Bytes) (link : ProtectedLink) (v : V)
      → Moves (follow w r source expected link v)
      → (r.recovery ≡ false) × MayMove source expected link v
  follow-MayMove source expected link v h = known r.recovery w.has_tracker refl h
    where
      known :
          (b c : Bool)
          → r.recovery ≡ b
          → Moves (
              if◌then◌else◌ {A = Pass V} b (end_pass v) (
                if c
                then at_tracked w r source expected link v (w.tracked r.relative v)
                else search_link w r source expected link v))
          → (r.recovery ≡ false) × MayMove source expected link v
      known true c e k = absurd (ground (arith, k))
      known false true e k =
          (e, at_tracked-MayMove source expected link v (w.tracked r.relative v) k)
      known false false e k = (e, search_link-MayMove source expected link v k)

  -- The round of a pass for one record, before the directories' moves at its end, records the path `new` as
  -- the source of the link only if the object is protected and in no recovery
  -- state, nothing was found at the old pathname, and at `new` there was a symlink that leads to the object
  -- or to its legacy target, as inspected at the beginning or after the searches for it.
  pub sync_record-MayMove :
      (mount : Bytes) (v : V)
      → any (is_move new) (sync_record w mount r v).calls ≡ true
      → (r.protected ≡ true)
        × (r.recovery ≡ false)
        × ((expected : Bytes) × (link : ProtectedLink) × (inspected w (source_of r.source_path) v
              ≡ ok link)
            × MayMove (source_of r.source_path) expected link v)
  unfolding sync_record
  sync_record-MayMove mount v h = known r.protected refl h
    where
      Result_of : Type 0
      Result_of =
          (r.protected ≡ true)
          × (r.recovery ≡ false)
          × ((expected : Bytes) × (link : ProtectedLink) × (inspected w (source_of r.source_path) v
                ≡ ok link)
              × MayMove (source_of r.source_path) expected link v)

      right :
          (expected : Bytes) (link : ProtectedLink) (b : Bool)
          → r.protected ≡ true
          → inspected w (source_of r.source_path) v ≡ ok link
          → Moves (
              if◌then◌else◌ {A = Pass V} b
                (settle_link w r (source_of r.source_path) expected link v)
                (follow w r (source_of r.source_path) expected link v))
          → Result_of
      right expected link true p i k =
          absurd (cc (k, settle_link-Stays (source_of r.source_path) expected link v))
      right expected link false p i k =
          let (calm, moves) = follow-MayMove (source_of r.source_path) expected link v k in
          (p, calm, (expected, link, i, moves))

      at_inspected :
          (expected : Bytes) (x : Result ProtectedLink)
          → r.protected ≡ true
          → inspected w (source_of r.source_path) v ≡ x
          → Moves (at_link w r (source_of r.source_path) expected v x)
          → Result_of
      at_inspected expected (err e) p i k = absurd (ground (arith, k))
      at_inspected expected (ok link) p i k = right expected link (is_right r link) p i k

      at_mounted : (t : Result Bytes) → r.protected ≡ true → Moves (at_target w r v t) → Result_of
      at_mounted (err e) p k = absurd (ground (arith, k))
      at_mounted (ok expected) p k =
          at_inspected expected (inspected w (source_of r.source_path) v) p refl k

      known :
          (b : Bool)
          → r.protected ≡ b
          → Moves (
              if◌then◌else◌ {A = Pass V}
                (not b)
                (end_pass v)
                (at_target w r v (mounted_path_for_storage mount r.relative)))
          → Result_of
      known false e k = absurd (ground (arith, k))
      known true e k = at_mounted (mounted_path_for_storage mount r.relative) e k
