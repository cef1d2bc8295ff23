-- ===== src/Examples/Handles.antt =====
-- Open files: the theorems of Handle at a small file.
use passfs.Prelude.{
  ◌+◌, ℕ, ◌≡◌, refl, true, false, some, none, List, [], ◌∷◌, ◌++◌, codes, arith, get_elem?,
}
use passfs.Prelude.Int.{pos, negsuc}
use passfs.Error.{success}
use passfs.Handle.Append.{IsIdle, out_of_order, out_of_order_loses}
use passfs.FileMeta.{SetAttributes}
use passfs.Handle.{Volume, OpenFile, read, write_at, place, write_locked, stored}
use passfs.Handle.Content.{get_elem?-write_at}
use passfs.Handle.Writes.{AllOrNothing, write-AllOrNothing, write_fits, append_write, read-write}
use passfs.Handle.Releases.{path_unlocks, namespace_unlocks, one, run-releases}
use passfs.Handle.Invariant.{IsValid, Call, run, run-IsValid}

-- A volume that counts its writes and takes every file.
abbrev counting : Volume ℕ
counting = record {
  max_file_size = 100;
  uid = 501;
  gid = 20;
  persist = λ path content meta n. (none, n);
}

abbrev small_file : OpenFile
small_file = record {
  relative = codes "objects/x";
  content = codes "abc";
  meta = record { size = 3; mode = 420; mtime = 7; atime = 7; inode = 9 };
  writable = true;
  append = false;
  dirty = false;
  released = false;
  append_candidate = negsuc 0;
  pending_writes = 0;
  unlock = true;
  unlock_path = true;
}

abbrev append_file : OpenFile
append_file = record small_file { append = true }

abbrev gone_file : OpenFile
gone_file = record small_file { content = []; released = true; unlock = false; unlock_path = false }

abbrev no_change : SetAttributes
no_change = record {
  size = none;
  mode = none;
  uid = none;
  gid = none;
  access_time = none;
  modify_time = none;
}

write_with_gap : write_at (codes "abc") 5 (codes "XY") ≡ codes "abc" ++ (0 ∷ 0 ∷ codes "XY")
unfolding write_at
write_with_gap = refl

get_elem?-write_at_example : get_elem? (write_at (codes "abc") 1 (codes "XY")) 2 ≡ some b'Y'
get_elem?-write_at_example = get_elem?-write_at (codes "abc") 1 (codes "XY") 2

write-AllOrNothing_example :
    AllOrNothing 100 8 small_file
      (codes "XY")
      (place false small_file false (pos 1)).0
      (write_locked false 100 8 small_file false (codes "XY") (pos 1))
write-AllOrNothing_example =
    write-AllOrNothing false 100 8 small_file false (codes "XY") (pos 1) (omega arith) (omega arith)

write_fits_example : (write_locked false 100 8 small_file false (codes "XY") (pos 1)).1 ≡ 2
unfolding place
write_fits_example =
    write_fits false 100 8 small_file false (codes "XY") (pos 1) 1 (omega arith) (omega arith) refl
      refl refl (omega arith)

append_write_example :
    (write_locked true 100 8 append_file true (codes "XY") (pos 1)).0.content
    ≡ codes "abc" ++ codes "XY"
append_write_example =
    append_write true 100 8 append_file true (codes "XY") (pos 1) (omega arith) (omega arith) refl
      refl refl (omega arith)

read-write_example : read (stored 8 small_file (codes "XY") 1) 2 (pos 1) ≡ (codes "XY", success)
read-write_example = read-write 100 8 small_file (codes "XY") 1 refl (λ e. cc)

small_file-IsValid : IsValid 100 small_file
small_file-IsValid = record { fits = omega arith; sized = λ _. refl; let_go = λ p. cc }

abbrev calls : List (Call counting)
calls =
    Call.write_call true 8 (codes "XY") (omega arith) (pos 2)
    ∷ Call.set_call 9 (record no_change { size = some 1 })
    ∷ Call.flush_call
    ∷ Call.close_call
    ∷ []

run-IsValid_example : IsValid 100 (run counting small_file 0 calls).0
run-IsValid_example = run-IsValid counting small_file 0 calls (omega arith) small_file-IsValid

small_file-IsIdle : IsIdle small_file
small_file-IsIdle = record { open_handle = refl; can_write = refl; no_append = refl; idle = refl }

out_of_order_loses_example :
    (out_of_order true 100 8 small_file (codes "XY") (codes "Z") (pos 3)).content
    ≡ codes "abc" ++ codes "XY"
out_of_order_loses_example =
    out_of_order_loses 100 8 small_file (codes "XY") (codes "Z") (omega arith) small_file-IsIdle
      (λ e. cc) (omega arith) (omega arith)

run-releases_example :
    (path_unlocks counting small_file 0 calls
        + one counting (run counting small_file 0 calls).0.unlock_path
      ≡ 1)
    × (namespace_unlocks counting small_file 0 calls
          + one counting (run counting small_file 0 calls).0.unlock
        ≡ 1)
run-releases_example = run-releases counting small_file 0 calls
