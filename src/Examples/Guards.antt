-- ===== src/Examples/Guards.antt =====
-- Path locks and open handles: the theorem of Locks at a writer and a reader of one path, those of Registry
-- at three handles.
use passfs.Prelude.{
  ◌≢◌, ◌≢◌, if◌then◌else◌, ◌≡◌, ◌⊎◌, refl, ℕ, list_beq, any, length, ◌==◌, nat_equality, [], ◌∷◌,
  true, false, codes,
}
use passfs.Locks.Counted.{Counted}
use passfs.Process.{Machine}
use passfs.Registry.{Handles, candidates, is_related, writable_open_handle}
use passfs.Registry.Set.{opens, closes, changes, is_registered, was_opened, changes-was_opened}
use passfs.Registry.Choice.{is_choice, writable_open_handle_lem}
use passfs.Table.{lookup}

changes-was_opened_example :
    is_registered (codes "a") 3 (
      changes
        (opens (codes "a") 3 (record { writable = true; pid = 9 })
          ∷ opens (codes "b") 3 (record { writable = true; pid = 9 })
          ∷ closes (codes "a") 3
          ∷ [])
        [])
    ≡ false
unfolding was_opened lookup list_beq
changes-was_opened_example =
    changes-was_opened (codes "a") 3
      (opens (codes "a") 3 (record { writable = true; pid = 9 })
        ∷ opens (codes "b") 3 (record { writable = true; pid = 9 })
        ∷ closes (codes "a") 3
        ∷ [])
      []

-- Process 8 is above process 80.
abbrev machine : Machine
machine = record { signalled = λ pid. true; parent = λ pid. if pid == 80 then 8 else 1 }

abbrev caller : ℕ
caller = 80

abbrev handles : Handles
handles =
    (1, record { writable = false; pid = 80 })
    ∷ (2, record { writable = true; pid = 8 })
    ∷ (3, record { writable = true; pid = 9 })
    ∷ []

writable_open_handle_lem_example :
    ((caller ≢ 0) × (any (is_choice (is_related machine caller) 2) handles ≡ true))
    ⊎ ((caller ≡ 0)
        × (length (candidates handles) ≡ 1)
        × (any (is_choice (λ pid. true) 2) handles ≡ true))
unfolding writable_open_handle lookup list_beq
writable_open_handle_lem_example =
    writable_open_handle_lem machine (codes "a") caller 2 ((codes "a", handles) ∷ []) refl
