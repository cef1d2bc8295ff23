-- ===== src/Registry.antt =====
-- The registry of open handles (internal/passfs/volume.go: registerOpenHandle, unregisterOpenHandle,
-- writableOpenHandle). A handle is given by a number in place of its pointer; a range visits the handles
-- in the order of the list, which Go leaves open.
pub mod Set
pub mod Choice
use passfs.Prelude.{
  ◌≡◌, ◌⊎◌, refl, sym, ap, ◌∙◌, subst, ℕ, Bool, true, false, not, ◌&&◌, ◌||◌, Option, none, some,
  List, [], ◌∷◌, Bytes, ◌==◌, nat_equality, list_equality, list_beq, if◌then◌else◌, is_empty,
  is_some, any, length, arith, ==→eq, ==_refl, Bool-cases, inl, inr,
}
use passfs.Table.{Table, lookup, insert, delete, lookup-insert, lookup-delete}
use passfs.Process.{Machine, process_is_or_descends_from}

-- A registered handle: whether it may write, and its owner's process.
pub record Registered : Type 0 where
  pub writable : Bool
  pub pid : ℕ

abbrev pub Handles : Type 0
Handles = Table ℕ Registered

abbrev pub Registry : Type 0
Registry = Table Bytes Handles

abbrev pub handles_of : Option Handles → Handles
handles_of none = []
handles_of (some hs) = hs

unfoldable pub register_open_handle : Bytes → ℕ → Registered → Registry → Registry
register_open_handle key h r t = insert key (insert h r (handles_of (lookup key t))) t

unfoldable pub unregister_open_handle : Bytes → ℕ → Registry → Registry
unregister_open_handle key h t =
    let left = delete h (handles_of (lookup key t)) in
    if is_empty left then delete key t else insert key left t

unfoldable pub candidates : Handles → Handles
candidates [] = []
candidates ((h, r) ∷ hs) = let rest = candidates hs in if r.writable then (h, r) ∷ rest else rest

abbrev pub is_related : Machine → ℕ → ℕ → Bool
is_related m owner pid =
    pid == owner
    || process_is_or_descends_from m owner pid
    || process_is_or_descends_from m pid owner

abbrev pub only : Handles → Option ℕ
only ((h, r) ∷ []) = some h
only hs = none

unfoldable pub first_related : Machine → ℕ → Handles → Option ℕ
unfolding process_is_or_descends_from
first_related m owner [] = none
first_related m owner ((h, r) ∷ hs) =
    let rest = first_related m owner hs in if is_related m owner r.pid then some h else rest

-- writableOpenHandle; an owner of 0 is an unknown caller.
unfoldable pub writable_open_handle : Machine → Bytes → ℕ → Registry → Option ℕ
unfolding candidates first_related
writable_open_handle m key owner t =
    let cs = candidates (handles_of (lookup key t)) in
    if owner == 0 then only cs else first_related m owner cs
