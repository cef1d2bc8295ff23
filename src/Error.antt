-- ===== src/Error.antt =====
-- Go's error values and errno numbers, as internal/passfs builds and inspects them
-- (volume.go: errnoFromError).
use passfs.Prelude.{ℕ, Bool, true, false, Option, none, some, ◌||◌, if◌then◌else◌}

-- syscall.Errno: `success` is 0, and `unnamed_errno n` the n-th of the values that the code does not name.
pub data Errno : Type 0 where
  success ebadf einval efbig eperm eacces ecanceled enoent eio eisdir eexist enotdir ebusy enotsup :
      Errno
  unnamed_errno : ℕ → Errno

-- An error is a sentinel, an errno, a text made by errors.New, a wrapping by fmt.Errorf("%w"),
-- or what errors.Join makes of two errors.
pub data Error : Type 0 where
  prompt_cancelled authentication file_too_large not_exist : Error
  errno : Errno → Error
  message : Error
  wrap : Error → Error
  join : Error → Error → Error

-- errors.Join(err, other) where `err` is not nil; a nil `other` is dropped.
abbrev pub join_errors : Error → Option Error → Error
join_errors e none = wrap e
join_errors e (some f) = join e f

-- errors.Is for the sentinels. An errno counts as os.ErrNotExist if it is ENOENT.
unfoldable pub is_cancelled : Error → Bool
is_cancelled prompt_cancelled = true
is_cancelled (wrap e) = is_cancelled e
is_cancelled (join e f) = is_cancelled e || is_cancelled f
is_cancelled _ = false

unfoldable pub is_authentication : Error → Bool
is_authentication authentication = true
is_authentication (wrap e) = is_authentication e
is_authentication (join e f) = is_authentication e || is_authentication f
is_authentication _ = false

unfoldable pub is_too_large : Error → Bool
is_too_large file_too_large = true
is_too_large (wrap e) = is_too_large e
is_too_large (join e f) = is_too_large e || is_too_large f
is_too_large _ = false

unfoldable pub is_not_exist : Error → Bool
is_not_exist not_exist = true
is_not_exist (errno enoent) = true
is_not_exist (wrap e) = is_not_exist e
is_not_exist (join e f) = is_not_exist e || is_not_exist f
is_not_exist _ = false

abbrev pub or_else {ℓ} : {A : Type ℓ} → Option A → Option A → Option A
or_else none b = b
or_else (some a) b = some a

-- errors.As(err, &errno): the first errno of the tree, in preorder.
unfoldable pub as_errno : Error → Option Errno
as_errno (errno n) = some n
as_errno (wrap e) = as_errno e
as_errno (join e f) = or_else (as_errno e) (as_errno f)
as_errno _ = none

abbrev pub or_eio : Option Errno → Errno
or_eio none = eio
or_eio (some n) = n

unfoldable pub errno_from_error : Option Error → Errno
unfolding is_cancelled is_authentication is_too_large is_not_exist as_errno
errno_from_error none = success
errno_from_error (some e) =
    if is_cancelled e
    then ecanceled
    else if is_authentication e
    then eacces
    else if is_too_large e
    then efbig
    else if is_not_exist e
    then enoent
    else or_eio (as_errno e)
