-- ===== src/Token.antt =====
-- Session tokens and the control attribute that carries them (internal/passfs/edit_session.go).
use passfs.Prelude.{
  ℕ, ◌≡◌, refl, Bool, true, not, ◌&&◌, ◌||◌, Option, none, some, [], ◌∷◌, ◌++◌, arith, Bytes, codes,
  leb, ◌==◌, nat_equality, all, if◌then◌else◌, length, drop, Bool-cases, inl, inr,
}
use passfs.Error.{Error, message}
use passfs.Result.{Result, ok, err}
use passfs.Path.{has_prefix}

abbrev pub session_begin : Bytes
session_begin = codes "begin:"

abbrev pub session_end : Bytes
session_end = codes "end:"

-- A digit that hex.DecodeString takes.
abbrev pub is_hex_digit : ℕ → Bool
is_hex_digit c = leb b'0' c && leb c b'9' || leb b'a' c && leb c b'f' || leb b'A' c && leb c b'F'

-- A token of 32 bytes has an even length, so its digits decide whether it decodes.
unfoldable pub validate_session_token : Bytes → Option Error
validate_session_token token =
    if not (length token == 32)
    then some message
    else if not (all is_hex_digit token)
    then some message
    else none

pub data Operation : Type 0 where
  begin finish : Operation

abbrev checked : Operation → Bytes → Option Error → Result (Operation × Bytes)
checked operation token none = ok (operation, token)
checked operation token (some e) = err e

-- strings.TrimPrefix after strings.HasPrefix drops the prefix.
abbrev read_token : Operation → Bytes → Result (Operation × Bytes)
read_token operation token = checked operation token (validate_session_token token)

unfoldable pub parse_session_command : Bytes → Result (Operation × Bytes)
parse_session_command value =
    if has_prefix value session_begin
    then read_token begin (drop (length session_begin) value)
    else if has_prefix value session_end
    then read_token finish (drop (length session_end) value)
    else err message

-- The attribute values that beginControlSession and endControlSession set.
abbrev pub session_value : Operation → Bytes → Bytes
session_value begin token = session_begin ++ token
session_value finish token = session_end ++ token

-- The value that a control session sets for an operation and a valid token is read back as them.
pub parse-session_value :
    (operation : Operation) (token : Bytes)
    → validate_session_token token ≡ none
    → parse_session_command (session_value operation token) ≡ ok (operation, token)
unfolding parse_session_command has_prefix
parse-session_value begin token h = ground arith
parse-session_value finish token h = ground arith

has_prefix-append_drop : (s p : Bytes) → has_prefix s p ≡ true → s ≡ p ++ drop (length p) s
unfolding has_prefix
has_prefix-append_drop s [] h = refl
has_prefix-append_drop [] (x ∷ p) h = cc
has_prefix-append_drop (y ∷ s) (x ∷ p) h = ground (arith, has_prefix-append_drop s p)

validate_session_token-none :
    (token : Bytes)
    → validate_session_token token ≡ none
    → (length token ≡ 32) × (all is_hex_digit token ≡ true)
unfolding validate_session_token
validate_session_token-none token h = (
  ground arith,
  elim (Bool-cases (all is_hex_digit token)) [ inl e ↦ e | inr e ↦ absurd (ground arith) ],
)

read_token-ok :
    (o operation : Operation) (t token : Bytes)
    → read_token o t ≡ ok (operation, token)
    → (o ≡ operation) × (t ≡ token) × (validate_session_token token ≡ none)
read_token-ok o operation t token h = cases (validate_session_token t) refl h
  where
    cases :
        (r : Option Error)
        → validate_session_token t ≡ r
        → checked o t r ≡ ok (operation, token)
        → (o ≡ operation) × (t ≡ token) × (validate_session_token token ≡ none)
    cases none e k = (cc, cc, cc)
    cases (some x) e k = cc

-- A control value that is accepted is the one that a control session sets for the operation and the
-- token read from it, and the token has 32 digits, all hexadecimal.
pub parse_session_command_sound :
    (value : Bytes) (operation : Operation) (token : Bytes)
    → parse_session_command value ≡ ok (operation, token)
    → (value ≡ session_value operation token)
      × (length token ≡ 32)
      × (all is_hex_digit token ≡ true)
unfolding parse_session_command
parse_session_command_sound value operation token h =
    elim (Bool-cases (has_prefix value session_begin)) [
      | inl b ↦
          let (o, t, valid) =
            read_token-ok begin operation (drop (length session_begin) value) token (rw b at h) in
          let (len, hex) = validate_session_token-none token valid in
          (rw (← o) (rw (← t) (has_prefix-append_drop value session_begin b)), len, hex)
      | inr b ↦ elim (Bool-cases (has_prefix value session_end)) [
        | inl e ↦
            let (o, t, valid) =
              read_token-ok finish operation (drop (length session_end) value) token
                (rw (b, e) at h) in
            let (len, hex) = validate_session_token-none token valid in
            (rw (← o) (rw (← t) (has_prefix-append_drop value session_end e)), len, hex)
        | inr e ↦ absurd (refused (rw (b, e) at h))
      ]
    ]
  where
    refused : ◌≡◌ {A = Result (Operation × Bytes)} (err message) (ok (operation, token)) → ⊥
    refused k = cc
