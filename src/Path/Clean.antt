-- ===== src/Path/Clean.antt =====
-- strings.Split and strings.Join at one byte, and filepath.Clean on Unix.
use passfs.Prelude.{
  ℕ, Bool, true, false, ◌||◌, List, [], ◌∷◌, ◌++◌, Bytes, codes, slash, ◌==◌, nat_equality,
  list_equality, list_beq, if◌then◌else◌,
}
use mathlib.Core.List.{reverse}

abbrev pub cons_head : ℕ → List Bytes → List Bytes
cons_head x [] = (x ∷ []) ∷ []
cons_head x (w ∷ ws) = (x ∷ w) ∷ ws

-- strings.Split(s, string(c)): never the empty list.
unfoldable pub split : ℕ → Bytes → List Bytes
split c [] = [] ∷ []
split c (x ∷ xs) = let rest = split c xs in if x == c then [] ∷ rest else cons_head x rest

-- strings.Join(ws, string(c))
unfoldable pub join : ℕ → List Bytes → Bytes
join c [] = []
join c (w ∷ []) = w
join c (w ∷ v ∷ ws) = w ++ (c ∷ join c (v ∷ ws))

abbrev pub dot : Bytes
dot = codes "."

abbrev pub dotdot : Bytes
dotdot = codes ".."

-- filepath.IsAbs
abbrev pub is_abs : Bytes → Bool
is_abs [] = false
is_abs (x ∷ xs) = x == slash

-- ".." drops the element before it. At the root it is dropped; above a relative start it stays.
abbrev pub pop : Bool → List Bytes → List Bytes
pop rooted [] = if rooted then [] else dotdot ∷ []
pop rooted (w ∷ ws) = if w == dotdot then dotdot ∷ w ∷ ws else ws

-- One element of the path; `out` holds the elements kept so far, the last one first.
unfoldable pub clean_step : Bool → List Bytes → Bytes → List Bytes
unfolding list_beq
clean_step rooted out w =
    if w == [] || w == dot then out else if w == dotdot then pop rooted out else w ∷ out

unfoldable pub clean_loop : Bool → List Bytes → List Bytes → List Bytes
clean_loop rooted out [] = out
clean_loop rooted out (w ∷ ws) = clean_loop rooted (clean_step rooted out w) ws

-- The elements of the cleaned path, in order.
unfoldable pub components : Bytes → List Bytes
unfolding clean_loop clean_step split
components p = reverse (clean_loop (is_abs p) [] (split slash p))

abbrev pub render : Bool → List Bytes → Bytes
render true ws = slash ∷ join slash ws
render false [] = dot
render false (w ∷ ws) = join slash (w ∷ ws)

-- filepath.Clean
unfoldable pub clean : Bytes → Bytes
clean p = render (is_abs p) (components p)
