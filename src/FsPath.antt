-- ===== src/FsPath.antt =====
-- utils/fs/path.cpp. A path is the text that `normalize` returns.
pub mod Normal
pub mod Branch
pub mod Join
pub mod Parent
use kyua.Prelude.{
  ℕ, zero, suc, ◌+◌, ◌-◌, Bool, true, false, not, ◌&&◌, Option, none, some, [], ◌∷◌, ◌++◌, ◌==◌,
  if◌then◌else◌, length, drop, is_empty, all,
}
use kyua.Prelude.Bytes.{Bytes, bytes, str_eq, str_lt, find, find_from, substr, substr_to}
use kyua.Prelude.Results.{Result, ok, err}

pub record FsPath : Type 0 where
  pub repr : Bytes

-- The exceptions of utils/fs/exceptions.hpp that this file throws, with their arguments.
pub data PathError : Type 0 where
  invalid_path_error : Bytes → Bytes → PathError
  join_error : Bytes → Bytes → Bytes → PathError

-- What one round of the loop of `normalize` adds; the flag is `pos == 0`.
unfoldable pub add_component : Bool → Bytes → Bytes → Bytes
unfolding str_eq
add_component first component out =
    if not (is_empty component)
    then if first
      then out ++ component
      else if not (str_eq component (b'.' ∷ []))
      then out ++ (b'/' ∷ component)
      else out
    else out

-- The loop of `normalize`, at `pos`.
unfoldable pub normalize_loop : ℕ → Bytes → ℕ → Bytes → Bytes
normalize_loop zero text pos out = out
normalize_loop (suc fuel) text pos out =
    let next_pos = find_from b'/' text pos in
    let out' = add_component (pos == 0) (substr_to text pos next_pos) out in
    elim next_pos [ none ↦ out' | some n ↦ normalize_loop fuel text (n + 1) out' ]

abbrev pub or_root : Bytes → Bytes
or_root [] = b'/' ∷ []
or_root (c ∷ out) = c ∷ out

-- `normalize` on a text that is not empty. Each round moves past a separator or ends the loop.
unfoldable pub normalized : Bytes → Bytes
unfolding normalize_loop
normalized text = or_root (normalize_loop (suc (length text)) text 0 [])

unfoldable pub normalize : Bytes → Result PathError Bytes
unfolding normalized
normalize text =
    if is_empty text
    then err (invalid_path_error text (bytes "Cannot be empty"))
    else ok (normalized text)

abbrev path_of : Result PathError Bytes → Result PathError FsPath
path_of (ok r) = ok (record { repr = r })
path_of (err e) = err e

-- The constructor.
unfoldable pub path : Bytes → Result PathError FsPath
unfolding normalize
path text = path_of (normalize text)

-- The constructor, at a text that is not empty.
unfoldable pub path! : Bytes → FsPath
unfolding normalized
path! text = record { repr = normalized text }

abbrev pub dot : FsPath
dot = record { repr = b'.' ∷ [] }

abbrev pub root : FsPath
root = record { repr = b'/' ∷ [] }

-- `s.rfind(c)`.
unfoldable pub rfind : ℕ → Bytes → Option ℕ
rfind c [] = none
rfind c (x ∷ s) = elim (rfind c s) [
  | some n ↦ some (suc n)
  | none ↦ if x == c then some 0 else none
]

unfoldable pub branch_path : FsPath → FsPath
unfolding rfind path!
branch_path p = elim (rfind b'/' p.repr) [
  | none ↦ path! (b'.' ∷ [])
  | some end_pos ↦ if end_pos == 0 then path! (b'/' ∷ []) else path! (substr p.repr 0 end_pos)
]

unfoldable pub leaf_name : FsPath → Bytes
unfolding rfind
leaf_name p = elim (rfind b'/' p.repr) [ none ↦ p.repr | some beg_pos ↦ drop (beg_pos + 1) p.repr ]

-- `_repr[0] == '/'`; the first byte of an empty string is the terminator.
abbrev starts_with_slash : Bytes → Bool
starts_with_slash [] = false
starts_with_slash (c ∷ s) = c == b'/'

unfoldable pub is_absolute : FsPath → Bool
is_absolute p = starts_with_slash p.repr

unfoldable pub path_eq : FsPath → FsPath → Bool
unfolding str_eq
path_eq p q = str_eq p.repr q.repr

unfoldable pub path_lt : FsPath → FsPath → Bool
unfolding str_lt
path_lt p q = str_lt p.repr q.repr

-- The loop of `is_parent_of`, on its copy of the argument.
unfoldable pub is_parent_loop : ℕ → FsPath → FsPath → Bool
is_parent_loop zero self p = false
is_parent_loop (suc fuel) self p =
    let up = branch_path p in
    let rest = is_parent_loop fuel self up in
    if path_eq self p
    then true
    else if not (path_eq up dot) && not (path_eq up root)
    then rest
    else false

-- Each round but the last shortens the path.
unfoldable pub is_parent_of : FsPath → FsPath → Bool
unfolding is_parent_loop
is_parent_of self p = is_parent_loop (suc (length p.repr)) self p

abbrev count_slashes : Bytes → ℕ
count_slashes [] = 0
count_slashes (c ∷ s) = (if c == b'/' then 1 else 0) + count_slashes s

unfoldable pub ncomponents : FsPath → ℕ
unfolding str_eq
ncomponents p = if str_eq p.repr (b'/' ∷ []) then 1 else count_slashes p.repr + 1

-- `operator/` with a path.
unfoldable pub join_path : FsPath → FsPath → Result PathError FsPath
unfolding is_absolute path
join_path p rest =
    if is_absolute rest
    then err (join_error p.repr rest.repr (bytes "Cannot concatenate a path to an absolute path"))
    else path (p.repr ++ (b'/' ∷ rest.repr))

-- `operator/` with a text.
unfoldable pub join_text : FsPath → Bytes → Result PathError FsPath
unfolding join_path
join_text p components = elim (path components) [ ok rest ↦ join_path p rest | err e ↦ err e ]

-- `to_absolute`; the working directory is the caller's.
unfoldable pub to_absolute : FsPath → FsPath → Result PathError FsPath
unfolding join_path
to_absolute current_path p = join_path current_path p
