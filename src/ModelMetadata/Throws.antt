-- ===== src/ModelMetadata/Throws.antt =====
-- model/metadata.cpp: what `set_string` of the builder throws, by what the tree has at the key.
use kyua.Prelude.{
  ◌≡◌, inl, inr, refl, Bool, true, false, Option, none, some, List, [], ◌∷◌, any, arith, is_empty,
  if◌then◌else◌, Option-cases, Bool-cases,
}
use kyua.Prelude.Bytes.{Bytes, bytes}
use kyua.Prelude.Results.{Result, Result-cases, ok, err}
use kyua.Text.{split}
use kyua.FsPath.{FsPath, path}
use kyua.Units.{Floats}
use kyua.Config.{
  TreeKey, ConfigError, invalid_key_error, unknown_key_error, incomplete_key, invalid_key_value,
  value_error, bad_combination_error, failed_precondition, Leaf, bool_node, int_node,
  positive_int_node, string_node, strings_set_node, bytes_node, delta_node, user_node,
  paths_set_node, parse_key, paths_set, insert_path, set_paths, set_user, set_string, leaf, inner,
  Children, empty, find_child,
}
use kyua.Config.Tree.{Tree, set_at, set_string_key, lookup_rw, rethrow, put_leaf}
use kyua.ModelMetadata.Builder.{
  ModelError, format_error, config_error, Builder, unknown_property, rewritten, rewritten_option,
}

-- What a tree has at a key: a leaf, where a dynamic node makes a string leaf if there is none; an
-- inner node; or nothing that can be addressed.
pub data Place : Type 0 where
  at_leaf : Leaf → Place
  at_inner nowhere : Place

-- The place at a key, below a node that is dynamic or not.
unfoldable pub place : Bool → Children → TreeKey → Place
unfolding find_child
place dynamic cs [] = nowhere
place dynamic cs (name ∷ []) = elim (find_child cs name) [
  | none ↦ if dynamic then at_leaf (string_node none) else nowhere
  | some node ↦ elim node [ leaf l ↦ at_leaf l | inner d sub ↦ at_inner ]
]
place dynamic cs (name ∷ next ∷ rest) = elim (find_child cs name) [
  | none ↦ if dynamic then at_leaf (string_node none) else nowhere
  | some node ↦ elim node [ leaf l ↦ nowhere | inner d sub ↦ place d sub (next ∷ rest) ]
]

-- What `set_string` throws for a value, by the parsed key and the place at it.
pub data Reported (f : Floats) (key value : Bytes) (cs : Children)
    : Result ConfigError TreeKey → Option ModelError → Type 0 where
  bad_key :
      (what : Bytes)
      → Reported f key value cs
          (err (invalid_key_error what))
          (some (config_error (invalid_key_error what)))
  no_property :
      {full : TreeKey}
      → place false cs full ≡ nowhere
      → Reported f key value cs (ok full) (some (format_error (unknown_property key)))
  subtree :
      {full : TreeKey}
      → place false cs full ≡ at_inner
      → Reported f key value cs
          (ok full)
          (some (config_error (invalid_key_value full (bytes "Type mismatch"))))
  refused :
      {full : TreeKey} {l : Leaf} (what : Bytes)
      → place false cs full ≡ at_leaf l
      → set_string f l value ≡ err (value_error what)
      → Reported f key value cs (ok full) (some (config_error (invalid_key_value full what)))
  accepted :
      {full : TreeKey} {l m : Leaf}
      → place false cs full ≡ at_leaf l
      → set_string f l value ≡ ok m
      → Reported f key value cs (ok full) none

-- A class refuses a string with a `value_error` only.
abbrev converts : {A : Type 0} → Result ConfigError A → Bool
converts (ok a) = true
converts (err (value_error what)) = true
converts (err e) = false

paths_set-converts : (words : List Bytes) (ps : List FsPath) → converts (paths_set words ps) ≡ true
unfolding paths_set
paths_set-converts [] ps = refl
paths_set-converts (word ∷ rest) ps = elim (Result-cases (path word)) [
  | inl (e, h) ↦ rw (paths_set, h) (ground (arith, paths_set-converts rest ps))
  | inr (p, h) ↦
      rw (paths_set, h)
        (ground (arith, paths_set-converts rest ps, paths_set-converts rest (insert_path p ps)))
]

set_string-converts : (f : Floats) (l : Leaf) (raw : Bytes) → converts (set_string f l raw) ≡ true
unfolding set_string set_user set_paths
set_string-converts f (bool_node v) raw = ground arith
set_string-converts f (int_node v) raw = ground arith
set_string-converts f (positive_int_node v) raw = ground arith
set_string-converts f (string_node v) raw = refl
set_string-converts f (strings_set_node v) raw = refl
set_string-converts f (bytes_node v) raw = ground arith
set_string-converts f (delta_node v) raw = ground arith
set_string-converts f (user_node v) raw = ground arith
set_string-converts f (paths_set_node v) raw =
    ground (arith, paths_set-converts (split raw b' ') [])

-- What `lookup_rw` and the change of the leaf throw at a place.
data Met (f : Floats) (raw : Bytes) (full : TreeKey) : Place → Option ConfigError → Type 0 where
  unknown : Met f raw full nowhere (some (unknown_key_error full))
  incomplete : Met f raw full nowhere (some (incomplete_key full))
  mismatch : Met f raw full at_inner (some (invalid_key_value full (bytes "Type mismatch")))
  refusal :
      (l : Leaf) (what : Bytes)
      → set_string f l raw ≡ err (value_error what)
      → Met f raw full (at_leaf l) (some (value_error what))
  done : (l m : Leaf) → set_string f l raw ≡ ok m → Met f raw full (at_leaf l) none

module _ (f : Floats) (raw : Bytes) (full : TreeKey) where
  put_leaf-Met :
      (cs : Children) (name : Bytes) (l : Leaf) (r : Result ConfigError Leaf)
      → set_string f l raw ≡ r
      → converts r ≡ true
      → Met f raw full (at_leaf l) (put_leaf cs name l r).1
  put_leaf-Met cs name l (ok m) e h = done l m e
  put_leaf-Met cs name l (err (value_error what)) e h = refusal l what e
  put_leaf-Met cs name l (err (invalid_key_error w)) e h = absurd cc
  put_leaf-Met cs name l (err (unknown_key_error k)) e h = absurd cc
  put_leaf-Met cs name l (err (incomplete_key k)) e h = absurd cc
  put_leaf-Met cs name l (err (invalid_key_value k w)) e h = absurd cc
  put_leaf-Met cs name l (err (bad_combination_error k)) e h = absurd cc
  put_leaf-Met cs name l (err failed_precondition) e h = absurd cc

  put_set-Met :
      (cs : Children) (name : Bytes) (l : Leaf)
      → Met f raw full (at_leaf l) (put_leaf cs name l (set_string f l raw)).1
  put_set-Met cs name l =
      put_leaf-Met cs name l (set_string f l raw) refl (set_string-converts f l raw)

  made-Met :
      (ns : TreeKey) (name : Bytes)
      → Met f raw full
          (at_leaf (string_node none))
          (lookup_rw full (string_node none) (λ l. set_string f l raw) true empty (name ∷ ns)).1
  unfolding lookup_rw find_child
  made-Met [] name = put_set-Met empty name (string_node none)
  made-Met (next ∷ ns) name = made-Met ns next

  lookup_rw-Met :
      (d : Bool) (cs : Children) (ns : TreeKey) (name : Bytes)
      → Met f raw full
          (place d cs (name ∷ ns))
          (lookup_rw full (string_node none) (λ l. set_string f l raw) d cs (name ∷ ns)).1
  unfolding lookup_rw place
  lookup_rw-Met d cs [] name = elim (Option-cases (find_child cs name)) [
    | inl e ↦ elim (Bool-cases d) [
      | inl t ↦ rw (e, t, lookup_rw, place) (put_set-Met cs name (string_node none))
      | inr t ↦ rw (e, t, lookup_rw, place) unknown
    ]
    | inr (leaf l, e) ↦ rw (e, lookup_rw, place) (put_set-Met cs name l)
    | inr (inner dd sub, e) ↦ rw (e, lookup_rw, place) mismatch
  ]
  lookup_rw-Met d cs (next ∷ ns) name = elim (Option-cases (find_child cs name)) [
    | inl e ↦ elim (Bool-cases d) [
      | inl t ↦ rw (e, t, lookup_rw, place) (made-Met ns next)
      | inr t ↦ rw (e, t, lookup_rw, place) unknown
    ]
    | inr (leaf l, e) ↦ rw (e, lookup_rw, place) incomplete
    | inr (inner dd sub, e) ↦ rw (e, lookup_rw, place) (lookup_rw-Met dd sub ns next)
  ]

-- The handlers of the tree, which is strict, and those of the builder.
rewritten-Reported :
    (f : Floats) (key raw : Bytes) (cs : Children) (full : TreeKey) (q : Place)
    (e : Option ConfigError)
    → place false cs full ≡ q
    → Met f raw full q e
    → Reported f key raw cs (ok full) (rewritten_option format_error key (rethrow true full e))
unfolding rewritten rethrow
rewritten-Reported f key raw cs full _ _ p unknown = no_property p
rewritten-Reported f key raw cs full _ _ p incomplete = no_property p
rewritten-Reported f key raw cs full _ _ p mismatch = subtree p
rewritten-Reported f key raw cs full _ _ p (refusal l what e) = refused what p e
rewritten-Reported f key raw cs full _ _ p (done l m e) = accepted p e

-- What `parse_key` gives: a key of one component at least, or an `invalid_key_error`.
data Parsed : Result ConfigError TreeKey → Type 0 where
  malformed : (what : Bytes) → Parsed (err (invalid_key_error what))
  valid : (name : Bytes) (ns : TreeKey) → Parsed (ok (name ∷ ns))

two_tests :
    (key : TreeKey) (q : Bool) (a b : Bytes)
    → Parsed (
        if is_empty key
        then err (invalid_key_error a)
        else if q
        then err (invalid_key_error b)
        else ok key)
two_tests [] q a b = malformed a
two_tests (name ∷ ns) true a b = malformed b
two_tests (name ∷ ns) false a b = valid name ns

parse_key-Parsed : (s : Bytes) → Parsed (parse_key s)
unfolding parse_key
parse_key-Parsed s = two_tests (split s b'.') (any is_empty (split s b'.')) _ _

set_at-Reported :
    (f : Floats) (key raw : Bytes) (t : Tree) (r : Result ConfigError TreeKey)
    → parse_key key ≡ r
    → Parsed r
    → t.strict ≡ true
    → Reported f key raw t.root r (
        rewritten_option format_error key
          (set_at t key (string_node none) (λ k l. set_string f l raw)).1)
unfolding set_at rewritten
set_at-Reported f key raw t _ e (malformed what) s = rw (e, set_at) (bad_key what)
set_at-Reported f key raw t _ e (valid name ns) s =
    rw (e, set_at, s)
      (rewritten-Reported f key raw t.root (name ∷ ns) _ _ refl
        (lookup_rw-Met f raw (name ∷ ns) false t.root ns name))

-- On a strict tree, what `set_string` of the builder throws is the `invalid_key_error` of a key
-- that cannot be parsed; the `format_error` of an unknown property exactly where the tree has
-- nothing at the key; `invalid_key_value` where it has an inner node, or a leaf whose class
-- refuses the value, with the words of the class; and nothing where the class accepts the value.
pub set_string-Reported :
    (f : Floats) (key value : Bytes) (b : Builder)
    → b.props.strict ≡ true
    → Reported f key value b.props.root
        (parse_key key)
        (kyua.ModelMetadata.Builder.set_string f key value b).1
unfolding kyua.ModelMetadata.Builder.set_string set_string_key
set_string-Reported f key value b s =
    set_at-Reported f key value b.props (parse_key key) refl (parse_key-Parsed key) s
