-- ===== src/Config/Tree/Setters.antt =====
-- What the setters of a configuration tree promise to the lookups.
use kyua.Prelude.{
  Bool-cases, if_true, if_false, ◌⊎◌, ◌≡◌, ◌≢◌, inl, inr, refl, sym, ap, ◌∙◌, true, false, Option,
  none, some,
}
use kyua.Prelude.Bytes.{Bytes}
use kyua.Prelude.Results.{Result, Result-cases, ok, err, ◌>>=◌}
use kyua.Units.{Floats}
use kyua.Config.{
  user_node, bytes_node, delta_node, paths_set_node, is_valid_user, set_user, TreeKey, ConfigError,
  parse_key, Leaf, bool_node, int_node, positive_int_node, string_node, strings_set_node,
  set_string, Node, leaf, inner, Children, unknown_key_error, incomplete_key, value_error,
  bad_combination_error, invalid_key_error, invalid_key_value, failed_precondition,
}
use kyua.Config.Tree.{
  lookup_rw, Change, Tree, set_at, set_key, set_string_key, set_string_node, rethrow,
  lookup_string_node, string_value,
}
use kyua.Config.Tree.Others.{as_leaf, leaf_at, lookup_rw-others}
use kyua.Config.Tree.Update.{Stored, lookup_rw-Stored}

-- Of two keys, the leaves of a tree before and after.
abbrev pub SameLeaf : TreeKey → Children → Children → TreeKey → Type 0
SameLeaf full before after other = leaf_at full after other ≡ leaf_at full before other

rethrow-none : (key : TreeKey) (e : Option ConfigError) → rethrow true key e ≡ none → e ≡ none
unfolding rethrow
rethrow-none key none h = refl
rethrow-none key (some (unknown_key_error k)) h = h
rethrow-none key (some (incomplete_key k)) h = h
rethrow-none key (some (value_error w)) h = cc
rethrow-none key (some (invalid_key_error w)) h = h
rethrow-none key (some (invalid_key_value k w)) h = h
rethrow-none key (some (bad_combination_error k)) h = h
rethrow-none key (some failed_precondition) h = h

-- Whatever a setter of one key does or throws, it leaves what is found at every other key.
set_at-others :
    (t : Tree) (dotted_key : Bytes) (fresh : Leaf) (change : TreeKey → Change) (key other : TreeKey)
    → parse_key dotted_key ≡ ok key
    → other ≢ key
    → SameLeaf key t.root (set_at t dotted_key fresh change).0.root other
unfolding set_at
set_at-others t dotted_key fresh change key other p h =
    rw (p, set_at) (lookup_rw-others key fresh (change key) false t.root key other h)

pub set_at-Stored :
    (t : Tree) (dotted_key : Bytes) (fresh : Leaf) (change : TreeKey → Change) (key : TreeKey)
    → parse_key dotted_key ≡ ok key
    → t.strict ≡ true
    → (set_at t dotted_key fresh change).1 ≡ none
    → Stored key fresh (change key) t.root key (set_at t dotted_key fresh change).0.root
unfolding set_at
set_at-Stored t dotted_key fresh change key p s h =
    rw (p, set_at)
      (lookup_rw-Stored key fresh (change key) false t.root key (
        rethrow-none key (lookup_rw key fresh (change key) false t.root key).1 (
          ap (λ b. rethrow b key (lookup_rw key fresh (change key) false t.root key).1) (sym s)
          ∙ (rw (p, set_at) at h))))

-- In a strict tree, setting a valid key from a string, when it throws nothing, makes of the leaf at the
-- key, or of a new string leaf where there was none, the leaf that its class reads from the string,
-- which a lookup of the key then finds; a lookup of any other key finds the leaf that it found before.
pub set_string_key-Stored :
    (f : Floats) (t : Tree) (dotted_key raw : Bytes) (key : TreeKey)
    → parse_key dotted_key ≡ ok key
    → t.strict ≡ true
    → (set_string_key f t dotted_key raw).1 ≡ none
    → Stored key
        (string_node none)
        (λ l. set_string f l raw)
        t.root
        key
        (set_string_key f t dotted_key raw).0.root
      × ((other : TreeKey)
          → other ≢ key
          → SameLeaf key t.root (set_string_key f t dotted_key raw).0.root other)
unfolding set_string_key
set_string_key-Stored f t dotted_key raw key p s h = (
  set_at-Stored t dotted_key (string_node none) (λ k l. set_string f l raw) key p s h,
  λ other d.
      set_at-others t dotted_key (string_node none) (λ k l. set_string f l raw) key other p d,
)

-- The leaves that hold a string: those of `dynamic_cast` to string_node.
HoldsString : Bytes → Leaf → Type 0
HoldsString s l = (l ≡ string_node (some s)) ⊎ (l ≡ user_node (some s))

leaf-found :
    (full : TreeKey) (r : Result ConfigError Node) (s : Bytes) (l : Leaf)
    → as_leaf r ≡ some l
    → HoldsString s l
    → (r >>= string_value full) ≡ ok s
unfolding HoldsString
leaf-found full (ok (leaf k)) s l h (inl e) =
    ap (λ o. elim o [ none ↦ err (unknown_key_error full) | some k ↦ string_value full (leaf k) ])
      (h ∙ ap some e)
leaf-found full (ok (leaf k)) s l h (inr e) =
    ap (λ o. elim o [ none ↦ err (unknown_key_error full) | some k ↦ string_value full (leaf k) ])
      (h ∙ ap some e)
leaf-found full (ok (inner d cs)) s l h e = absurd cc
leaf-found full (err x) s l h e = absurd cc

leaf_or : Leaf → Result ConfigError Leaf → Leaf
leaf_or l (ok m) = m
leaf_or l (err e) = l

set_user-value : (s : Bytes) (l : Leaf) → set_user s ≡ ok l → l ≡ user_node (some s)
unfolding set_user leaf_or
set_user-value s l h = elim (Bool-cases (is_valid_user s)) [
  | inl e ↦ sym (ap (leaf_or l) (sym (if_true (is_valid_user s) _ _ e) ∙ h))
  | inr e ↦ absurd (let clash = sym (if_false (is_valid_user s) _ _ e) ∙ h in cc)
]

set_string_node-value :
    (s : Bytes) (key : TreeKey) (old l : Leaf) → set_string_node s key old ≡ ok l → HoldsString s l
unfolding HoldsString leaf_or
set_string_node-value s key (string_node v) l h = inl (sym (ap (leaf_or l) h))
set_string_node-value s key (user_node v) l h = inr (set_user-value s l h)
set_string_node-value s key (bool_node v) l h = absurd cc
set_string_node-value s key (int_node v) l h = absurd cc
set_string_node-value s key (positive_int_node v) l h = absurd cc
set_string_node-value s key (strings_set_node v) l h = absurd cc
set_string_node-value s key (bytes_node v) l h = absurd cc
set_string_node-value s key (delta_node v) l h = absurd cc
set_string_node-value s key (paths_set_node v) l h = absurd cc

never_set {ℓ} :
    {P : Type ℓ} (t : Tree) (dotted_key value : Bytes) (e : ConfigError)
    → parse_key dotted_key ≡ err e
    → (set_key t dotted_key value).1 ≡ none
    → P
unfolding set_key set_at
never_set t dotted_key value e p h = cc (rw (p, set_at) at h)

-- In a strict tree, the lookup of a string key gives the value that was set there, when the setter
-- threw nothing.
pub lookup_string_node-set_key :
    (t : Tree) (dotted_key value : Bytes)
    → t.strict ≡ true
    → (set_key t dotted_key value).1 ≡ none
    → lookup_string_node (set_key t dotted_key value).0 dotted_key ≡ ok value
unfolding set_key lookup_string_node
lookup_string_node-set_key t dotted_key value s h = elim (Result-cases (parse_key dotted_key)) [
  | inl (e, p) ↦ never_set t dotted_key value e p h
  | inr (key, p) ↦
      let (old, l, w, c, k) =
        set_at-Stored t dotted_key (string_node none) (set_string_node value) key p s h in
      rw p (leaf-found key _ value l k (set_string_node-value value key old l c))
]
