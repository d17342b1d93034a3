-- ===== src/Config/Combine/Clashes.antt =====
-- utils/config (nodes.cpp, tree.cpp): when two trees do not combine.
use kyua.Prelude.{
  ℕ, zero, suc, ◌≤◌, ◌≡◌, ◌⊎◌, inl, inr, refl, sym, ap, subst, ap₂, ◌∙◌, Bool, true, false, Option,
  none, some, [], ◌∷◌, ◌++◌, if◌then◌else◌, if_true, if_false, Bool-cases, arith, append_assoc,
  append-nil,
}
use kyua.Prelude.Bytes.{Bytes, str_eq, str_eq_self, str_eq_iff}
use kyua.Prelude.Results.{Result, ok, err, ◌>>=◌}
use kyua.Config.{
  TreeKey, ConfigError, bad_combination_error, Node, leaf, inner, Children, empty, child,
  find_child, put_child,
}
use kyua.Config.Tree.{Tree}
use kyua.Config.Tree.Others.{find-put}
use kyua.Config.Combine.{
  Combine, combine_children_into, combine_into, combine_node, height, height_of_children,
  combine_trees,
}
use kyua.Config.Combine.Passes.{>>=-ok, place, place-cases, pass-cons, pass-new}

-- Whether a key leads to a leaf in one tree and to an inner node in the other.
abbrev pub clash : Node → Node → TreeKey → Bool
clash (leaf l) (leaf m) ms = false
clash (leaf l) (inner d ds) [] = true
clash (leaf l) (inner d ds) (n ∷ ns) = false
clash (inner d cs) (leaf m) [] = true
clash (inner d cs) (leaf m) (n ∷ ns) = false
clash (inner d cs) (inner e ds) [] = false
clash (inner d cs) (inner e ds) (n ∷ ns) = elim (find_child cs n) [
  | none ↦ false
  | some a ↦ elim (find_child ds n) [ none ↦ false | some b ↦ clash a b ns ]
]

option_height : Option Node → ℕ
option_height none = 0
option_height (some a) = height a

find_child-option_height :
    (cs : Children) (n : Bytes) → option_height (find_child cs n) ≤ height_of_children cs
unfolding find_child height option_height
find_child-option_height empty n = omega arith
find_child-option_height (child m node cs) n = ground (arith, find_child-option_height cs n)

error_or {ℓ} : {A : Type ℓ} → ConfigError → Result ConfigError A → ConfigError
error_or x (ok a) = x
error_or x (err e) = e

>>=-err {ℓ κ} :
    {A : Type ℓ} {B : Type κ} (r : Result ConfigError A) (k : A → Result ConfigError B)
    (x : ConfigError)
    → (r >>= k) ≡ err x
    → (r ≡ err x) ⊎ ((a : A) × (r ≡ ok a) × (k a ≡ err x))
unfolding error_or
>>=-err (ok a) k x h = inr (a, refl, h)
>>=-err (err e) k x h = inl (ap err (ap (error_or x) h))

-- A name that both maps have and the node lacks, whose nodes do not combine.
Fails : Combine → TreeKey → Children → Children → Children → ConfigError → Type 0
Fails f key c1 c2 node x =
    (m : Bytes) × (a : Node) × (b : Node) × (find_child node m ≡ none)
    × (find_child c1 m ≡ some a)
    × (find_child c2 m ≡ some b)
    × (f (key ++ (m ∷ [])) a b ≡ err x)

place-err :
    (f : Combine) (key : TreeKey) (node : Children) (n : Bytes) (new : Node) (q o : Option Node)
    (x : ConfigError)
    → place f key node n new q o ≡ err x
    → (b : Node) × (q ≡ none) × (o ≡ some b) × (f (key ++ (n ∷ [])) new b ≡ err x)
place-err f key node n new (some old) o x h = absurd cc
place-err f key node n new none none x h = absurd cc
place-err f key node n new none (some b) x h =
    elim (>>=-err (f (key ++ (n ∷ [])) new b) (λ r. ok (put_child node n r)) x h) [
      | inl e ↦ (b, refl, refl, e)
      | inr (r, e, never) ↦ absurd cc
    ]

find-first : (n : Bytes) (a : Node) (cs : Children) → find_child (child n a cs) n ≡ some a
unfolding find_child
find-first n a cs = if_true (str_eq n n) _ _ (str_eq_self n)

find-rest :
    (n m : Bytes) (a : Node) (cs : Children)
    → str_eq n m ≡ false
    → find_child (child n a cs) m ≡ find_child cs m
unfolding find_child
find-rest n m a cs h = if_false (str_eq n m) _ _ h

has-differs :
    (cs : Children) (n m : Bytes) (x : Node)
    → find_child cs n ≡ some x
    → find_child cs m ≡ none
    → str_eq n m ≡ false
has-differs cs n m x h k = elim (Bool-cases (str_eq n m)) [
  | inl e ↦
      let same : find_child cs n ≡ find_child cs m = ap (find_child cs) ((str_eq_iff n m).0 e) in
      let clash : none ≡ some x = sym k ∙ sym same ∙ h in absurd cc
  | inr e ↦ e
]

-- A name that the node lacks after a placing is not the name placed, and was lacking before.
lacks-place :
    (f : Combine) (key : TreeKey) (node made : Children) (n m : Bytes) (new : Node)
    (o : Option Node)
    → place f key node n new (find_child node n) o ≡ ok made
    → find_child made m ≡ none
    → (str_eq n m ≡ false) × (find_child node m ≡ none)
lacks-place f key node made n m new o h k =
    elim (place-cases f key node n new (find_child node n) o made h) [
      | inl (old, e, same) ↦
          let l : find_child node m ≡ none = sym (ap (λ c. find_child c m) same) ∙ k in
          (has-differs node n m old e l, l)
      | inr (e, r, how, same) ↦
          let l : (if str_eq n m then some r else find_child node m) ≡ none =
            sym (find-put node n m r) ∙ sym (ap (λ c. find_child c m) same) ∙ k in
          elim (Bool-cases (str_eq n m)) [
            | inl t ↦ let c : some r ≡ none = sym (if_true (str_eq n m) _ _ t) ∙ l in absurd cc
            | inr d ↦ (d, sym (if_false (str_eq n m) _ _ d) ∙ l)
          ]
    ]

pass-err :
    (f : Combine) (key : TreeKey) (c1 c2 node : Children) (x : ConfigError)
    → combine_children_into f key c1 c2 node ≡ err x
    → Fails f key c1 c2 node x
unfolding combine_children_into Fails
pass-err f key empty c2 node x h = absurd cc
pass-err f key (child n new c1) c2 node x h =
    elim (>>=-err (place f key node n new (find_child node n) (find_child c2 n)) _ x
      (sym (pass-cons f key n new c1 c2 node) ∙ h)) [
        | inl e ↦
            let found = place-err f key node n new (find_child node n) (find_child c2 n) x e in
            (n, new, found.0, found.1, find-first n new c1, found.2, found.3)
        | inr (made, e, rest) ↦
            let later = pass-err f key c1 c2 made x rest in
            let before = lacks-place f key node made n later.0 new (find_child c2 n) e later.3 in
            (
              later.0,
              later.1,
              later.2,
              before.1,
              find-rest n later.0 new c1 before.0 ∙ later.4,
              later.5,
              later.6,
            )
      ]

combine_into-err :
    (f : Combine) (key : TreeKey) (cs ds : Children) (x : ConfigError)
    → combine_into f key cs ds ≡ err x
    → (m : Bytes) × (a : Node) × (b : Node) × (find_child cs m ≡ some a)
      × (find_child ds m ≡ some b)
      × (f (key ++ (m ∷ [])) a b ≡ err x)
unfolding combine_into Fails find_child
combine_into-err f key cs ds x h = elim (>>=-err (combine_children_into f key cs ds empty) _ x h) [
  | inl e ↦
      let found = pass-err f key cs ds empty x e in
      (found.0, found.1, found.2, found.4, found.5, found.6)
  | inr (first, e, rest) ↦
      let found = pass-err f key ds cs first x rest in
      let new = pass-new f key cs ds empty first found.0 found.2 e (refl {a = none}) found.5 in
      let clash : none ≡ some new.0 = sym found.3 ∙ new.2 in absurd cc
]

deeper_clash :
    (d e : Bool) (cs ds : Children) (n : Bytes) (a b : Node) (ms : TreeKey)
    → find_child cs n ≡ some a
    → find_child ds n ≡ some b
    → clash a b ms ≡ true
    → clash (inner d cs) (inner e ds) (n ∷ ms) ≡ true
deeper_clash d e cs ds n a b ms h k c =
    ap₂ (λ o p. elim o [ none ↦ false | some x ↦ elim p [ none ↦ false | some y ↦ clash x y ms ] ])
      h k
    ∙ c

-- A combination with enough fuel for the levels of the base fails only with
-- `bad_combination_error`, at a key where one tree has a leaf and the other an inner node.
combine_node-err :
    (fuel : ℕ) (key : TreeKey) (a b : Node) (x : ConfigError)
    → height a ≤ fuel
    → combine_node fuel key a b ≡ err x
    → (ms : TreeKey) × (x ≡ bad_combination_error (key ++ ms)) × (clash a b ms ≡ true)
unfolding combine_node height option_height error_or
combine_node-err zero key (leaf l) b x k h = absurd (omega (arith, k))
combine_node-err zero key (inner d cs) b x k h = absurd (omega (arith, k))
combine_node-err (suc fuel) key (leaf l) (leaf m) x k h = absurd cc
combine_node-err (suc fuel) key (leaf l) (inner e ds) x k h =
    ([], sym (ap (error_or x) h) ∙ ap bad_combination_error (sym (append-nil key)), refl)
combine_node-err (suc fuel) key (inner d cs) (leaf m) x k h =
    ([], sym (ap (error_or x) h) ∙ ap bad_combination_error (sym (append-nil key)), refl)
combine_node-err (suc fuel) key (inner d cs) (inner e ds) x k h =
    elim (>>=-err (combine_into (combine_node fuel) key cs ds) _ x h) [
      | inl failed ↦
          let at = combine_into-err (combine_node fuel) key cs ds x failed in
          let low : height at.1 ≤ height_of_children cs =
            subst (λ o. option_height o ≤ height_of_children cs) at.3
              (find_child-option_height cs at.0) in
          let deeper =
            combine_node-err fuel (key ++ (at.0 ∷ [])) at.1 at.2 x (omega (arith, low, k)) at.5 in
          (
            at.0 ∷ deeper.0,
            deeper.1 ∙ ap bad_combination_error (append_assoc key (at.0 ∷ []) deeper.0),
            deeper_clash d e cs ds at.0 at.1 at.2 deeper.0 at.3 at.4 deeper.2,
          )
      | inr (all, e, never) ↦ absurd cc
    ]

-- Two trees fail to combine only with `bad_combination_error`, at a key where one of them has a
-- leaf and the other an inner node.
pub combine_trees-err :
    (t overrides : Tree) (x : ConfigError)
    → combine_trees t overrides ≡ err x
    → (key : TreeKey) × (x ≡ bad_combination_error key)
      × (clash (inner false t.root) (inner false overrides.root) key ≡ true)
unfolding combine_trees combine_node height
combine_trees-err t overrides x h =
    elim (>>=-err
      (combine_node (height (inner false t.root)) [] (inner false t.root)
        (inner false overrides.root))
      _ x h) [
        | inl e ↦
            combine_node-err (height (inner false t.root)) [] (inner false t.root)
              (inner false overrides.root) x (omega arith) e
        | inr (leaf l, e, never) ↦ absurd (
            let inverted =
              >>=-ok
                (combine_into (combine_node (height_of_children t.root)) [] t.root overrides.root) _
                (leaf l) e in
            let shape = inverted.2 in cc)
        | inr (inner d cs, e, never) ↦ absurd cc
      ]
