-- ===== src/Config/Combine/Passes.antt =====
-- utils/config (nodes.cpp): what one pass of `combine_children_into` leaves in a node.
use kyua.Prelude.{
  ◌≡◌, ◌⊎◌, inl, inr, refl, sym, ap, subst, ◌∙◌, false, Option, none, some, [], ◌∷◌, ◌++◌, if_true,
  if_false, Bool-cases, arith,
}
use kyua.Prelude.Bytes.{Bytes, str_eq, str_eq_iff, str_eq_self}
use kyua.Prelude.Results.{Result, ok, err, ◌>>=◌}
use kyua.Config.{TreeKey, ConfigError, Node, Children, empty, child, find_child, put_child}
use kyua.Config.Tree.Others.{find-put}
use kyua.Config.Combine.{Combine, copy_node, combine_children_into}

-- One name of the pass: the children it leaves, from what the name has in the node and in the
-- second map.
abbrev pub place :
    Combine
    → TreeKey
    → Children
    → Bytes
    → Node
    → Option Node
    → Option Node
    → Result ConfigError Children
place combine key node name new (some old) o = ok node
place combine key node name new none none = ok (put_child node name (copy_node new))
place combine key node name new none (some other) =
    combine (key ++ (name ∷ [])) new other >>= λ made. ok (put_child node name made)

pub pass-cons :
    (f : Combine) (key : TreeKey) (name : Bytes) (new : Node) (c1 c2 node : Children)
    → combine_children_into f key (child name new c1) c2 node ≡ (
        place f key node name new (find_child node name) (find_child c2 name) >>= λ made.
        combine_children_into f key c1 c2 made)
unfolding combine_children_into
pass-cons f key name new c1 c2 node = ground arith

pub >>=-ok {ℓ κ} :
    {A : Type ℓ} {B : Type κ} (r : Result ConfigError A) (k : A → Result ConfigError B) (b : B)
    → (r >>= k) ≡ ok b
    → (a : A) × (r ≡ ok a) × (k a ≡ ok b)
>>=-ok (ok a) k b h = (a, refl, h)
>>=-ok (err e) k b h = absurd cc

-- What a name has in the second map decides how its node is made.
abbrev pub Made : Combine → TreeKey → Bytes → Node → Option Node → Node → Type 0
Made f key name new none r = r ≡ copy_node new
Made f key name new (some other) r = f (key ++ (name ∷ [])) new other ≡ ok r

ok_or : Children → Result ConfigError Children → Children
ok_or c (ok d) = d
ok_or c (err e) = c

ok-inj : (c d : Children) → ◌≡◌ {A = Result ConfigError Children} (ok c) (ok d) → c ≡ d
unfolding ok_or
ok-inj c d h = ap (ok_or c) h

pub names-differ :
    (cs : Children) (n m : Bytes) (x : Node)
    → find_child cs n ≡ none
    → find_child cs m ≡ some x
    → str_eq n m ≡ false
names-differ cs n m x h k = elim (Bool-cases (str_eq n m)) [
  | inl e ↦ absurd (
      let same : n ≡ m = (str_eq_iff n m).0 e in
      let clash : none ≡ some x = sym h ∙ ap (find_child cs) same ∙ k in cc)
  | inr e ↦ e
]

pub place-cases :
    (f : Combine) (key : TreeKey) (node : Children) (n : Bytes) (new : Node) (q o : Option Node)
    (made : Children)
    → place f key node n new q o ≡ ok made
    → ((old : Node) × (q ≡ some old) × (made ≡ node))
      ⊎ ((q ≡ none) × (r : Node) × Made f key n new o r × (made ≡ put_child node n r))
place-cases f key node n new (some old) o made h = inl (old, refl, sym (ok-inj node made h))
place-cases f key node n new none none made h =
    inr (refl, copy_node new, refl, sym (ok-inj _ made h))
place-cases f key node n new none (some other) made h =
    let inverted = >>=-ok (f (key ++ (n ∷ [])) new other) (λ r. ok (put_child node n r)) made h in
    inr (refl, inverted.0, inverted.1, sym (ok-inj _ made inverted.2))

-- The pass keeps what the node has.
pub pass-old :
    (f : Combine) (key : TreeKey) (c1 c2 node out : Children) (m : Bytes) (x : Node)
    → combine_children_into f key c1 c2 node ≡ ok out
    → find_child node m ≡ some x
    → find_child out m ≡ some x
unfolding combine_children_into
pass-old f key empty c2 node out m x h k = ap (λ c. find_child c m) (sym (ok-inj node out h)) ∙ k
pass-old f key (child n new c1) c2 node out m x h k =
    let inverted =
      >>=-ok (place f key node n new (find_child node n) (find_child c2 n)) _ out
        (sym (pass-cons f key n new c1 c2 node) ∙ h) in
    pass-old f key c1 c2 inverted.0 out m x inverted.2
      (elim (place-cases f key node n new _ _ inverted.0 inverted.1) [
        | inl (old, e, same) ↦ ap (λ c. find_child c m) same ∙ k
        | inr (e, r, made, same) ↦
            ap (λ c. find_child c m) same
            ∙ find-put node n m r
            ∙ if_false (str_eq n m) _ _ (names-differ node n m x e k)
            ∙ k
      ])

pub unplaced :
    (f : Combine) (key : TreeKey) (node made : Children) (n m : Bytes) (new : Node)
    (o : Option Node)
    → place f key node n new (find_child node n) o ≡ ok made
    → str_eq n m ≡ false
    → find_child node m ≡ none
    → find_child made m ≡ none
unplaced f key node made n m new o h d k =
    elim (place-cases f key node n new (find_child node n) o made h) [
      | inl (old, e, same) ↦ ap (λ c. find_child c m) same ∙ k
      | inr (e, r, how, same) ↦
          ap (λ c. find_child c m) same ∙ find-put node n m r ∙ if_false (str_eq n m) _ _ d ∙ k
    ]

-- The pass adds only names of the first map.
pub pass-none :
    (f : Combine) (key : TreeKey) (c1 c2 node out : Children) (m : Bytes)
    → combine_children_into f key c1 c2 node ≡ ok out
    → find_child node m ≡ none
    → find_child c1 m ≡ none
    → find_child out m ≡ none
unfolding combine_children_into find_child
pass-none f key empty c2 node out m h k l = ap (λ c. find_child c m) (sym (ok-inj node out h)) ∙ k
pass-none f key (child n new c1) c2 node out m h k l =
    let inverted =
      >>=-ok (place f key node n new (find_child node n) (find_child c2 n)) _ out
        (sym (pass-cons f key n new c1 c2 node) ∙ h) in
    let other : str_eq n m ≡ false = ground arith in
    pass-none f key c1 c2 inverted.0 out m inverted.2
      (unplaced f key node inverted.0 n m new (find_child c2 n) inverted.1 other k) (ground arith)

some_or : Node → Option Node → Node
some_or a none = a
some_or a (some b) = b

pub placed :
    (f : Combine) (key : TreeKey) (node made : Children) (n : Bytes) (new : Node) (o : Option Node)
    → place f key node n new (find_child node n) o ≡ ok made
    → find_child node n ≡ none
    → (r : Node) × Made f key n new o r × (find_child made n ≡ some r)
placed f key node made n new o h k =
    elim (place-cases f key node n new (find_child node n) o made h) [
      | inl (old, e, same) ↦ absurd cc
      | inr (e, r, how, same) ↦ (
        r,
        how,
        ap (λ c. find_child c n) same
            ∙ find-put node n n r
            ∙ if_true (str_eq n n) _ _ (str_eq_self n),
      )
    ]

-- A name of the first map that the node lacks gets the node made for it.
pub pass-new :
    (f : Combine) (key : TreeKey) (c1 c2 node out : Children) (m : Bytes) (a : Node)
    → combine_children_into f key c1 c2 node ≡ ok out
    → find_child node m ≡ none
    → find_child c1 m ≡ some a
    → (r : Node) × Made f key m a (find_child c2 m) r × (find_child out m ≡ some r)
unfolding combine_children_into find_child some_or
pass-new f key empty c2 node out m a h k l = absurd cc
pass-new f key (child n new c1) c2 node out m a h k l =
    let inverted =
      >>=-ok (place f key node n new (find_child node n) (find_child c2 n)) _ out
        (sym (pass-cons f key n new c1 c2 node) ∙ h) in
    elim (Bool-cases (str_eq n m)) [
      | inl e ↦
          let same : n ≡ m = (str_eq_iff n m).0 e in
          let node_same : new ≡ a = ap (some_or new) (sym (if_true (str_eq n m) _ _ e) ∙ l) in
          let first =
            placed f key node inverted.0 n new (find_child c2 n) inverted.1
              (ap (find_child node) same ∙ k) in
          (
            first.0,
            subst (λ x. Made f key m x (find_child c2 m) first.0) node_same
                (subst (λ x. Made f key x new (find_child c2 x) first.0) same first.1),
            pass-old f key c1 c2 inverted.0 out m first.0 inverted.2
                (ap (find_child inverted.0) (sym same) ∙ first.2),
          )
      | inr d ↦
          pass-new f key c1 c2 inverted.0 out m a inverted.2
            (unplaced f key node inverted.0 n m new (find_child c2 n) inverted.1 d k)
            (sym (if_false (str_eq n m) _ _ d) ∙ l)
    ]
