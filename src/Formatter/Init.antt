-- ===== src/Formatter/Init.antt =====
-- That `init` finds the placeholder of the reference definition.
use kyua.Prelude.{
  ℕ, suc, ◌+◌, ◌-◌, subst, ◌≡◌, inl, inr, refl, sym, ap, ap₂, ◌∙◌, true, false, List, [], ◌∷◌, ◌++◌,
  arith, length, take, drop, length-append, drop-drop, append-nil, drop-append, take-append,
}
use kyua.Prelude.Bytes.{Bytes, substr}
use kyua.Prelude.Results.{Result, ok, err, ◌>>=◌}
use kyua.Formatter.{
  FormatError, bad_format_error, byte_is, placeholder_at, find_next_placeholder, plain_stream,
  new_ostringstream, strip_double_percent, Formatter, init,
}
use kyua.Formatter.Stages.{
  Token, raw, text, is_proper, pairs, length-text, IsTail, tail_at, skip_percents-raw,
  strip_loop-raw,
}
use kyua.Formatter.Render.{
  Scanned, only_text, a_hole, malformed, before, at_percent, scan, before_all, view, scan_tail,
  placed, placeholder_at-placed, at_percent-cases,
}

-- A formatter with the settings of its placeholder.
abbrev pub made : Bytes → Bytes → ℕ → Bytes → Result FormatError Formatter
made format e pos p = new_ostringstream p >>= λ o.
    ok (record { format = format; expansion = e; placeholder_pos = pos; placeholder = p; oss = o })

-- The formatter at a text of which `done` is behind it.
abbrev pub stage : Bytes → Bytes → Scanned → Result FormatError Formatter
stage format done (only_text t) = ok (record {
  format = format;
  expansion = done ++ t;
  placeholder_pos = length (done ++ t);
  placeholder = [];
  oss = plain_stream;
})
stage format done (a_hole t p r) =
    made format (done ++ (t ++ (b'%' ∷ p ++ r))) (length (done ++ t)) (b'%' ∷ p)
stage format done (malformed m) = err (bad_format_error format m)

pub behind : (a b s : Bytes) → drop (length a + length b) (a ++ (b ++ s)) ≡ s
behind a b s =
    sym (drop-drop (length b) (length a) _)
    ∙ ap (drop (length b)) (drop-append a (b ++ s))
    ∙ drop-append b s

pub whole : (a b : Bytes) → length (a ++ (b ++ [])) ≡ length a + length b
whole a b = omega (arith, length-append a (b ++ []), length-append b [])

pub strip-raw :
    (done u : Bytes) (ts : List Token)
    → is_proper ts ≡ true
    → strip_double_percent (done ++ (raw ts ++ u)) (length done) (length done + length (raw ts))
      ≡ (done ++ (text ts ++ u), pairs ts)
unfolding strip_double_percent
strip-raw done u ts v =
    let from : drop (length done) (done ++ (raw ts ++ u)) ≡ raw ts ++ u =
      drop-append done (raw ts ++ u) in
    let span : length done + length (raw ts) - length done ≡ length (raw ts) = omega arith in
    let part : substr (done ++ (raw ts ++ u)) (length done)
          (length done + length (raw ts) - length done)
        ≡ raw ts =
      ap₂ take span from ∙ take-append (raw ts) u in
    let rest : drop (length done + length (raw ts)) (done ++ (raw ts ++ u)) ≡ u =
      behind done (raw ts) u in
    let front : take (length done) (done ++ (raw ts ++ u)) ≡ done =
      take-append done (raw ts ++ u) in
    rw
      (
        part,
        rest,
        front,
        strip_loop-raw (suc (length (raw ts))) 0 0 (raw ts) ts refl v (omega arith) (omega arith),
      )
      (ap (λ n. (done ++ (text ts ++ u), n)) (omega arith))

pub find_next-tail :
    (format done : Bytes) (ts : List Token) (u : Bytes)
    → is_proper ts ≡ true
    → IsTail u
    → find_next_placeholder format (done ++ (raw ts ++ u)) (length done)
      ≡ placeholder_at format (done ++ (raw ts ++ u)) (tail_at u (length done + length (raw ts)))
unfolding find_next_placeholder
find_next-tail format done ts u v t = ap (placeholder_at format (done ++ (raw ts ++ u))) (
    skip_percents-raw _ (length done) (done ++ (raw ts ++ u)) ts u (drop-append done _) v t
      (omega (arith, length-append done (raw ts ++ u))))

pub before_all-text : (t x : Bytes) → before_all t (only_text x) ≡ only_text (t ++ x)
before_all-text [] x = refl
before_all-text (c ∷ t) x = ap (before c) (before_all-text t x)

pub before_all-hole : (t x p r : Bytes) → before_all t (a_hole x p r) ≡ a_hole (t ++ x) p r
before_all-hole [] x p r = refl
before_all-hole (c ∷ t) x p r = ap (before c) (before_all-hole t x p r)

pub before_all-malformed : (t m : Bytes) → before_all t (malformed m) ≡ malformed m
before_all-malformed [] m = refl
before_all-malformed (c ∷ t) m = ap (before c) (before_all-malformed t m)

-- What `init` does behind `find_next_placeholder`.
abbrev pub init_at : Bytes → Bytes → ℕ → ℕ × Bytes → Result FormatError Formatter
init_at format e last_pos (position, placeholder) = new_ostringstream placeholder >>= λ oss.
    let (stripped, removed) = strip_double_percent e last_pos position in
    ok (record {
      format = format;
      expansion = stripped;
      placeholder_pos = position - removed;
      placeholder = placeholder;
      oss = oss;
    })

pub init_at-raw :
    (format done u p : Bytes) (ts : List Token)
    → is_proper ts ≡ true
    → init_at format (done ++ (raw ts ++ u)) (length done) (length done + length (raw ts), p)
      ≡ made format (done ++ (text ts ++ u)) (length (done ++ text ts)) p
init_at-raw format done u p ts v =
    let position : length done + length (raw ts) - pairs ts ≡ length (done ++ text ts) =
      omega (arith, length-append done (text ts), length-text ts) in
    rw (strip-raw done u ts v, position) refl

pub init-found :
    (format e : Bytes) (last_pos position : ℕ) (p : Bytes)
    → find_next_placeholder format e last_pos ≡ ok (position, p)
    → init format e last_pos ≡ init_at format e last_pos (position, p)
unfolding init
init-found format e last_pos position p h = rw (h, init) refl

pub init-failed :
    (format e : Bytes) (last_pos : ℕ) (w : FormatError)
    → find_next_placeholder format e last_pos ≡ err w
    → init format e last_pos ≡ err w
unfolding init
init-failed format e last_pos w h = rw (h, init) refl

pub init-end :
    (format done : Bytes) (ts : List Token)
    → is_proper ts ≡ true
    → init format (done ++ (raw ts ++ [])) (length done)
      ≡ stage format done (before_all (text ts) (only_text []))
unfolding new_ostringstream
init-end format done ts v =
    init-found format _ (length done) (length done + length (raw ts)) []
      (find_next-tail format done ts [] v tt ∙ ap (λ n. ok (n, [])) (whole done (raw ts)))
    ∙ init_at-raw format done [] [] ts v
    ∙ rw (before_all-text (text ts) [], append-nil (text ts)) refl

-- The placeholder at the tail.
pub find_next-percent :
    (format done : Bytes) (ts : List Token) (u : Bytes)
    → is_proper ts ≡ true
    → byte_is b'%' u ≡ false
    → find_next_placeholder format (done ++ (raw ts ++ (b'%' ∷ u))) (length done)
      ≡ placed format (length done + length (raw ts)) (at_percent u)
find_next-percent format done ts u v k =
    find_next-tail format done ts (b'%' ∷ u) v (refl, k)
    ∙ placeholder_at-placed format _ (length done + length (raw ts)) u
        (behind done (raw ts) (b'%' ∷ u))

pub init-percent :
    (format done : Bytes) (ts : List Token) (u : Bytes)
    → is_proper ts ≡ true
    → byte_is b'%' u ≡ false
    → init format (done ++ (raw ts ++ (b'%' ∷ u))) (length done)
      ≡ stage format done (before_all (text ts) (at_percent u))
init-percent format done ts u v k = elim (at_percent-cases u) [
  | inl (m, e) ↦
      init-failed format _ (length done) _
        (find_next-percent format done ts u v k ∙ ap (placed format _) e)
      ∙ sym
          (ap (stage format done) (ap (before_all (text ts)) e ∙ before_all-malformed (text ts) m))
  | inr (p, r, e, w) ↦
      init-found format _ (length done) (length done + length (raw ts)) (b'%' ∷ p)
        (find_next-percent format done ts u v k ∙ ap (placed format _) e)
      ∙ init_at-raw format done (b'%' ∷ u) (b'%' ∷ p) ts v
      ∙ ap
          (λ x. made format (done ++ (text ts ++ (b'%' ∷ x))) (length (done ++ text ts)) (b'%' ∷ p))
          w
      ∙ sym (
          ap (stage format done) (
            ap (before_all (text ts)) e
            ∙ before_all-hole (text ts) [] p r
            ∙ ap (λ x. a_hole x p r) (append-nil (text ts))))
]

pub init-tail :
    (format done : Bytes) (ts : List Token) (u : Bytes)
    → is_proper ts ≡ true
    → IsTail u
    → init format (done ++ (raw ts ++ u)) (length done)
      ≡ stage format done (before_all (text ts) (scan u))
unfolding scan
init-tail format done ts [] v t = init-end format done ts v
init-tail format done ts (c ∷ u) v (q, k) =
    subst
      (λ x.
        init format (done ++ (raw ts ++ (x ∷ u))) (length done)
        ≡ stage format done (before_all (text ts) (scan (x ∷ u))))
      (sym q)
      (init-percent format done ts u v k
        ∙ sym (ap (λ x. stage format done (before_all (text ts) x)) (scan_tail u k)))

-- `init` at the text behind `done`.
pub init-stage :
    (format done s : Bytes) → init format (done ++ s) (length done) ≡ stage format done (scan s)
init-stage format done s =
    let (ts, u, e, v, t, w) = view s in
    ap (λ x. init format (done ++ x) (length done)) e
    ∙ init-tail format done ts u v t
    ∙ sym (ap (stage format done) w)
