-- ===== src/Formatter/Chain.antt =====
-- That a chain of arguments is formatted as the reference definition says.
use kyua.Prelude.{
  ℕ, ◌+◌, ◌<◌, ◌≡◌, inl, inr, refl, sym, ap, ap₂, ◌∙◌, true, false, List, [], ◌∷◌, ◌++◌, arith,
  ◌==◌, ==_iff, if_false, length, drop, length-append, append_assoc, take-append,
}
use kyua.Prelude.Bytes.{Bytes, substr}
use kyua.Prelude.Results.{Result, Result-cases, ok, err, ◌>>=◌}
use kyua.Formatter.{
  FormatError, bad_format_error, extra_args_error, Stream, plain_stream, new_ostringstream, init,
  formatter, replace, put_argument, put_all, format_all,
}
use kyua.Formatter.Render.{Scanned, only_text, a_hole, malformed, scan}
use kyua.Formatter.Init.{behind, init-stage, stage}

-- The reference definition: the text, with each placeholder replaced by what its argument writes to a
-- stream of its settings. An argument is not looked into.
abbrev pub render : Bytes → Scanned → List (Stream → Bytes) → Result FormatError Bytes
render format (malformed m) shows = err (bad_format_error format m)
render format (only_text t) [] = ok t
render format (only_text t) (show ∷ shows) = err (extra_args_error format (show plain_stream))
render format (a_hole t p r) [] = new_ostringstream (b'%' ∷ p) >>= λ o. ok (t ++ (b'%' ∷ p ++ r))
render format (a_hole t p r) (show ∷ shows) = new_ostringstream (b'%' ∷ p) >>= λ o.
    render format (scan r) shows >>= λ rest. ok (t ++ (show o ++ rest))

abbrev behind_done : Bytes → Result FormatError Bytes → Result FormatError Bytes
behind_done done r = r >>= λ rest. ok (done ++ rest)

eq_self : (n : ℕ) → (n == n) ≡ true
eq_self n = (==_iff n n).1 refl

not_self : (n m : ℕ) → n < m → (n == m) ≡ false
not_self n m h = ground arith

behind_done-append :
    (done t a : Bytes) (x : Result FormatError Bytes)
    → behind_done ((done ++ t) ++ a) x ≡ behind_done done (x >>= λ rest. ok (t ++ (a ++ rest)))
behind_done-append done t a (ok x) =
    ap ok (append_assoc (done ++ t) a x ∙ append_assoc done t (a ++ x))
behind_done-append done t a (err e) = refl

behind_nothing : (x : Result FormatError Bytes) → behind_done [] x ≡ x
behind_nothing (ok x) = refl
behind_nothing (err e) = refl

-- The text around the placeholder, with the argument in its place.
replaced :
    (a p r s : Bytes)
    → substr (a ++ (p ++ r)) 0 (length a) ++ (s ++ drop (length a + length p) (a ++ (p ++ r)))
      ≡ (a ++ s) ++ r
replaced a p r s =
    ap₂ (λ x y. x ++ (s ++ y)) (take-append a (p ++ r)) (behind a p r) ∙ sym (append_assoc a s r)

put_argument-hole :
    (format done t p r : Bytes) (o : Stream) (show : Stream → Bytes)
    → put_argument
        (record {
          format = format;
          expansion = done ++ (t ++ (b'%' ∷ p ++ r));
          placeholder_pos = length (done ++ t);
          placeholder = b'%' ∷ p;
          oss = o;
        })
        show
      ≡ stage format ((done ++ t) ++ show o) (scan r)
unfolding put_argument replace
put_argument-hole format done t p r o show =
    let e = append_assoc done t (b'%' ∷ p ++ r) in
    if_false (length (done ++ t) == length (done ++ (t ++ (b'%' ∷ p ++ r)))) _ _ (
      not_self _ _ (
        omega (
          arith,
          length-append done t,
          length-append done (t ++ (b'%' ∷ p ++ r)),
          length-append t (b'%' ∷ p ++ r),
        )))
    ∙ ap₂ (init format)
        (ap
            (λ x.
              substr x 0 (length (done ++ t))
              ++ (show o ++ drop (length (done ++ t) + length (b'%' ∷ p)) x))
            (sym e)
          ∙ replaced (done ++ t) (b'%' ∷ p) r (show o))
        (sym (length-append (done ++ t) (show o)))
    ∙ init-stage format ((done ++ t) ++ show o) r

put_all-stage :
    (format done : Bytes) (x : Scanned) (shows : List (Stream → Bytes))
    → (stage format done x >>= put_all shows) ≡ behind_done done (render format x shows)
unfolding put_argument replace
put_all-stage format done (malformed m) shows = refl
put_all-stage format done (only_text t) [] = refl
put_all-stage format done (only_text t) (show ∷ shows) =
    rw (eq_self (length (done ++ t)), put_argument, replace) refl
put_all-stage format done (a_hole t p r) [] = elim (Result-cases (new_ostringstream (b'%' ∷ p))) [
  | inl (e, k) ↦ rw k refl
  | inr (o, k) ↦ rw k refl
]
put_all-stage format done (a_hole t p r) (show ∷ shows) =
    elim (Result-cases (new_ostringstream (b'%' ∷ p))) [
      | inl (e, k) ↦ rw k refl
      | inr (o, k) ↦ rw k (
          ap (λ x. x >>= put_all shows) (put_argument-hole format done t p r o show)
          ∙ put_all-stage format ((done ++ t) ++ show o) (scan r) shows
          ∙ behind_done-append done t (show o) (render format (scan r) shows))
    ]

-- Formatting a string with any number of arguments gives what the reference definition does, errors
-- included.
pub format_all-render :
    (format : Bytes) (shows : List (Stream → Bytes))
    → format_all format shows ≡ render format (scan format) shows
unfolding format_all formatter
format_all-render format shows =
    ap (λ x. x >>= put_all shows) (init-stage format [] format)
    ∙ put_all-stage format [] (scan format) shows
    ∙ behind_nothing (render format (scan format) shows)
