-- ===== src/GoogletestResult/Verdict.antt =====
-- What `parse` makes of the lines of a Google Test program.
use kyua.Prelude.{
  ℕ, ◌≡◌, sym, ap, inl, inr, refl, Bool, true, false, Option, none, some, List, [], ◌∷◌, ◌++◌, ◌∙◌,
  arith, append_assoc, append-nil, if_false, if◌then◌else◌, all, Option-cases, Bool-cases,
}
use kyua.Prelude.Bytes.{Bytes, bytes, str_eq}
use kyua.Prelude.Results.{ok, err}
use kyua.GoogletestResult.{
  failed, skipped, successful, failed_invariant, Parsed, Patterns, IsEnding, parse,
  parse_with_reason, parse_without_reason, finish, lines, Reading, reading, read_loop, end_line,
  end_block, capture, start_block,
}
use kyua.GoogletestResult.Apply.{broken_by}
use kyua.GoogletestResult.{failed_word, ok_word, skipped_word, invalid_output_message}

-- A line in which `disabled_re` is not found.
abbrev pub is_enabled : Patterns → Bytes → Bool
is_enabled p line = elim (p.disabled_text line) [ none ↦ true | some text ↦ false ]

-- The last word of an ending sentinel in the lines, but for those that start a block.
abbrev pub last_word : Patterns → Option Bytes → List Bytes → Option Bytes
last_word p w [] = w
last_word p w (line ∷ rest) =
    last_word p (if p.starts line then w else elim (p.ending line) [ none ↦ w | some x ↦ some x ])
      rest

-- The lines behind a starting sentinel, up to the next sentinel.
abbrev pub until_sentinel : Patterns → List Bytes → Bytes
until_sentinel p [] = []
until_sentinel p (line ∷ rest) =
    if p.starts line
    then []
    else elim (p.ending line) [ none ↦ line ++ until_sentinel p rest | some x ↦ [] ]

-- What an ending sentinel leaves of a text: OK drops it.
abbrev pub left_by : Option Bytes → Bytes → Bytes
left_by none text = text
left_by (some x) text = if str_eq x (bytes "OK") then [] else text

-- The text that the lines leave: what stands behind the last starting sentinel up to the next
-- sentinel, but nothing where an OK follows that.
abbrev pub last_text : Patterns → Bytes → List Bytes → Bytes
last_text p text [] = text
last_text p text (line ∷ rest) =
    last_text p (if p.starts line then until_sentinel p rest else left_by (p.ending line) text) rest

-- What the documentation of the expression says of its group.
abbrev pub EndsWell : Patterns → Type 0
EndsWell p = (line x : Bytes) → p.ending line ≡ some x → IsEnding x

abbrev status_of : Option Bytes → Bytes
status_of none = []
status_of (some x) =
    if str_eq x (bytes "OK")
    then bytes "successful"
    else if str_eq x (bytes "FAILED")
    then bytes "failed"
    else bytes "skipped"

abbrev is_given : Option Bytes → Bool
is_given none = false
is_given (some x) = true

abbrev IsWord : Option Bytes → Type 0
IsWord none = true ≡ true
IsWord (some x) = IsEnding x

-- The words that were read so far, and what the loop keeps of them.
abbrev Keeps : Option Bytes → Reading → Type 0
Keeps w r = (r.valid_output ≡ is_given w) × (r.status ≡ status_of w) × IsWord w

capture-Keeps :
    (w : Option Bytes) (line : Bytes) (r : Reading) → Keeps w r → Keeps w (capture line r)
unfolding capture
capture-Keeps w line r (a, b, c) = elim (Bool-cases r.capture_context) [
  | inl e ↦ rw e (a, b, c)
  | inr e ↦ rw e (a, b, c)
]

end_block-Keeps :
    (x : Bytes) (r : Reading)
    → IsEnding x
    → (q : Reading) × (end_block x r ≡ some q)
      × Keeps (some x) q
      × (q.capture_context ≡ false)
      × (q.context ≡ left_by (some x) r.context)
unfolding end_block str_eq
end_block-Keeps _ r failed_word = (_, refl, (refl, refl, failed_word), refl, refl)
end_block-Keeps _ r ok_word = (_, refl, (refl, refl, ok_word), refl, refl)
end_block-Keeps _ r skipped_word = (_, refl, (refl, refl, skipped_word), refl, refl)

-- The text that the loop has, with what it will capture up to the next sentinel.
abbrev ahead : Patterns → Reading → List Bytes → Bytes
ahead p r rest = if r.capture_context then r.context ++ until_sentinel p rest else r.context

capture-ahead :
    (p : Patterns) (line : Bytes) (rest : List Bytes) (r : Reading)
    → p.starts line ≡ false
    → p.ending line ≡ none
    → ahead p (capture line r) rest ≡ ahead p r (line ∷ rest)
unfolding capture
capture-ahead p line rest r s e = elim (Bool-cases r.capture_context) [
  | inl c ↦ rw (capture, c, s, e) (append_assoc r.context line (until_sentinel p rest))
  | inr c ↦ rw (capture, c) refl
]

ahead-ended :
    (p : Patterns) (line x : Bytes) (rest : List Bytes) (r : Reading)
    → p.starts line ≡ false
    → p.ending line ≡ some x
    → ahead p r (line ∷ rest) ≡ r.context
ahead-ended p line x rest r s e = elim (Bool-cases r.capture_context) [
  | inl c ↦ rw (c, s, e) (append-nil r.context)
  | inr c ↦ rw c refl
]

ahead_nil : (p : Patterns) (r : Reading) → ahead p r [] ≡ r.context
ahead_nil p r = elim (Bool-cases r.capture_context) [
  | inl c ↦ rw c (append-nil r.context)
  | inr c ↦ rw c refl
]

capture_none : (line : Bytes) (r : Reading) → r.capture_context ≡ false → capture line r ≡ r
unfolding capture
capture_none line r c = if_false r.capture_context _ _ c

end_line-Keeps :
    (p : Patterns) (line : Bytes) (rest : List Bytes) (w : Option Bytes) (r : Reading)
    (text : Bytes)
    → EndsWell p
    → p.starts line ≡ false
    → Keeps w r
    → ahead p r (line ∷ rest) ≡ text
    → (q : Reading) × (end_line (p.ending line) line r ≡ some q)
      × Keeps (elim (p.ending line) [ none ↦ w | some x ↦ some x ]) q
      × (ahead p q rest ≡ left_by (p.ending line) text)
unfolding end_line
end_line-Keeps p line rest w r text h s k t = elim (Option-cases (p.ending line)) [
  | inl e ↦
      let same = capture-ahead p line rest r s e ∙ t in
      rw (e, end_line) (capture line r, refl, capture-Keeps w line r k, same)
  | inr (x, e) ↦
      let (q, made, kept, shut, context) = end_block-Keeps x r (h line x e) in
      let same : r.context ≡ text = sym (ahead-ended p line x rest r s e) ∙ t in
      rw (e, end_line, made)
        (
          q,
          ap some (capture_none line q shut),
          kept,
          rw shut (context ∙ ap (left_by (some x)) same),
        )
]

read_loop-Keeps :
    (p : Patterns) (rest : List Bytes) (w : Option Bytes) (r : Reading) (text : Bytes)
    → EndsWell p
    → all (is_enabled p) rest ≡ true
    → Keeps w r
    → ahead p r rest ≡ text
    → (q : Reading) × (read_loop p rest r ≡ some q)
      × Keeps (last_word p w rest) q
      × (q.context ≡ last_text p text rest)
unfolding read_loop
read_loop-Keeps p [] w r text h a k t = (r, refl, k, sym (ahead_nil p r) ∙ t)
read_loop-Keeps p (line ∷ rest) w r text h a k t =
    let both : (is_enabled p line ≡ true) × (all (is_enabled p) rest ≡ true) = ground arith in
    elim (Option-cases (p.disabled_text line)) [
      | inr (_, e) ↦ cc (rw (is_enabled, e) at both.0)
      | inl e ↦ elim (Bool-cases (p.starts line)) [
        | inl s ↦
            rw (read_loop, last_word, last_text, e, s)
              (read_loop-Keeps p rest w (start_block r) _ h (both.1) k refl)
        | inr s ↦
            let (q, made, kept, context) = end_line-Keeps p line rest w r text h s k t in
            rw (read_loop, last_word, last_text, e, s, made)
              (read_loop-Keeps p rest _ q _ h (both.1) kept context)
      ]
    ]

-- The result of a parse, by the last word of an ending sentinel and the text that the lines leave.
-- An invariant fails where FAILED comes without a text, or where a text is left behind OK.
pub data Judged : Option Bytes → Bytes → Parsed → Type 0 where
  unended : (text : Bytes) → Judged none text (ok (broken_by invalid_output_message))
  succeeded :
      Judged (some (bytes "OK")) [] (ok (record { result_type = successful; reason = none }))
  restarted : (c : ℕ) (text : Bytes) → Judged (some (bytes "OK")) (c ∷ text) (err failed_invariant)
  skipped_with :
      (c : ℕ) (text : Bytes)
      → Judged
          (some (bytes "SKIPPED"))
          (c ∷ text)
          (ok (record { result_type = skipped; reason = some (c ∷ text) }))
  skipped_bare :
      Judged
        (some (bytes "SKIPPED"))
        []
        (ok (record { result_type = skipped; reason = some (bytes "\n") }))
  failed_with :
      (c : ℕ) (text : Bytes)
      → Judged
          (some (bytes "FAILED"))
          (c ∷ text)
          (ok (record { result_type = failed; reason = some (c ∷ text) }))
  failed_bare : Judged (some (bytes "FAILED")) [] (err failed_invariant)

finish-Judged :
    (w : Option Bytes) (text : Bytes) (r : Reading)
    → Keeps w r
    → r.context ≡ text
    → Judged w text (finish r)
unfolding finish parse_with_reason parse_without_reason str_eq
finish-Judged none text r (a, b, c) t = rw a (unended text)
finish-Judged (some _) [] r (a, b, ok_word) t = rw (a, b, t) succeeded
finish-Judged (some _) (c ∷ text) r (a, b, ok_word) t = rw (a, b, t) (restarted c text)
finish-Judged (some _) [] r (a, b, failed_word) t = rw (a, b, t) failed_bare
finish-Judged (some _) (c ∷ text) r (a, b, failed_word) t = rw (a, b, t) (failed_with c text)
finish-Judged (some _) [] r (a, b, skipped_word) t = rw (a, b, t) skipped_bare
finish-Judged (some _) (c ∷ text) r (a, b, skipped_word) t = rw (a, b, t) (skipped_with c text)

-- Where no line says that tests are disabled, and the group of the ending sentinel is one of its
-- three words, the last such word and the text that the lines leave decide the result: no word
-- gives broken; OK with no text successful; SKIPPED skipped, with the text or a newline for the
-- reason; FAILED with a text failed, with the text for the reason; and an invariant of the code
-- fails exactly where FAILED has no text or OK has one.
pub parse-Judged :
    (p : Patterns) (input : Bytes)
    → EndsWell p
    → all (is_enabled p) (lines input) ≡ true
    → Judged (last_word p none (lines input)) (last_text p [] (lines input)) (parse p input)
unfolding parse
parse-Judged p input h a =
    let (q, made, kept, context) =
      read_loop-Keeps p (lines input) none reading [] h a (refl, refl, refl) refl in
    rw (made, parse) (finish-Judged _ _ q kept context)
