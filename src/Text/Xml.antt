-- ===== src/Text/Xml.antt =====
-- What `escape_xml` lets through.
use kyua.Prelude.{
  ℕ, ◌≡◌, ◌≢◌, refl, sym, Bool, true, false, not, ◌&&◌, ◌||◌, leb, [], ◌∷◌, ◌++◌, arith, ◌==◌, all,
  any, List, append_assoc,
}
use kyua.Prelude.Bytes.{Bytes, bytes}
use kyua.Prelude.Search.{starts_with}
use kyua.Prelude.Integer.{show_nat, show_nat-digits, is_digit}
use kyua.Text.{is_restricted, sign_extended, escape_byte, escape_xml}

-- Printable ASCII but for the quotes and the angle brackets.
abbrev is_printable : ℕ → Bool
is_printable c = leb b' ' c && leb c b'~' && not (c == b'"' || c == b'<' || c == b'>' || c == b'\'')

-- The bytes that XML 1.1 lets stand in the text of an element or attribute: a tab, a newline, a
-- carriage return, NEL, printable ASCII but for quotes and angle brackets, and all from 0xA0 on.
-- The zero byte, which XML does not allow, is let through like these.
unfoldable pub is_safe : ℕ → Bool
is_safe c =
    c == 0x00 || c == 0x09 || c == 0x0A || c == 0x0D || c == 0x85 || leb 0xA0 c || is_printable c

-- The names of the entities that XML predefines.
abbrev entities : List Bytes
entities = bytes "quot;" ∷ bytes "amp;" ∷ bytes "lt;" ∷ bytes "gt;" ∷ bytes "apos;" ∷ []

-- The text of an XML element or attribute: safe bytes, where an ampersand starts an entity.
unfoldable pub is_text : Bytes → Bool
unfolding is_safe starts_with
is_text [] = true
is_text (c ∷ s) = is_safe c && (not (c == b'&') || any (λ e. starts_with e s) entities) && is_text s

is_text-digits : (s t : Bytes) → all is_digit s ≡ true → is_text t ≡ true → is_text (s ++ t) ≡ true
unfolding is_text
is_text-digits [] t h k = k
is_text-digits (c ∷ s) t h k = ground (arith, is_text-digits s t)

is_text-reference :
    (n : ℕ) (t : Bytes)
    → is_text t ≡ true
    → is_text (bytes "&amp;#" ++ ((show_nat n ++ (b';' ∷ [])) ++ t)) ≡ true
unfolding is_text
is_text-reference n t h =
    rw (append_assoc (show_nat n) (b';' ∷ []) t)
      (is_text-digits (show_nat n) (b';' ∷ t) (show_nat-digits n) h)

is_text-escape_byte : (c : ℕ) (t : Bytes) → is_text t ≡ true → is_text (escape_byte c ++ t) ≡ true
unfolding escape_byte is_text
is_text-escape_byte c t h = ground (arith, is_text-reference (sign_extended c) t h)

-- Whatever the input holds, each ampersand of the output starts one of the five entities of XML,
-- and each byte is a tab, a newline, a carriage return, 0x85, printable ASCII other than a quote
-- and an angle bracket, 0xA0 or more, or zero.
pub is_text-escape_xml : (s : Bytes) → is_text (escape_xml s) ≡ true
unfolding escape_xml is_text
is_text-escape_xml [] = refl
is_text-escape_xml (c ∷ s) = is_text-escape_byte c (escape_xml s) (is_text-escape_xml s)

escape_byte-cancel :
    (c d : ℕ) (s t : Bytes)
    → is_restricted c ≡ false
    → is_restricted d ≡ false
    → escape_byte c ++ s ≡ escape_byte d ++ t
    → (c ≡ d) × (s ≡ t)
unfolding escape_byte
escape_byte-cancel c d s t h k e = ground arith

escape_byte-ne-nil : (c : ℕ) (s : Bytes) → is_restricted c ≡ false → escape_byte c ++ s ≢ []
unfolding escape_byte
escape_byte-ne-nil c s h e = ground arith

-- On texts with no restricted byte, two texts that are escaped to one are equal.
pub escape_xml-injective :
    (s t : Bytes)
    → all (λ c. not (is_restricted c)) s ≡ true
    → all (λ c. not (is_restricted c)) t ≡ true
    → escape_xml s ≡ escape_xml t
    → s ≡ t
unfolding escape_xml
escape_xml-injective [] [] h k e = refl
escape_xml-injective [] (d ∷ t) h k e =
    absurd (escape_byte-ne-nil d (escape_xml t) (ground arith) (sym e))
escape_xml-injective (c ∷ s) [] h k e =
    absurd (escape_byte-ne-nil c (escape_xml s) (ground arith) e)
escape_xml-injective (c ∷ s) (d ∷ t) h k e =
    let heads =
      escape_byte-cancel c d (escape_xml s) (escape_xml t) (ground arith) (ground arith) e in
    ground (arith, heads, escape_xml-injective s t)
