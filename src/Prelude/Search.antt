-- ===== src/Prelude/Search.antt =====
-- The search of one string in another.
use Prim.Native.Nat.{ℕ, suc, ◌+◌}
use mathlib.Core.Bool.{Bool, true, false, ◌&&◌}
use mathlib.Core.Option.{Option, none, some}
use mathlib.Core.List.{[], ◌∷◌}
use kyua.Prelude.Tests.{◌==◌, if◌then◌else◌}
use kyua.Prelude.Lists.{drop}
use kyua.Prelude.Bytes.{Bytes}

-- `s.substr(0, prefix.length()) == prefix`.
unfoldable pub starts_with : Bytes → Bytes → Bool
starts_with [] s = true
starts_with (c ∷ prefix) [] = false
starts_with (c ∷ prefix) (x ∷ s) = x == c && starts_with prefix s

-- `s.find(needle)`.
unfoldable pub find_str : Bytes → Bytes → Option ℕ
unfolding starts_with
find_str needle [] = if starts_with needle [] then some 0 else none
find_str needle (x ∷ s) =
    let rest = find_str needle s in
    if starts_with needle (x ∷ s) then some 0 else elim rest [ none ↦ none | some n ↦ some (suc n) ]

-- `s.find(needle, pos)`, at a position within the text.
unfoldable pub find_str_from : Bytes → Bytes → ℕ → Option ℕ
unfolding find_str
find_str_from needle s pos = elim (find_str needle (drop pos s)) [
  | none ↦ none
  | some n ↦ some (pos + n)
]
