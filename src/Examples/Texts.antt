-- ===== src/Examples/Texts.antt =====
-- The theorems on texts and paths at concrete inputs.
use kyua.Prelude.{◌≡◌, ◌↔◌, refl, true, [], ◌∷◌}
use kyua.Prelude.Bytes.{bytes, find_from}
use kyua.Prelude.Results.{ok, ◌>>=◌}
use kyua.Text.{split, join, escape_xml}
use kyua.Text.Split.{split-join}
use kyua.Text.Xml.{is_text, is_text-escape_xml}
use kyua.FsPath.{FsPath, path, normalized, is_parent_of, join_path, is_absolute}
use kyua.FsPath.Normal.{normal, IsNormal, normalized-normal, path-IsNormal}
use kyua.FsPath.Parent.{IsParent, is_parent_of_iff}
use kyua.FsPath.Join.{join_path_assoc}
use kyua.Examples.Data.{bin, bin_ls, etc, bin-IsNormal, bin_ls-IsNormal, etc-IsNormal}

split-join_example : split (join (bytes "a" ∷ [] ∷ []) (b',' ∷ [])) b',' ≡ bytes "a" ∷ [] ∷ []
split-join_example = split-join b',' (bytes "a" ∷ [] ∷ []) refl (λ h. cc)

is_text-escape_xml_example : is_text (escape_xml (bytes "<a&'b>")) ≡ true
is_text-escape_xml_example = is_text-escape_xml (bytes "<a&'b>")

normalized-normal_example : normalized (bytes "a//./b/") ≡ normal (bytes "a//./b/")
normalized-normal_example = normalized-normal (bytes "a//./b/")

path-IsNormal_example : IsNormal bin_ls
unfolding path find_from kyua.FsPath.add_component
path-IsNormal_example = path-IsNormal (bytes "bin//./ls/") refl

is_parent_of_iff_example : (is_parent_of bin bin_ls ≡ true) ↔ IsParent bin bin_ls
is_parent_of_iff_example = is_parent_of_iff bin bin_ls bin-IsNormal bin_ls-IsNormal

join_path_assoc_example :
    (d : FsPath) × ((join_path etc bin >>= λ ab. join_path ab bin_ls) ≡ ok d)
    × ((join_path bin bin_ls >>= λ bc. join_path etc bc) ≡ ok d)
unfolding is_absolute
join_path_assoc_example =
    join_path_assoc etc bin bin_ls etc-IsNormal bin-IsNormal bin_ls-IsNormal refl refl
