-- ===== src/Examples/Engine.antt =====
-- The TAP interface, the requirements and the configuration tree at concrete inputs.
use kyua.Prelude.{
  ◌*◌, ◌/◌, ◌%◌, ◌≡◌, ◌≢◌, ◌↔◌, refl, true, false, none, some, List, [], ◌∷◌, if◌then◌else◌,
}
use kyua.Prelude.Bytes.{Bytes, bytes, str_eq, find_from}
use kyua.Prelude.Integer.{read_signed, read_digits, digits_value, show_nat, size_mod}
use kyua.Prelude.Results.{ok}
use kyua.Text.{to_type_int, to_type_size}
use kyua.Units.{Floats}
use kyua.Tap.{TapPatterns}
use kyua.Tap.Judge.{tap_result, result_of}
use kyua.Tap.Passed.{Passes, tap_result-Passes}
use kyua.TestResult.{TestResultType}
use kyua.FsPath.{FsPath}
use kyua.Config.{int_node, string_node, leaf, empty, child, parse_key, set_string}
use kyua.Config.Tree.{Tree, set_string_key}
use kyua.Config.Tree.Update.{Stored}
use kyua.Config.Tree.Setters.{SameLeaf, set_string_key-Stored}
use kyua.Requirements.{System, Metadata, check_reqs}
use kyua.Requirements.Meets.{Meets, check_reqs-Meets}
use kyua.Examples.Data.{exited_0}

abbrev tap_patterns : TapPatterns
tap_patterns = record {
  plan = λ s. if str_eq s (bytes "1..1") then some (bytes "1", bytes "1") else none;
  todo = λ s. false;
  skip = λ s. none;
  result = λ s. if str_eq s (bytes "ok 1") then some (bytes "ok") else none;
}

abbrev tap_file : Bytes
tap_file = bytes "1..1\nok 1\n"

tap_result-Passes_example :
    (tap_result tap_patterns (some exited_0) (bytes "out") (some tap_file)
      ≡ some (result_of TestResultType.passed []))
    ↔ Passes tap_patterns (some exited_0) (some tap_file)
tap_result-Passes_example =
    tap_result-Passes tap_patterns (some exited_0) (bytes "out") (some tap_file)

abbrev settings : Tree
settings = record {
  strict = true;
  root =
      child (bytes "architecture") (leaf (string_node (some (bytes "arm"))))
        (child (bytes "jobs") (leaf (int_node none)) empty);
}

-- Whole numbers, and no fractions.
abbrev exact_floats : Floats
exact_floats = record {
  read_scaled = λ s m. elim (to_type_size s) [ none ↦ none | some n ↦ some ((n * m) % size_mod) ];
  show_scaled = λ n unit. show_nat (n / unit);
}

set_string_key-Stored_example :
    Stored
      (bytes "jobs" ∷ [])
      (string_node none)
      (λ l. set_string exact_floats l (bytes "4"))
      settings.root
      (bytes "jobs" ∷ [])
      (set_string_key exact_floats settings (bytes "jobs") (bytes "4")).0.root
    × ((other : List Bytes)
        → other ≢ (bytes "jobs" ∷ [])
        → SameLeaf
            (bytes "jobs" ∷ [])
            settings.root
            (set_string_key exact_floats settings (bytes "jobs") (bytes "4")).0.root
            other)
unfolding parse_key set_string_key find_from set_string to_type_int read_signed read_digits
    digits_value
set_string_key-Stored_example =
    set_string_key-Stored exact_floats settings (bytes "jobs") (bytes "4") (bytes "jobs" ∷ []) refl
      refl refl

abbrev machine : System
machine = record {
  exists = λ p. str_eq p.repr (bytes "/bin/sh");
  find_in_path = λ s. false;
  physical_memory = 1024;
  free_disk_space = λ p. 10;
  is_root = true;
  format = λ n. bytes "some";
}

abbrev needs : Metadata
needs = record {
  required_configs = [];
  allowed_architectures = bytes "arm" ∷ [];
  execenv = [];
  allowed_platforms = [];
  required_user = bytes "root";
  required_files = record { repr = bytes "/bin/sh" } ∷ [];
  required_programs = [];
  required_memory = 512;
  required_disk_space = 0;
}

abbrev work : FsPath
work = record { repr = bytes "/tmp" }

check_reqs-Meets_example :
    (check_reqs machine [] needs settings (bytes "suite") work ≡ ok [])
    ↔ Meets machine [] needs settings (bytes "suite") work
check_reqs-Meets_example = check_reqs-Meets machine [] needs settings (bytes "suite") work
