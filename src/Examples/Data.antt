-- ===== src/Examples/Data.antt =====
-- The data of the examples.
use kyua.Prelude.{◌≡◌, refl, true, Option, none, some, List, [], ◌∷◌, if◌then◌else◌, all}
use kyua.Prelude.Bytes.{Bytes, bytes, str_eq}
use kyua.Prelude.{subst}
use kyua.Prelude.Integer.{pos}
use kyua.FsPath.{FsPath}
use kyua.FsPath.Normal.{IsNormal, is_component}
use kyua.Status.{Status}
use kyua.Filters.{TestFilter}
use kyua.Scanner.{TestProgram}
use kyua.TestResult.{TestResult, TestResultType}
use kyua.AtfResult
use kyua.AtfResult.{AtfResult}
use kyua.GoogletestResult.{Patterns, IsEnding, ok_word, lines}
use kyua.GoogletestResult.Verdict.{is_enabled}
use kyua.Delta.{Delta}
use kyua.Timestamp.{Timestamp}

abbrev pub bin : FsPath
bin = record { repr = bytes "bin" }

abbrev pub bin_ls : FsPath
bin_ls = record { repr = bytes "bin/ls" }

abbrev pub etc : FsPath
etc = record { repr = bytes "etc" }

pub bin-IsNormal : IsNormal bin
bin-IsNormal = record {
  head = bytes "bin";
  tail = [];
  shape = refl;
  head_lacks = refl;
  tail_is = refl;
}

pub bin_ls-IsNormal : IsNormal bin_ls
unfolding is_component
bin_ls-IsNormal = record {
  head = bytes "bin";
  tail = bytes "ls" ∷ [];
  shape = refl;
  head_lacks = refl;
  tail_is = refl;
}

pub etc-IsNormal : IsNormal etc
etc-IsNormal = record {
  head = bytes "etc";
  tail = [];
  shape = refl;
  head_lacks = refl;
  tail_is = refl;
}

abbrev pub all_bin : TestFilter
all_bin = record { test_program = bin; test_case = [] }

abbrev pub ls_list : TestFilter
ls_list = record { test_program = bin_ls; test_case = bytes "list" }

abbrev pub all_etc : TestFilter
all_etc = record { test_program = etc; test_case = [] }

abbrev pub program_ls : TestProgram
program_ls = record { relative_path = bin_ls; test_cases = bytes "help" ∷ bytes "list" ∷ [] }

abbrev pub program_etc : TestProgram
program_etc = record { relative_path = etc; test_cases = bytes "main" ∷ [] }

abbrev pub programs : List TestProgram
programs = program_etc ∷ program_ls ∷ []

abbrev pub exited_0 : Status
exited_0 = record { dead_pid = pos 7; exited_code = some (pos 0); signaled_by = none }

abbrev pub skipped_file : Bytes
skipped_file = bytes "skipped: no root\n"

abbrev pub no_root : TestResult
no_root = record { result_type = TestResultType.skipped; reason = bytes "no root" }

abbrev pub exit_3 : AtfResult
exit_3 = record {
  result_type = AtfResult.Types.expected_exit;
  argument = some (pos 3);
  reason = some (bytes "so");
}

-- Searches for the exact lines of one test case.
abbrev pub gtest : Patterns
gtest = record {
  disabled_text = λ line. none;
  starts = str_eq (bytes "[ RUN      ] a.b\n");
  ending = λ line. if str_eq line (bytes "[       OK ] a.b\n") then some (bytes "OK") else none;
}

abbrev pub gtest_file : Bytes
gtest_file = bytes "[ RUN      ] a.b\nNote\n[       OK ] a.b\n"

abbrev pub gtest_passed : TestResult
gtest_passed = record { result_type = TestResultType.passed; reason = [] }

pub gtest_enabled : all (is_enabled gtest) (lines gtest_file) ≡ true
unfolding lines
gtest_enabled = refl

pub is_ok : (x : Bytes) → ◌≡◌ {A = Option Bytes} (some (bytes "OK")) (some x) → IsEnding x
is_ok x e = let same : bytes "OK" ≡ x = cc in subst IsEnding same ok_word

abbrev pub short : Delta
short = record { seconds = 0; useconds = 900000 }

abbrev pub long : Delta
long = record { seconds = 2; useconds = 200000 }

abbrev pub noon : Timestamp
noon = record { tv_sec = 43200; tv_usec = 999999 }
