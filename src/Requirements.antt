-- ===== src/Requirements.antt =====
-- engine/requirements.cpp: whether the requirements of a test case are met.
use kyua.Prelude.{
  ℕ, ◌+◌, ◌-◌, ◌/◌, ap, Bool, not, ◌&&◌, ◌||◌, none, List, [], ◌∷◌, ◌++◌, ltb, if◌then◌else◌, any,
  is_empty, all,
}
use kyua.Prelude.Bytes.{Bytes, bytes, str_eq, find, at}
use kyua.Prelude.Results.{Result, ok, err, ◌>>=◌}
use kyua.FsPath.{FsPath, is_absolute}
use kyua.Config.{ConfigError, unknown_key_error}
use kyua.Config.Tree.{Tree, is_set_key, lookup_string_node, lookup_strings}
pub mod Meets

-- What the system answers: access(2), the search in PATH, utils::physical_memory,
-- fs::free_disk_space, passwd::current_user, and units::bytes::format.
pub record System : Type 0 where
  pub exists : FsPath → Bool
  pub find_in_path : Bytes → Bool
  pub physical_memory : ℕ
  pub free_disk_space : FsPath → ℕ
  pub is_root : Bool
  pub format : ℕ → Bytes

-- The properties of model::metadata that are checked; the sets are lists in their order.
pub record Metadata : Type 0 where
  pub required_configs : List Bytes
  pub allowed_architectures : List Bytes
  pub execenv : Bytes
  pub allowed_platforms : List Bytes
  pub required_user : Bytes
  pub required_files : List FsPath
  pub required_programs : List FsPath
  pub required_memory : ℕ
  pub required_disk_space : ℕ

-- What escapes: an exception of the configuration, or a failed INV or UNREACHABLE_MSG.
pub data ReqsError : Type 0 where
  config_error : ConfigError → ReqsError
  failed_invariant : ReqsError

-- A reason to skip the test, which is empty where there is none.
abbrev pub Reason : Type 0
Reason = Result ReqsError Bytes

abbrev pub escape {ℓ} : {A : Type ℓ} → Result ConfigError A → Result ReqsError A
escape (ok a) = ok a
escape (err e) = err (config_error e)

-- `set.find(s) != set.end()`.
abbrev pub among : Bytes → List Bytes → Bool
among s set = any (str_eq s) set

abbrev pub property_of : Bytes → Bytes → Bytes
property_of test_suite name =
    if str_eq name (bytes "unprivileged-user") || str_eq name (bytes "unprivileged_user")
    then bytes "unprivileged_user"
    else bytes "test_suites." ++ (test_suite ++ (bytes "." ++ name))

unfoldable pub check_required_configs : List Bytes → Tree → Bytes → Reason
check_required_configs [] cfg test_suite = ok []
check_required_configs (name ∷ names) cfg test_suite =
    let rest = check_required_configs names cfg test_suite in
    escape (is_set_key cfg (property_of test_suite name)) >>= λ found.
    if not found
    then ok (bytes "Required configuration property '" ++ (name ++ bytes "' not defined"))
    else rest

unfoldable pub check_allowed_architectures : List Bytes → Tree → Reason
check_allowed_architectures allowed cfg =
    if not (is_empty allowed)
    then escape (lookup_string_node cfg (bytes "architecture")) >>= (λ architecture.
      if not (among architecture allowed)
      then ok (bytes "Current architecture '" ++ (architecture ++ bytes "' not supported"))
      else ok [])
    else ok []

-- The set of the configuration, with the handler around its lookup.
abbrev pub execenvs_of : Result ConfigError (List Bytes) → Result ReqsError (List Bytes)
execenvs_of (err (unknown_key_error key)) = ok []
execenvs_of r = escape r

-- DEFAULT_EXECENV_NAME for a test that claims nothing.
abbrev pub execenv_name : Bytes → Bytes
execenv_name [] = bytes "host"
execenv_name (c ∷ cs) = c ∷ cs

unfoldable pub check_execenv : Bytes → Tree → Reason
check_execenv execenv cfg = execenvs_of (lookup_strings cfg (bytes "execenvs")) >>= λ execenvs.
    if not (among (execenv_name execenv) execenvs)
    then ok (
        b'\''
        ∷ (execenv_name execenv
            ++ bytes "' execenv is not supported or not allowed by the runtime user configuration"))
    else ok []

unfoldable pub check_allowed_platforms : List Bytes → Tree → Reason
check_allowed_platforms allowed cfg =
    if not (is_empty allowed)
    then escape (lookup_string_node cfg (bytes "platform")) >>= (λ platform.
      if not (among platform allowed)
      then ok (bytes "Current platform '" ++ (platform ++ bytes "' not supported"))
      else ok [])
    else ok []

unfoldable pub check_required_user : System → Bytes → Tree → Reason
check_required_user s user cfg =
    if not (is_empty user)
    then (if str_eq user (bytes "root")
        then (if not s.is_root then ok (bytes "Requires root privileges") else ok [])
        else if str_eq user (bytes "unprivileged")
        then (if s.is_root
            then escape (is_set_key cfg (bytes "unprivileged_user")) >>= (λ found.
              if not found
              then ok (
                  bytes
                    "Requires an unprivileged user but the unprivileged-user configuration variable is not defined")
              else ok [])
            else ok [])
        else err failed_invariant)
    else ok []

unfoldable pub check_required_files : System → List FsPath → Reason
unfolding is_absolute
check_required_files s [] = ok []
check_required_files s (file ∷ files) =
    let rest = check_required_files s files in
    if not (is_absolute file)
    then err failed_invariant
    else if not (s.exists file)
    then ok (bytes "Required file '" ++ (file.repr ++ bytes "' not found"))
    else rest

unfoldable pub check_required_programs : System → List FsPath → Reason
unfolding is_absolute
check_required_programs s [] = ok []
check_required_programs s (program ∷ programs) =
    let rest = check_required_programs s programs in
    if is_absolute program
    then (if not (s.exists program)
        then ok (bytes "Required program '" ++ (program.repr ++ bytes "' not found"))
        else rest)
    else if not (s.find_in_path program.repr)
    then ok (bytes "Required program '" ++ (program.repr ++ bytes "' not found in PATH"))
    else rest

unfoldable pub check_required_memory : System → ℕ → Reason
check_required_memory s required =
    if ltb 0 required
    then (if ltb 0 s.physical_memory && ltb s.physical_memory required
        then ok (
            bytes "Requires "
            ++ (s.format required
                ++ (bytes " bytes of physical memory but only "
                    ++ (s.format s.physical_memory ++ bytes " available"))))
        else ok [])
    else ok []

unfoldable pub check_required_disk_space : System → ℕ → FsPath → Reason
check_required_disk_space s required work_directory =
    if ltb 0 required
    then (if ltb (s.free_disk_space work_directory) required
        then ok (
            bytes "Requires "
            ++ (s.format required
                ++ (bytes " bytes of free disk space but only "
                    ++ (s.format (s.free_disk_space work_directory) ++ bytes " available"))))
        else ok [])
    else ok []

-- A registered checker, engine::reqs_checker::exec.
abbrev pub ReqsChecker : Type 0
ReqsChecker = Metadata → Tree → Bytes → FsPath → Bytes

-- `reason = ...; if (!reason.empty()) return reason;` before the rest.
infixr 4 ◌or_else◌
abbrev pub ◌or_else◌ : Reason → Reason → Reason
err e or_else rest = err e
ok [] or_else rest = rest
ok (c ∷ reason) or_else rest = ok (c ∷ reason)

unfoldable pub exec_checkers : List ReqsChecker → Metadata → Tree → Bytes → FsPath → Reason
exec_checkers [] md cfg test_suite work_directory = ok []
exec_checkers (exec ∷ checkers) md cfg test_suite work_directory =
    ok (exec md cfg test_suite work_directory)
    or_else exec_checkers checkers md cfg test_suite work_directory

unfoldable pub check_reqs : System → List ReqsChecker → Metadata → Tree → Bytes → FsPath → Reason
unfolding check_required_configs check_allowed_architectures check_execenv check_allowed_platforms
    check_required_user check_required_files check_required_programs check_required_memory
    check_required_disk_space exec_checkers
check_reqs s checkers md cfg test_suite work_directory =
    check_required_configs md.required_configs cfg test_suite
    or_else check_allowed_architectures md.allowed_architectures cfg
    or_else check_execenv md.execenv cfg
    or_else check_allowed_platforms md.allowed_platforms cfg
    or_else check_required_user s md.required_user cfg
    or_else check_required_files s md.required_files
    or_else check_required_programs s md.required_programs
    or_else check_required_memory s md.required_memory
    or_else check_required_disk_space s md.required_disk_space work_directory
    or_else exec_checkers checkers md cfg test_suite work_directory
