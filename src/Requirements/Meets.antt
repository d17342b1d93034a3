-- ===== src/Requirements/Meets.antt =====
-- When the requirements of a test case are met, without the order of the checks.
use kyua.Prelude.{
  ℕ, ◌≤◌, ◌≡◌, ◌↔◌, ◌⊎◌, inl, inr, refl, ap, Bool, true, false, not, List, [], ◌∷◌, ◌++◌, arith,
  if◌then◌else◌, is_empty,
}
use kyua.Prelude.Bytes.{Bytes, bytes, str_eq_iff}
use kyua.Prelude.Results.{Result, Result-cases, ok, err, ◌>>=◌}
use kyua.FsPath.{FsPath, is_absolute}
use kyua.Config.{ConfigError}
use kyua.Config.Tree.{Tree, is_set_key, lookup_string_node, lookup_strings}
use kyua.Requirements.{
  System, Metadata, Reason, escape, among, property_of, check_required_configs,
  check_allowed_architectures, execenvs_of, execenv_name, check_execenv, check_allowed_platforms,
  check_required_user, check_required_files, check_required_programs, check_required_memory,
  check_required_disk_space, ReqsChecker, ◌or_else◌, exec_checkers, check_reqs,
}

abbrev pub AllDefined : Tree → Bytes → List Bytes → Type 0
AllDefined cfg test_suite [] = Unit {0}
AllDefined cfg test_suite (name ∷ names) =
    (is_set_key cfg (property_of test_suite name) ≡ ok true) × AllDefined cfg test_suite names

-- The value of a key of the configuration is among those allowed, where there are any.
abbrev pub Supported : List Bytes → Tree → Bytes → Type 0
Supported [] cfg key = Unit {0}
Supported (a ∷ allowed) cfg key =
    (value : Bytes) × (lookup_string_node cfg key ≡ ok value) × (among value (a ∷ allowed) ≡ true)

abbrev pub ExecenvFits : Bytes → Tree → Type 0
ExecenvFits execenv cfg =
    (names : List Bytes) × (execenvs_of (lookup_strings cfg (bytes "execenvs")) ≡ ok names)
    × (among (execenv_name execenv) names ≡ true)

abbrev pub UserFits : System → Bytes → Tree → Type 0
UserFits s user cfg =
    (user ≡ [])
    ⊎ (((user ≡ bytes "root") × (s.is_root ≡ true))
        ⊎ ((user ≡ bytes "unprivileged")
            × ((s.is_root ≡ false) ⊎ (is_set_key cfg (bytes "unprivileged_user") ≡ ok true))))

abbrev pub AllExist : System → List FsPath → Type 0
AllExist s [] = Unit {0}
AllExist s (file ∷ files) = (is_absolute file ≡ true) × (s.exists file ≡ true) × AllExist s files

abbrev pub AllFound : System → List FsPath → Type 0
AllFound s [] = Unit {0}
AllFound s (program ∷ programs) =
    ((if is_absolute program then s.exists program else s.find_in_path program.repr) ≡ true)
    × AllFound s programs

abbrev pub AllPass : List ReqsChecker → Metadata → Tree → Bytes → FsPath → Type 0
AllPass [] md cfg test_suite work_directory = Unit {0}
AllPass (exec ∷ checkers) md cfg test_suite work_directory =
    (exec md cfg test_suite work_directory ≡ []) × AllPass checkers md cfg test_suite work_directory

-- Memory of an unknown size, which is 0, is enough.
abbrev pub Meets : System → List ReqsChecker → Metadata → Tree → Bytes → FsPath → Type 0
Meets s checkers md cfg test_suite work_directory =
    AllDefined cfg test_suite md.required_configs
    × Supported md.allowed_architectures cfg (bytes "architecture")
    × ExecenvFits md.execenv cfg
    × Supported md.allowed_platforms cfg (bytes "platform")
    × UserFits s md.required_user cfg
    × AllExist s md.required_files
    × AllFound s md.required_programs
    × ((s.physical_memory ≡ 0) ⊎ (md.required_memory ≤ s.physical_memory))
    × (md.required_disk_space ≤ s.free_disk_space work_directory)
    × AllPass checkers md cfg test_suite work_directory

or_else_iff : (a b : Reason) → ((a or_else b) ≡ ok []) ↔ ((a ≡ ok []) × (b ≡ ok []))
or_else_iff (ok []) b = (λ h. (refl, h), λ (_, h). h)
or_else_iff (ok (c ∷ cs)) b = (λ h. cc, λ (h, _). cc)
or_else_iff (err e) b = (λ h. cc, λ (h, _). cc)

defined_step :
    (r : Result ConfigError Bool) (name : Bytes) (rest : Reason)
    → ((escape r >>= λ found.
          if not found
          then ok (bytes "Required configuration property '" ++ (name ++ bytes "' not defined"))
          else rest)
        ≡ ok [])
      ↔ ((r ≡ ok true) × (rest ≡ ok []))
defined_step (ok true) name rest = (λ h. (refl, h), λ (_, h). h)
defined_step (ok false) name rest = (λ h. cc, λ (h, _). cc)
defined_step (err e) name rest = (λ h. cc, λ (h, _). cc)

configs_iff :
    (names : List Bytes) (cfg : Tree) (test_suite : Bytes)
    → (check_required_configs names cfg test_suite ≡ ok []) ↔ AllDefined cfg test_suite names
unfolding check_required_configs
configs_iff [] cfg test_suite = (λ h. tt, λ h. refl)
configs_iff (name ∷ names) cfg test_suite =
    let step =
      defined_step (is_set_key cfg (property_of test_suite name)) name
        (check_required_configs names cfg test_suite) in
    let others = configs_iff names cfg test_suite in
    (λ h. ((step.0 h).0, others.0 (step.0 h).1), λ (h, k). step.1 (h, others.1 k))

architectures_iff :
    (allowed : List Bytes) (cfg : Tree)
    → (check_allowed_architectures allowed cfg ≡ ok [])
      ↔ Supported allowed cfg (bytes "architecture")
unfolding check_allowed_architectures
architectures_iff [] cfg = (λ h. tt, λ h. refl)
architectures_iff (a ∷ allowed) cfg =
    elim (Result-cases (lookup_string_node cfg (bytes "architecture"))) [
      | inl (e, p) ↦ ground arith
      | inr (v, p) ↦ ground arith
    ]

execenv_iff :
    (execenv : Bytes) (cfg : Tree) → (check_execenv execenv cfg ≡ ok []) ↔ ExecenvFits execenv cfg
unfolding check_execenv
execenv_iff execenv cfg =
    elim (Result-cases (execenvs_of (lookup_strings cfg (bytes "execenvs")))) [
      | inl (e, p) ↦ ground arith
      | inr (v, p) ↦ ground arith
    ]

platforms_iff :
    (allowed : List Bytes) (cfg : Tree)
    → (check_allowed_platforms allowed cfg ≡ ok []) ↔ Supported allowed cfg (bytes "platform")
unfolding check_allowed_platforms
platforms_iff [] cfg = (λ h. tt, λ h. refl)
platforms_iff (a ∷ allowed) cfg = elim (Result-cases (lookup_string_node cfg (bytes "platform"))) [
  | inl (e, p) ↦ ground arith
  | inr (v, p) ↦ ground arith
]

empty_iff : (s : Bytes) → (is_empty s ≡ true) ↔ (s ≡ [])
empty_iff [] = (λ h. refl, λ h. refl)
empty_iff (c ∷ cs) = (λ h. cc, λ h. cc)

user_iff :
    (s : System) (user : Bytes) (cfg : Tree)
    → (check_required_user s user cfg ≡ ok []) ↔ UserFits s user cfg
unfolding check_required_user
user_iff s user cfg = elim (Result-cases (is_set_key cfg (bytes "unprivileged_user"))) [
  | inl (e, p) ↦ ground (
    arith,
    str_eq_iff user (bytes "root"),
    str_eq_iff user (bytes "unprivileged"),
    empty_iff user,
  )
  | inr (v, p) ↦ ground (
    arith,
    str_eq_iff user (bytes "root"),
    str_eq_iff user (bytes "unprivileged"),
    empty_iff user,
  )
]

files_iff :
    (s : System) (files : List FsPath) → (check_required_files s files ≡ ok []) ↔ AllExist s files
unfolding check_required_files
files_iff s [] = (λ h. tt, λ h. refl)
files_iff s (file ∷ files) = ground (arith, files_iff s files)

programs_iff :
    (s : System) (programs : List FsPath)
    → (check_required_programs s programs ≡ ok []) ↔ AllFound s programs
unfolding check_required_programs
programs_iff s [] = (λ h. tt, λ h. refl)
programs_iff s (program ∷ programs) = ground (arith, programs_iff s programs)

memory_iff :
    (s : System) (required : ℕ)
    → (check_required_memory s required ≡ ok [])
      ↔ ((s.physical_memory ≡ 0) ⊎ (required ≤ s.physical_memory))
unfolding check_required_memory
memory_iff s required = ground arith

disk_iff :
    (s : System) (required : ℕ) (work_directory : FsPath)
    → (check_required_disk_space s required work_directory ≡ ok [])
      ↔ (required ≤ s.free_disk_space work_directory)
unfolding check_required_disk_space
disk_iff s required work_directory = ground arith

ok_inj : (reason : Bytes) → Path Reason (ok reason) (ok []) → reason ≡ []
ok_inj reason h = cc

checkers_iff :
    (checkers : List ReqsChecker) (md : Metadata) (cfg : Tree) (test_suite : Bytes)
    (work_directory : FsPath)
    → (exec_checkers checkers md cfg test_suite work_directory ≡ ok [])
      ↔ AllPass checkers md cfg test_suite work_directory
unfolding exec_checkers
checkers_iff [] md cfg test_suite work_directory = (λ h. tt, λ h. refl)
checkers_iff (exec ∷ checkers) md cfg test_suite work_directory =
    let step =
      or_else_iff (ok (exec md cfg test_suite work_directory))
        (exec_checkers checkers md cfg test_suite work_directory) in
    let others = checkers_iff checkers md cfg test_suite work_directory in
    (λ h. (ok_inj _ (step.0 h).0, others.0 (step.0 h).1), λ (h, k). step.1 (ap ok h, others.1 k))

both :
    {P Q : Type 0} (a b : Reason)
    → ((a ≡ ok []) ↔ P)
    → ((b ≡ ok []) ↔ Q)
    → ((a or_else b) ≡ ok []) ↔ (P × Q)
both a b p q = (
  λ h. (p.0 ((or_else_iff a b).0 h).0, q.0 ((or_else_iff a b).0 h).1),
  λ (x, y). (or_else_iff a b).1 (p.1 x, q.1 y),
)

-- check_reqs finds no reason to skip a test case, and throws nothing, if and only if all of its
-- requirements are met.
pub check_reqs-Meets :
    (s : System) (checkers : List ReqsChecker) (md : Metadata) (cfg : Tree) (test_suite : Bytes)
    (work_directory : FsPath)
    → (check_reqs s checkers md cfg test_suite work_directory ≡ ok [])
      ↔ Meets s checkers md cfg test_suite work_directory
unfolding check_reqs
check_reqs-Meets s checkers md cfg test_suite work_directory =
    let k = both _ _ (configs_iff md.required_configs cfg test_suite) (
      both _ _ (architectures_iff md.allowed_architectures cfg) (
        both _ _ (execenv_iff md.execenv cfg) (
          both _ _ (platforms_iff md.allowed_platforms cfg) (
            both _ _ (user_iff s md.required_user cfg) (
              both _ _ (files_iff s md.required_files) (
                both _ _ (programs_iff s md.required_programs) (
                  both _ _ (memory_iff s md.required_memory) (
                    both _ _ (disk_iff s md.required_disk_space work_directory)
                      (checkers_iff checkers md cfg test_suite work_directory))))))))) in
    (
      (λ h.
          let (a, (b, (c, (d, (e, (f, (g, (i, (j, l))))))))) = k.0 h in
          (a, b, c, d, e, f, g, i, j, l)),
      λ (a, b, c, d, e, f, g, i, j, l). k.1 (a, (b, (c, (d, (e, (f, (g, (i, (j, l))))))))),
    )
