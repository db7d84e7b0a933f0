-- ===== src/PluginDirectory.antt =====
-- The plugin directory cascade and its report (agent/src/backend/PluginDirectory.cpp). The lines of the
-- report are data: what each says, with its severity, not its wording.
pub mod Paths
pub mod Cascade
pub mod Report
use libre_darwin.Base.{
  ℕ, String, Option, none, some, List, [], ◌∷◌, ◌++◌, Bool, true, false, ◌==◌, if◌then◌else◌,
}
use Paths.{FilePath, bundled_dir}

-- `PluginDirCandidate::Source` and `::Verdict`
pub data Source : Type 0 where
  override bundle_relative compiled_default : Source

pub data Verdict : Type 0 where
  chosen unset not_a_directory : Verdict

pub record PluginDirCandidate : Type 0 where
  pub source : Source
  pub path : FilePath
  pub verdict : Verdict

pub record PluginDirResolution : Type 0 where
  pub dir : FilePath
  pub candidates : List PluginDirCandidate

pub record PluginDirInputs : Type 0 where
  pub override : FilePath
  pub executable : Option FilePath
  pub compiled_default : FilePath

abbrev candidate : Source → FilePath → Verdict → PluginDirCandidate
candidate s p v = record { source = s; path = p; verdict = v }

-- What has been probed when a directory is taken.
abbrev resolved : List PluginDirCandidate → Source → FilePath → PluginDirResolution
resolved probed s p = record { dir = p; candidates = probed ++ candidate s p chosen ∷ [] }

-- The bundled directory, then the compiled-in default; `is_directory` is `fs::is_directory`.
after_override : (FilePath → Bool) → Option FilePath → FilePath → PluginDirResolution
after_override is_directory none default =
    resolved (candidate override [] unset ∷ candidate bundle_relative [] unset ∷ [])
      compiled_default default
after_override is_directory (some exe) default =
    if is_directory (bundled_dir exe)
    then resolved (candidate override [] unset ∷ []) bundle_relative (bundled_dir exe)
    else resolved
        (candidate override [] unset
          ∷ candidate bundle_relative (bundled_dir exe) not_a_directory
          ∷ [])
        compiled_default default

resolve_from : (FilePath → Bool) → FilePath → Option FilePath → FilePath → PluginDirResolution
resolve_from is_directory [] exe default = after_override is_directory exe default
resolve_from is_directory (p ∷ ps) exe default = resolved [] override (p ∷ ps)

pub resolve_plugin_dir : (FilePath → Bool) → PluginDirInputs → PluginDirResolution
unfolding resolve_from after_override
resolve_plugin_dir is_directory inputs =
    resolve_from is_directory inputs.override inputs.executable inputs.compiled_default

-- `LoadOutcome`, whose status is one of the five that `statusName` names.
pub data LoadStatus : Type 0 where
  loaded dlopen_failed missing_factory abi_mismatch factory_threw : LoadStatus

pub record LoadOutcome : Type 0 where
  pub status : LoadStatus
  pub so_path : FilePath
  pub diagnostic : String

pub data Level : Type 0 where
  info warn : Level

pub data Line : Type 0 where
  using_dir : FilePath → Source → Line
  override_not_given : Line
  own_path_unknown : Line
  no_bundled_dir : FilePath → Line
  no_directory_from : Source → Line
  loaded_none : FilePath → Line
  loaded_count : ℕ → FilePath → Line
  not_loaded : FilePath → LoadStatus → String → Line

rejection_line_of : Source → FilePath → Verdict → Line
rejection_line_of override p v = override_not_given
rejection_line_of bundle_relative p unset = own_path_unknown
rejection_line_of bundle_relative p v = no_bundled_dir p
rejection_line_of compiled_default p v = no_directory_from compiled_default

candidate_line : Source → FilePath → Verdict → Level × Line
unfolding rejection_line_of
candidate_line s p chosen = (info, using_dir p s)
candidate_line s p v = (info, rejection_line_of s p v)

candidate_lines : List PluginDirCandidate → List (Level × Line)
candidate_lines [] = []
candidate_lines (c ∷ cs) = candidate_line c.source c.path c.verdict ∷ candidate_lines cs

count_line : ℕ → FilePath → Level × Line
count_line n dir = if n == 0 then (warn, loaded_none dir) else (info, loaded_count n dir)

outcome_line : LoadStatus → FilePath → String → List (Level × Line)
outcome_line loaded p d = []
outcome_line s p d = (warn, not_loaded p s d) ∷ []

outcome_lines : List LoadOutcome → List (Level × Line)
outcome_lines [] = []
outcome_lines (o ∷ os) = outcome_line o.status o.so_path o.diagnostic ++ outcome_lines os

pub plugin_load_report_lines : PluginDirResolution → ℕ → List LoadOutcome → List (Level × Line)
unfolding candidate_lines candidate_line count_line outcome_lines outcome_line
plugin_load_report_lines resolution n report =
    candidate_lines resolution.candidates ++ (count_line n resolution.dir ∷ outcome_lines report)
