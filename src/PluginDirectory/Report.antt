-- ===== src/PluginDirectory/Report.antt =====
-- What the report of a plugin load warns of.
use libre_darwin.Base.{
  ℕ, String, suc, ◌+◌, ◌≡◌, refl, arith, List, [], ◌∷◌, ◌++◌, if◌then◌else◌, ◌==◌,
}
use libre_darwin.PluginDirectory.Paths.{FilePath}
use libre_darwin.PluginDirectory.{
  Level, info, warn, Line, LoadOutcome, LoadStatus, loaded, Source, Verdict, chosen,
  PluginDirCandidate, PluginDirResolution, plugin_load_report_lines, candidate_lines,
  candidate_line, outcome_lines, outcome_line, count_line,
}

abbrev pub warnings : List (Level × Line) → ℕ
warnings [] = 0
warnings ((info, l) ∷ ls) = warnings ls
warnings ((warn, l) ∷ ls) = suc (warnings ls)

abbrev pub is_failure : LoadStatus → ℕ
is_failure loaded = 0
is_failure _ = 1

-- How many outcomes of a load are not `Loaded`.
abbrev pub failures : List LoadOutcome → ℕ
failures [] = 0
failures (o ∷ os) = is_failure o.status + failures os

warnings-append : (xs ys : List (Level × Line)) → warnings (xs ++ ys) ≡ warnings xs + warnings ys
warnings-append [] ys = omega arith
warnings-append ((info, l) ∷ xs) ys = warnings-append xs ys
warnings-append ((warn, l) ∷ xs) ys = omega (arith, warnings-append xs ys)

warnings-candidate_line :
    (s : Source) (p : FilePath) (v : Verdict) → warnings (candidate_line s p v ∷ []) ≡ 0
unfolding candidate_line
warnings-candidate_line s p chosen = refl
warnings-candidate_line s p v = refl

warnings-candidate_lines : (cs : List PluginDirCandidate) → warnings (candidate_lines cs) ≡ 0
unfolding candidate_lines
warnings-candidate_lines [] = refl
warnings-candidate_lines (c ∷ cs) = omega (
  arith,
  warnings-append (candidate_line c.source c.path c.verdict ∷ []) (candidate_lines cs),
  warnings-candidate_line c.source c.path c.verdict,
  warnings-candidate_lines cs,
)

warnings-outcome_line :
    (s : LoadStatus) (p : FilePath) (d : String) → warnings (outcome_line s p d) ≡ is_failure s
unfolding outcome_line
warnings-outcome_line loaded p d = refl
warnings-outcome_line _ p d = refl

warnings-outcome_lines : (os : List LoadOutcome) → warnings (outcome_lines os) ≡ failures os
unfolding outcome_lines
warnings-outcome_lines [] = refl
warnings-outcome_lines (o ∷ os) = omega (
  arith,
  warnings-append (outcome_line o.status o.so_path o.diagnostic) (outcome_lines os),
  warnings-outcome_line o.status o.so_path o.diagnostic,
  warnings-outcome_lines os,
)

-- The report warns once for each file that was not loaded, and once more exactly when no plugin was.
pub plugin_load_report_lines-warnings :
    (r : PluginDirResolution) (n : ℕ) (report : List LoadOutcome)
    → warnings (plugin_load_report_lines r n report) ≡ (if n == 0 then 1 else 0) + failures report
unfolding plugin_load_report_lines count_line
plugin_load_report_lines-warnings r n report = ground (
  arith,
  warnings-append (candidate_lines r.candidates) (count_line n r.dir ∷ outcome_lines report),
  warnings-candidate_lines r.candidates,
  warnings-outcome_lines report,
)
