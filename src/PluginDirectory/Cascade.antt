-- ===== src/PluginDirectory/Cascade.antt =====
-- The outcome of the cascade and its trail.
use libre_darwin.Base.{
  ◌≡◌, ◌≢◌, refl, arith, List, [], ◌∷◌, ◌++◌, Option, none, some, Bool, All, inl, inr, Bool-cases,
  if◌then◌else◌,
}
use libre_darwin.PluginDirectory.Paths.{FilePath, bundled_dir}
use libre_darwin.PluginDirectory.{
  chosen, PluginDirCandidate, PluginDirResolution, PluginDirInputs, resolve_plugin_dir,
  after_override, resolve_from,
}

-- The trail ends with the chosen candidate, at the directory taken, and no candidate before it was
-- chosen.
pub record EndsChosen (r : PluginDirResolution) : Type 0 where
  pub probed : List PluginDirCandidate
  pub last : PluginDirCandidate
  pub trail : r.candidates ≡ probed ++ last ∷ []
  pub last_chosen : last.verdict ≡ chosen
  pub last_path : last.path ≡ r.dir
  pub others_not : All (λ c. c.verdict ≢ chosen) probed

-- What decides: the override if there is one, else the bundled directory if it exists, else the default.
abbrev pub expected_dir : (FilePath → Bool) → FilePath → Option FilePath → FilePath → FilePath
expected_dir is_directory (p ∷ ps) exe default = p ∷ ps
expected_dir is_directory [] none default = default
expected_dir is_directory [] (some exe) default =
    if is_directory (bundled_dir exe) then bundled_dir exe else default

resolve_from-ends :
    (is_directory : FilePath → Bool) (given : FilePath) (exe : Option FilePath) (default : FilePath)
    → EndsChosen (resolve_from is_directory given exe default)
      × ((resolve_from is_directory given exe default).dir
          ≡ expected_dir is_directory given exe default)
unfolding resolve_from after_override
resolve_from-ends is_directory (p ∷ ps) exe default = (
  record {
    probed = [];
    last = _;
    trail = refl;
    last_chosen = refl;
    last_path = refl;
    others_not = tt;
  },
  refl,
)
resolve_from-ends is_directory [] none default = (
  record {
    probed = _ ∷ _ ∷ [];
    last = _;
    trail = refl;
    last_chosen = refl;
    last_path = refl;
    others_not = (ground arith, (ground arith, tt));
  },
  refl,
)
resolve_from-ends is_directory [] (some exe) default =
    elim (Bool-cases (is_directory (bundled_dir exe))) [
      | inl e ↦ rw e (
        record {
          probed = _ ∷ [];
          last = _;
          trail = refl;
          last_chosen = refl;
          last_path = refl;
          others_not = (ground arith, tt);
        },
        refl,
      )
      | inr e ↦ rw e (
        record {
          probed = _ ∷ _ ∷ [];
          last = _;
          trail = refl;
          last_chosen = refl;
          last_path = refl;
          others_not = (ground arith, (ground arith, tt));
        },
        refl,
      )
    ]

-- Whatever the inputs and the disk, the resolution takes the override if one was given, else the bundled
-- directory if it exists, else the compiled-in default, and its trail ends with that one and with no
-- other chosen.
pub resolve_plugin_dir-ends :
    (is_directory : FilePath → Bool) (inputs : PluginDirInputs)
    → EndsChosen (resolve_plugin_dir is_directory inputs)
      × ((resolve_plugin_dir is_directory inputs).dir
          ≡ expected_dir is_directory inputs.override inputs.executable inputs.compiled_default)
unfolding resolve_plugin_dir
resolve_plugin_dir-ends is_directory inputs =
    resolve_from-ends is_directory inputs.override inputs.executable inputs.compiled_default
