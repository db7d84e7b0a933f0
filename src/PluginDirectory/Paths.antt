-- ===== src/PluginDirectory/Paths.antt =====
-- The `std::filesystem::path` operations that agent/src/backend/PluginDirectory.cpp uses. A path is its
-- components, the root "/" among them; the empty path has none.
pub mod Bundle
use libre_darwin.Base.{
  String, Option, none, some, List, [], ◌∷◌, ◌++◌, Bool, ◌||◌, str_eq, if◌then◌else◌, ◌≡◌, ◌≢◌,
  refl, arith, eq_iff, All, sym, ◌∙◌, ap,
}
use mathlib.Core.List.{reverse, append_assoc, append-nil, reverse-cons, reverse-append}

abbrev pub FilePath : Type 0
FilePath = List String

-- `parent_path()`: the root is its own parent.
pub parent_path : FilePath → FilePath
parent_path [] = []
parent_path (c ∷ []) = if str_eq c "/" then c ∷ [] else []
parent_path (c ∷ d ∷ cs) = c ∷ parent_path (d ∷ cs)

-- One component of `lexically_normal()`; the stack has its top at the head.
pub normal_step : FilePath → String → FilePath
normal_step [] c = if str_eq c "." then [] else c ∷ []
normal_step (top ∷ stack) c =
    if str_eq c "."
    then top ∷ stack
    else if str_eq c ".."
    then (if str_eq top "/"
        then top ∷ stack
        else if str_eq top ".."
        then c ∷ top ∷ stack
        else stack)
    else c ∷ top ∷ stack

normal_from : FilePath → FilePath → FilePath
unfolding normal_step
normal_from stack [] = reverse stack
normal_from stack (c ∷ cs) = normal_from (normal_step stack c) cs

-- A path that normalises to nothing is written ".".
dot_if_empty : FilePath → FilePath → FilePath
dot_if_empty [] [] = []
dot_if_empty (c ∷ cs) [] = "." ∷ []
dot_if_empty cs (d ∷ ds) = d ∷ ds

pub lexically_normal : FilePath → FilePath
unfolding normal_from dot_if_empty
lexically_normal p = dot_if_empty p (normal_from [] p)

-- `(executable->parent_path() / ".." / "PlugIns" / "librescrs").lexically_normal()`
pub bundled_dir : FilePath → FilePath
bundled_dir exe = lexically_normal (parent_path exe ++ ".." ∷ "PlugIns" ∷ "librescrs" ∷ [])
