-- ===== src/PluginDirectory/Paths/Bundle.antt =====
-- Where the bundled plugin directory lies, for an executable in the host bundle.
use libre_darwin.Base.{
  String, [], ◌∷◌, ◌++◌, ◌≡◌, ◌≢◌, refl, arith, eq_iff, str_eq, false, All, sym, ◌∙◌, ap,
}
use mathlib.Core.List.{reverse, append_assoc, reverse-cons, reverse-append, reverse-reverse}
use libre_darwin.PluginDirectory.Paths.{
  FilePath, parent_path, normal_step, normal_from, lexically_normal, bundled_dir,
}

abbrev pub IsOrdinary : String → Type 0
IsOrdinary c = (c ≢ ".") × (c ≢ "..") × (c ≢ "/")

parent_path-append :
    (dirs : FilePath) (d exe : String)
    → exe ≢ "/"
    → parent_path (dirs ++ d ∷ exe ∷ []) ≡ dirs ++ d ∷ []
unfolding parent_path
parent_path-append [] d exe h = ground (arith, eq_iff exe "/")
parent_path-append (c ∷ []) d exe h = ap (◌∷◌ c) (parent_path-append [] d exe h)
parent_path-append (c ∷ e ∷ dirs) d exe h = ap (◌∷◌ c) (parent_path-append (e ∷ dirs) d exe h)

normal_step-ordinary :
    (stack : FilePath) (c : String) → IsOrdinary c → normal_step stack c ≡ c ∷ stack
unfolding normal_step
normal_step-ordinary [] c h = ground (arith, eq_iff c ".")
normal_step-ordinary (top ∷ stack) c h = ground (arith, eq_iff c ".", eq_iff c "..")

normal_from-ordinary :
    (stack dirs rest : FilePath)
    → All IsOrdinary dirs
    → normal_from stack (dirs ++ rest) ≡ normal_from (reverse dirs ++ stack) rest
unfolding normal_from
normal_from-ordinary stack [] rest h = refl
normal_from-ordinary stack (c ∷ dirs) rest h =
    ap (λ s. normal_from s (dirs ++ rest)) (normal_step-ordinary stack c h.0)
    ∙ normal_from-ordinary (c ∷ stack) dirs rest h.1
    ∙ ap (λ s. normal_from s rest) (sym (simp (reverse-cons, append_assoc)))

normal_step-up :
    (stack : FilePath) (d : String) → IsOrdinary d → normal_step (d ∷ stack) ".." ≡ stack
unfolding normal_step
normal_step-up stack d h = ground (arith, eq_iff d "..", eq_iff d "/")

literal :
    (c : String)
    → str_eq c "." ≡ false
    → str_eq c ".." ≡ false
    → str_eq c "/" ≡ false
    → IsOrdinary c
literal c h k l = (
  λ e. ground (arith, eq_iff c "."),
  λ e. ground (arith, eq_iff c ".."),
  λ e. ground (arith, eq_iff c "/"),
)

abbrev tail_dirs : FilePath
tail_dirs = "PlugIns" ∷ "librescrs" ∷ []

normal_from-up :
    (dirs : FilePath) (d : String)
    → All IsOrdinary dirs
    → IsOrdinary d
    → normal_from [] ("/" ∷ (dirs ++ d ∷ ".." ∷ tail_dirs)) ≡ "/" ∷ (dirs ++ tail_dirs)
unfolding normal_from
normal_from-up dirs d h hd =
    normal_from-ordinary ("/" ∷ []) dirs (d ∷ ".." ∷ tail_dirs) h
    ∙ rw
        (
          normal_step-ordinary (reverse dirs ++ "/" ∷ []) d hd,
          normal_step-up (reverse dirs ++ "/" ∷ []) d hd,
          normal_step-ordinary (reverse dirs ++ "/" ∷ []) "PlugIns"
              (literal "PlugIns" refl refl refl),
          normal_step-ordinary ("PlugIns" ∷ (reverse dirs ++ "/" ∷ [])) "librescrs"
              (literal "librescrs" refl refl refl),
        )
        (simp (reverse-cons, reverse-append, reverse-reverse, append_assoc))

-- For an executable in `<root>/<dirs>/<d>/`, with no "." or ".." on the way, the directory that is probed
-- is `<root>/<dirs>/PlugIns/librescrs`: in a bundle, beside the `MacOS` directory.
pub bundled_dir_lem :
    (dirs : FilePath) (d exe : String)
    → All IsOrdinary dirs
    → IsOrdinary d
    → exe ≢ "/"
    → bundled_dir ("/" ∷ (dirs ++ d ∷ exe ∷ [])) ≡ "/" ∷ (dirs ++ "PlugIns" ∷ "librescrs" ∷ [])
unfolding bundled_dir lexically_normal
bundled_dir_lem dirs d exe h hd he =
    rw (parent_path-append ("/" ∷ dirs) d exe he)
      (rw (append_assoc dirs (d ∷ []) (".." ∷ tail_dirs), normal_from-up dirs d h hd))
