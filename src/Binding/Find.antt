-- ===== src/Binding/Find.antt =====
-- What find_loaded_so of csrc/instant_tensor/dl_binding/dl_binding_utils.hpp answers.
use instant_tensor.Base.{
  ℕ, ◌≡◌, refl, sym, ap, subst, inl, inr, Option, none, some, Option-cases, List, [], ◌∷◌, ◌++◌,
  arith,
}
use instant_tensor.Binding.{
  Linker, Bytes, from_first, so_prefix, trimmed, dlopen_named, dlopen_path, open_line, find_in,
  find_loaded_so,
}

-- No line of the list gives a handle.
abbrev pub AllFail : Linker → Bytes → List Bytes → Type 0
AllFail linker name [] = Unit
AllFail linker name (line ∷ lines) = (open_line linker name line ≡ none) × AllFail linker name lines

-- The handle is that of the path of the first line that gives one.
abbrev pub IsFound : Linker → Bytes → List Bytes → Option ℕ → Type 0
IsFound linker name lines none = AllFail linker name lines
IsFound linker name lines (some handle) =
    (before : List Bytes) × (line : Bytes) × (after : List Bytes) × (path : Bytes) × (lines
      ≡ before ++ line ∷ after)
    × (AllFail linker name before)
    × (from_first (47 ∷ []) line ≡ some path)
    × (linker.dlopen (trimmed path) ≡ some handle)
    × ((found : Bytes) × (from_first (so_prefix name) path ≡ some found))

-- What the path of a line gives.
abbrev IsOpened : Linker → Bytes → ℕ → Option Bytes → Type 0
IsOpened linker name handle line_path =
    (path : Bytes) × (line_path ≡ some path)
    × (linker.dlopen (trimmed path) ≡ some handle)
    × ((found : Bytes) × (from_first (so_prefix name) path ≡ some found))

dlopen_named_lem :
    (linker : Linker) (path : Bytes) (handle : ℕ) (named : Option Bytes)
    → dlopen_named linker path named ≡ some handle
    → (linker.dlopen (trimmed path) ≡ some handle) × ((found : Bytes) × (named ≡ some found))
dlopen_named_lem linker path handle none e = absurd (ground arith)
dlopen_named_lem linker path handle (some found) e = (e, (found, refl))

dlopen_path_lem :
    (linker : Linker) (name : Bytes) (handle : ℕ) (line_path : Option Bytes)
    → dlopen_path linker name line_path ≡ some handle
    → IsOpened linker name handle line_path
dlopen_path_lem linker name handle none e = absurd (ground arith)
dlopen_path_lem linker name handle (some path) e =
    let (opened, named) =
      dlopen_named_lem linker path handle (from_first (so_prefix name) path) e in
    (path, refl, opened, named)

open_line_lem :
    (linker : Linker) (name line : Bytes) (handle : ℕ)
    → open_line linker name line ≡ some handle
    → IsOpened linker name handle (from_first (47 ∷ []) line)
unfolding open_line
open_line_lem linker name line handle e =
    dlopen_path_lem linker name handle (from_first (47 ∷ []) line) e

find_skip :
    (linker : Linker) (name line : Bytes) (lines : List Bytes)
    → open_line linker name line ≡ none
    → find_in linker name (line ∷ lines) ≡ find_in linker name lines
unfolding find_in
find_skip linker name line lines e = rw (e, find_in) refl

find_take :
    (linker : Linker) (name line : Bytes) (lines : List Bytes) (handle : ℕ)
    → open_line linker name line ≡ some handle
    → find_in linker name (line ∷ lines) ≡ some handle
unfolding find_in
find_take linker name line lines handle e = rw (e, find_in) refl

IsFound-skip :
    (linker : Linker) (name line : Bytes) (lines : List Bytes) (out : Option ℕ)
    → open_line linker name line ≡ none
    → IsFound linker name lines out
    → IsFound linker name (line ∷ lines) out
IsFound-skip linker name line lines none e all = (e, all)
IsFound-skip linker name line lines (some handle) e (before, l, after, path, f, all, g, h, i) =
    (line ∷ before, l, after, path, ap (◌∷◌ line) f, (e, all), g, h, i)

find_in_lem :
    (linker : Linker) (name : Bytes) (lines : List Bytes)
    → IsFound linker name lines (find_in linker name lines)
unfolding find_in
find_in_lem linker name [] = tt
find_in_lem linker name (line ∷ lines) = elim (Option-cases (open_line linker name line)) [
  | inl skipped ↦
      subst (IsFound linker name (line ∷ lines)) (sym (find_skip linker name line lines skipped))
        (IsFound-skip linker name line lines _ skipped (find_in_lem linker name lines))
  | inr (handle, taken) ↦
      let (path, e, opened, named) = open_line_lem linker name line handle taken in
      subst (IsFound linker name (line ∷ lines))
        (sym (find_take linker name line lines handle taken))
        ([], line, lines, path, refl, tt, e, opened, named)
]

-- `find_loaded_so` answers the handle that dlopen gives for the first line of the maps that has a
-- path, with lib<name>.so in it, which dlopen opens, and null where no line does.
pub find_loaded_so_lem :
    (linker : Linker) (name : Bytes) → IsFound linker name linker.maps (find_loaded_so linker name)
unfolding find_loaded_so
find_loaded_so_lem linker name = find_in_lem linker name linker.maps
