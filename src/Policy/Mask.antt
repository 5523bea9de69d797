-- ===== src/Policy/Mask.antt =====
-- `mask`: what is left of a secret in an event.
pub mod Hides
use mcpglass.Base.{
  ℕ, List, [], ◌∷◌, ◌++◌, ◌-◌, leb, if◌then◌else◌, length, take, drop, replicate, min,
}
use mcpglass.Base.Text.{Text}

abbrev pub star : ℕ
star = b'*'

-- `s` is the list of `s.chars()`.
unfoldable pub mask : Text → Text
mask s =
    let n = length s in
    if leb n 6
    then replicate n star
    else take 4 s ++ (replicate (min (n - 6) 32) star ++ drop (n - 2) s)
