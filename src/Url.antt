-- ===== src/Url.antt =====
-- What `url.Parse` of the Go library gives the server of a URL, and the methods of `strings` that take
-- a URL apart. The parser is a parameter of the code that calls it.
use kdelta.Prelude.{Bool, true, false, ◌&&◌, [], ◌∷◌, ◌==◌, if◌then◌else◌}
use kdelta.Text.{Text}

pub record Url : Type 0 where
  pub scheme : Text
  pub host : Text
  -- the host without a port
  pub hostname : Text
  pub path : Text
  pub raw_query : Text
  pub has_user : Bool

-- `strings.TrimSuffix(s, "/")`
unfoldable pub trim_slash : Text → Text
trim_slash [] = []
trim_slash (c ∷ []) = if c == b'/' then [] else c ∷ []
trim_slash (c ∷ d ∷ s) = c ∷ trim_slash (d ∷ s)

-- `strings.Trim(s, "/")`
abbrev none_left : Text → Bool
none_left [] = true
none_left (c ∷ s) = false

unfoldable pub trim_leading : Text → Text
trim_leading [] = []
trim_leading (c ∷ s) = let rest = trim_leading s in if c == b'/' then rest else c ∷ s

unfoldable pub trim_trailing : Text → Text
trim_trailing [] = []
trim_trailing (c ∷ s) =
    let rest = trim_trailing s in if none_left rest && c == b'/' then [] else c ∷ rest

unfoldable pub trim_slashes : Text → Text
unfolding trim_leading trim_trailing
trim_slashes s = trim_trailing (trim_leading s)
