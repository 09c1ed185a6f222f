-- ===== src/Client/Quote/Paths.antt =====
-- Which file a quoted remote path of src/client.rs addresses.
use shell_proxy.Prelude.{◌&&◌, [], ◌∷◌, ◌++◌, ◌==◌, if◌then◌else◌, Text}

-- The path that a text stands for: the home for a leading `~` alone or in front of a slash.
abbrev pub expand_home : Text → Text → Text
expand_home home [] = []
expand_home home (c ∷ []) = if c == b'~' then home else c ∷ []
expand_home home (c ∷ d ∷ []) = if (c == b'~') && (d == b'/') then home else c ∷ d ∷ []
expand_home home (c ∷ d ∷ e ∷ s) =
    if (c == b'~') && (d == b'/') then home ++ b'/' ∷ e ∷ s else c ∷ d ∷ e ∷ s
