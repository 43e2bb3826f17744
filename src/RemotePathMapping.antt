-- ===== src/RemotePathMapping.antt =====
-- internal/remotepathmapping/remotepathmapping.go: a download client's path on this host.
pub mod Directories
pub mod Translation
use sonarr.Common.{
  ℕ, ◌==◌, Text, codes, text_eq, to_lower, equal_fold, cut_prefix, Bool, true, false, ◌||◌, List,
  [], ◌∷◌, ◌++◌, Option, none, some, if◌then◌else◌,
}

pub record Mapping : Type 0 where
  pub id : ℕ
  pub host : Text
  pub remote_path : Text
  pub local_path : Text

-- `/` or `\`.
unfoldable pub is_sep : ℕ → Bool
is_sep c = c == 47 || c == 92

unfoldable pub strip_trailing_sep : Text → Text
unfolding is_sep
strip_trailing_sep [] = []
strip_trailing_sep (c ∷ []) = if is_sep c then [] else c ∷ []
strip_trailing_sep (c ∷ d ∷ p) = c ∷ strip_trailing_sep (d ∷ p)

-- The rest of the path behind the prefix begins with a separator, or is empty.
unfoldable pub at_boundary : Text → Option Text → Option Text
unfolding is_sep
at_boundary lp none = none
at_boundary lp (some []) = some (lp ++ [])
at_boundary lp (some (c ∷ rest)) = if is_sep c then some (lp ++ c ∷ rest) else none

-- The body of the loop for a mapping of the host.
unfoldable pub rewrite_path : Mapping → Text → Option Text
unfolding strip_trailing_sep at_boundary
rewrite_path m remote_path =
    let rp = strip_trailing_sep m.remote_path in
    let lp = strip_trailing_sep m.local_path in
    if equal_fold m.remote_path remote_path || equal_fold rp remote_path
    then some m.local_path
    else at_boundary lp (cut_prefix rp remote_path)

first_of : Option Text → Text → Text
first_of none rest = rest
first_of (some path) rest = path

unfoldable pub translate_from : List Mapping → Text → Text → Text
unfolding rewrite_path first_of
translate_from [] host_norm remote_path = remote_path
translate_from (m ∷ mappings) host_norm remote_path =
    let rest = translate_from mappings host_norm remote_path in
    if text_eq (to_lower m.host) host_norm then first_of (rewrite_path m remote_path) rest else rest

unfoldable pub translate : List Mapping → Text → Text → Text
unfolding translate_from
translate mappings [] remote_path = remote_path
translate mappings (h ∷ host) [] = []
translate mappings (h ∷ host) (c ∷ path) = translate_from mappings (to_lower (h ∷ host)) (c ∷ path)
