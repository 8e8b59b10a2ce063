-- ===== src/Base/FilePath.antt =====
-- What the program uses of Go's `path` package.
use Prim.Native.String.{String, ◌++◌ as ◌<>◌}
use mathlib.Core.Path.{◌≡◌, refl}
use mathlib.Core.Bool.{Bool, ◌||◌}
use mathlib.Core.List.{List, [], ◌∷◌, reverse}
use text.Mathlib.Text.{starts_with}
use cloud_provider_kind.Base.Equality.{◌==◌, string_eq, char_eq, if◌then◌else◌}
use cloud_provider_kind.Base.Text.{split, join}

-- `..` behind the elements `kept`, the last one in front.
abbrev go_up : Bool → List String → List String
go_up rooted [] = if rooted then [] else ".." ∷ []
go_up rooted (p ∷ kept) = if p == ".." then ".." ∷ p ∷ kept else kept

clean_parts : Bool → List String → List String → List String
clean_parts rooted kept [] = reverse kept
clean_parts rooted kept (p ∷ ps) =
    clean_parts rooted
      (if p == "" || p == "." then kept else if p == ".." then go_up rooted kept else p ∷ kept) ps

-- `path.Clean`
unfoldable pub clean : String → String
unfolding clean_parts join split
clean s =
    let rooted = starts_with s "/" in
    let body = join (clean_parts rooted [] (split s "/")) "/" in
    if rooted then "/" <> body else if body == "" then "." else body

-- `path.Join` of two elements.
unfoldable pub path_join : String → String → String
unfolding clean
path_join dir file =
    if dir == ""
    then if file == "" then "" else clean file
    else if file == ""
    then clean dir
    else clean (dir <> ("/" <> file))

path_join_of_logs : path_join "/tmp//logs/" "default_web.log" ≡ "/tmp/logs/default_web.log"
unfolding path_join string_eq char_eq
path_join_of_logs = refl
