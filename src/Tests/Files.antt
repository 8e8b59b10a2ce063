-- ===== src/Tests/Files.antt =====
-- The files of a container that runs the program's commands.
use cloud_provider_kind.Base.{
  String, ◌==◌, ==-self, ==-ne, ◌≡◌, ◌≢◌, refl, string_eq, char_eq, nat_eq, if◌then◌else◌, Option,
  some, none, [], ◌∷◌,
}
use cloud_provider_kind.LoadBalancer.Proxy.Update.{proxy_config_path_lds, proxy_config_path_cds}
use cloud_provider_kind.LoadBalancer.Proxy.Update.Files.{Files, write_call, move_call, temporary}
use cloud_provider_kind.LoadBalancer.Proxy.Update.Waits.{IsWait, lines, asked, budget}
use cloud_provider_kind.Tests.Fixtures.{env, word}
use cloud_provider_kind.World.{Trace, Action, Answer, run}

-- The file of the container that a file had the content of before `mv`.
unfoldable pub source_of : String → String
source_of file =
    if file == proxy_config_path_lds
    then temporary proxy_config_path_lds
    else if file == proxy_config_path_cds
    then temporary proxy_config_path_cds
    else file

-- A command with an input is a write, and `exec` without one is the `mv`.
unfoldable pub content : Trace → String → String → Option String
unfolding word source_of
content [] name file = none
content (run argv (some text) ∷ h) name file =
    if word 4 argv == name
    then (if file == word 7 argv then some text else content h name file)
    else content h name file
content (run argv none ∷ h) name file =
    let moved = content h name (source_of file) in
    let same = content h name file in
    if word 1 argv == "exec" then (if word 3 argv == name then moved else same) else same
content (a ∷ h) name file = content h name file

content-write :
    (h : Trace) (name path text : String)
    → content (write_call "docker" name path text ∷ h) name (temporary path) ≡ some text
unfolding content string_eq
content-write h name path text =
    rw (==-self {A = String} name, ==-self {A = String} (temporary path)) refl

content-other :
    (h : Trace) (name path text file : String)
    → file ≢ temporary path
    → content (write_call "docker" name path text ∷ h) name file ≡ content h name file
unfolding content string_eq
content-other h name path text file differs =
    rw (==-self {A = String} name, ==-ne file (temporary path) differs) refl

content-move :
    (h : Trace) (name file : String)
    → content (move_call "docker" name ∷ h) name file ≡ content h name (source_of file)
unfolding content string_eq
content-move h name file = rw (==-self {A = String} name) refl

source_of_lds : source_of proxy_config_path_lds ≡ temporary proxy_config_path_lds
unfolding source_of string_eq
source_of_lds = refl

source_of_cds : source_of proxy_config_path_cds ≡ temporary proxy_config_path_cds
unfolding source_of string_eq
source_of_cds = refl

content-wait :
    (h : Trace) (a : Action) (name file : String)
    → IsWait a
    → content (a ∷ h) name file ≡ content h name file
unfolding content
content-wait h _ name file (lines argv) = refl
content-wait h _ name file (asked url) = refl
content-wait h _ name file (budget interval timeout) = refl

-- They are kept in this way whatever the calls answer.
pub files : (answers : Trace → (a : Action) → Answer a) → Files (record env { answer = answers })
files answers = record {
  content = content;
  write_lem = λ h name path text _. content-write h name path text;
  write_other = content-other;
  move_cds = λ h name _. rw (content-move h name proxy_config_path_cds, source_of_cds) refl;
  move_lds = λ h name _. rw (content-move h name proxy_config_path_lds, source_of_lds) refl;
  wait_keeps = content-wait;
}
