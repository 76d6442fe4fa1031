-- ===== src/Stores/Remote/Hosts.antt =====
-- stores/dd.go: the commands of a `Dd` store on this host, and on another one by ssh.
use Prim.Native.Char.{Char, code}
use Prim.Native.String.{String, ◌++◌ as ◌<>◌}
use scat.Prelude.{
  ℕ, ◌≡◌, ap, ◌∙◌, inl, inr, Bool, true, false, ◌||◌, List, [], ◌∷◌, ◌++◌, map, arith, ◌==◌,
  if◌then◌else◌, Bool-cases,
}
use scat.Procs.Commands.{Cmd}
use scat.Stores.Disk.{Dir, Path_}
use scat.Stores.Remote.{Env, Dd}

abbrev cmd_of : List String → Env → Cmd
cmd_of argv env = record { argv = argv; env = env; has_stderr = false }

-- `exec.Command` and `defaultStrCommand`, where `Command` and `StrCommand` are nil.
abbrev pub local_command : String → List String → Cmd
local_command name args = cmd_of (name ∷ args) []

abbrev pub local_str_command : Env → String → Cmd
local_str_command env str = cmd_of ("sh" ∷ "-c" ∷ str ∷ []) env

abbrev pub local_dd : Dir → (Path_ → String) → Dd
local_dd dir join = record {
  dir = dir;
  join = join;
  command = local_command;
  str_command = local_str_command;
}

-- `strings.Replace(arg, "\", "\\", -1)`
unfoldable pub escape : String → String
escape String.[] = String.[]
escape (String.◌∷◌ c s) =
    let rest = escape s in
    if code c == b'\\' then String.◌∷◌ c (String.◌∷◌ c rest) else String.◌∷◌ c rest

-- A variable as `name=value`.
abbrev assignment : String × String → String
assignment v = v.0 <> "=" <> v.1

-- `NewScp`
unfoldable pub new_scp : String → Dir → (Path_ → String) → Dd
unfolding escape
new_scp host dir join = record {
  dir = dir;
  join = join;
  command = λ name args. cmd_of ("ssh" ∷ host ∷ name ∷ map escape args) [];
  str_command = λ env str. cmd_of ("ssh" ∷ host ∷ (map assignment env ++ str ∷ [])) [];
}

-- The command of `findDirLister`, with the decimal digits of a depth.
unfoldable pub find_cmd : Dd → (ℕ → String) → String → ℕ → Cmd
find_cmd s digits dir depth = s.command "find" (
    dir
    ∷ "-mindepth"
    ∷ digits depth
    ∷ "-maxdepth"
    ∷ digits depth
    ∷ "-type"
    ∷ "f"
    ∷ "-printf"
    ∷ "%s\\0%p\\0"
    ∷ [])

-- How a shell reads a word: a backslash stands for the character behind it, and plain characters
-- for themselves.
pub record Shell (plain : Char → Bool) (reads : String → String) : Type 0 where
  pub empty : reads String.[] ≡ String.[]
  pub same :
      (c : Char) (s : String)
      → plain c ≡ true
      → (code c == b'\\') ≡ false
      → reads (String.◌∷◌ c s) ≡ String.◌∷◌ c (reads s)
  pub quoted :
      (c d : Char) (s : String)
      → (code c == b'\\') ≡ true
      → reads (String.◌∷◌ c (String.◌∷◌ d s)) ≡ String.◌∷◌ d (reads s)

abbrev pub AllPlain : (Char → Bool) → String → Type 0
AllPlain plain String.[] = Unit
AllPlain plain (String.◌∷◌ c s) = (((code c == b'\\') || plain c) ≡ true) × AllPlain plain s

-- The shell at the host reads an argument as it was given, if its characters are plain ones and
-- backslashes.
pub reads-escape :
    (plain : Char → Bool) (reads : String → String) (s : String)
    → Shell plain reads
    → AllPlain plain s
    → reads (escape s) ≡ s
unfolding escape
reads-escape plain reads String.[] shell h = shell.empty
reads-escape plain reads (String.◌∷◌ c s) shell h = elim (Bool-cases (code c == b'\\')) [
  | inl back ↦
      rw (back, escape)
        (shell.quoted c c (escape s) back
          ∙ ap (String.◌∷◌ c) (reads-escape plain reads s shell h.1))
  | inr other ↦
      rw (other, escape)
        (shell.same c (escape s) (ground (arith, h.0)) other
          ∙ ap (String.◌∷◌ c) (reads-escape plain reads s shell h.1))
]
