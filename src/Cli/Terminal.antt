-- ===== src/Cli/Terminal.antt =====
-- internal/cli/output.go, and what the process prints and returns: `Execute` of root.go and the verb
-- of version.go.
use kestrai.Prelude.{
  ℕ, Bool, false, Option, none, some, List, [], ◌∷◌, ◌++◌, Result, ok, err, if◌then◌else◌,
}
use kestrai.Text.{Str, codes}
use kestrai.Server.System.{default_version, default_api_version}
use kestrai.Cli.Setup.{Environment}

abbrev on_terminal : Result Str Bool → Bool
on_terminal (err e) = false
on_terminal (ok is_device) = is_device

abbrev unless_set : Option Str → Bool → Bool
unless_set none b = b
unless_set (some v) b = false

-- `colorEnabled`; the state of the standard error says whether it is a character device.
unfoldable pub color_enabled : Environment → Result Str Bool → Bool
color_enabled env stderr = unless_set (env (codes "NO_COLOR")) (on_terminal stderr)

abbrev pub ansi : Str → Str
ansi code = 27 ∷ codes "[" ++ code ++ codes "m"

-- `colorize`
unfoldable pub colorize : Bool → Str → Str → Str
colorize enabled code s = if enabled then ansi code ++ s ++ ansi (codes "0") else s

-- The lines of `printError`, `statusf` and `dimf`.
unfoldable pub error_line : Bool → Str → Str
error_line enabled text = colorize enabled (codes "31") (codes "error: ") ++ text

-- The check mark is a character of three bytes.
unfoldable pub status_message : Bool → Str → Str
status_message enabled text = colorize enabled (codes "32") (226 ∷ 156 ∷ 147 ∷ codes " ") ++ text

unfoldable pub dim_message : Bool → Str → Str
dim_message enabled text = colorize enabled (codes "2") text

-- `Execute`: the lines on the standard error, and the exit code.
unfoldable pub execute : Bool → Option Str → List Str × ℕ
execute enabled none = ([], 0)
execute enabled (some e) = (error_line enabled e ∷ [], 1)

-- `kestrai version`
unfoldable pub version_line : Str
version_line = codes "kestrai " ++ default_version ++ codes " (" ++ default_api_version ++ codes ")"
