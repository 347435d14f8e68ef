-- ===== src/Cli/Codec/Kinds.antt =====
-- `normalizeKind` of internal/cli/codec.go, and the strings functions that it calls.
use kestrai.Prelude.{
  ℕ, ◌+◌, ◌-◌, ◌&&◌, [], ◌∷◌, ◌++◌, Result, ok, err, leb, length, take, drop, if◌then◌else◌,
}
use kestrai.Text.{Str, codes, str_eq}
use kestrai.Server.Resources.{kind_project, kind_workflow}

-- `strings.TrimSuffix`
unfoldable pub trim_suffix : Str → Str → Str
trim_suffix suffix s =
    let n = length s - length suffix in
    if leb (length suffix) (length s) && str_eq (drop n s) suffix then take n s else s

abbrev lower_byte : ℕ → ℕ
lower_byte c = if leb b'A' c && leb c b'Z' then c + 32 else c

-- `strings.ToLower` as far as it can make a kind: letters of ASCII, and the Kelvin sign, the one
-- other character that becomes a letter of a kind.
unfoldable pub to_lower : Str → Str
to_lower [] = []
to_lower (c ∷ []) = lower_byte c ∷ []
to_lower (c ∷ d ∷ []) = lower_byte c ∷ lower_byte d ∷ []
to_lower (c ∷ d ∷ e ∷ s) =
    let three = to_lower s in
    let one = to_lower (d ∷ e ∷ s) in
    if str_eq (c ∷ d ∷ e ∷ []) (226 ∷ 132 ∷ 170 ∷ []) then b'k' ∷ three else lower_byte c ∷ one

-- `normalizeKind`; `%q` shows the argument as it is.
unfoldable pub normalize_kind : Str → Result Str Str
normalize_kind arg =
    let name = to_lower (trim_suffix (codes "s") arg) in
    if str_eq name (codes "project")
    then ok kind_project
    else if str_eq name (codes "workflow")
    then ok kind_workflow
    else err (codes "unknown kind " ++ arg ++ codes " (supported: project, workflow)")
