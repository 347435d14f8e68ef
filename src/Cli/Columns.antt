-- ===== src/Cli/Columns.antt =====
-- The columns of the tables of `kestrai get`: internal/cli/get.go, and `durationShort` of
-- internal/cli/output.go.
pub mod Goal
pub mod Ready
use kestrai.Prelude.{
  ℕ, zero, suc, ◌%◌, ◌+◌, ◌-◌, ◌*◌, ◌/◌, ◌^◌, ◌==◌, Bool, true, false, Option, none, some, List, [],
  ◌∷◌, ◌++◌, map, leb, ltb, length, take, if◌then◌else◌,
}
use kestrai.Text.{Str, codes, str_eq}
use kestrai.Int64.{format_int}
use kestrai.Api.{
  Project, Workflow, WorkflowStatus, Condition, ObjectMeta, get_conditions, get_name, get_project,
}
use kestrai.Api.Meta.{creation_timestamp_of_object_meta, tenant_id_of_object_meta}
use kestrai.Api.Projects.{display_name_of_project_spec}
use kestrai.Api.Workflows.{goal_of_workflow_spec}

-- `conditionState`
abbrev pub ready_status : List Condition → Str
ready_status [] = codes "-"
ready_status (c ∷ conditions) =
    let later = ready_status conditions in if str_eq c.type (codes "Ready") then c.status else later

unfoldable pub condition_state : Option WorkflowStatus → Str
condition_state st = ready_status (get_conditions st)

abbrev spaced : ℕ → ℕ
spaced c = if c == b'\n' then b' ' else c

-- `strings.ReplaceAll(s, "\n", " ")`
unfoldable pub one_line : Str → Str
one_line s = map spaced s

-- The three bytes of `…`.
abbrev pub ellipsis : Str
ellipsis = 226 ∷ 128 ∷ 166 ∷ []

-- `truncate`, for `n` at least 1
unfoldable pub truncate : Str → ℕ → Str
truncate s n =
    let line = one_line s in if leb (length line) n then line else take (n - 1) line ++ ellipsis

abbrev pub second : ℕ
second = 1000000000

-- The largest power of two that is at most `n`, or `p` if that is more.
abbrev pub binade : ℕ → ℕ → ℕ → ℕ
binade zero p n = p
binade (suc f) p n = let larger = binade f (2 * p) n in if leb (2 * p) n then larger else p

-- The float64 sum of `n` units and the float64 quotient of `rest` by the unit rounds up to `n + 1`:
-- the sum does if the quotient is at most half a step of the binade of `n` below 1, the quotient is
-- rounded to steps of 2 ^ -53 itself.
abbrev pub rounds_up : ℕ → ℕ → ℕ → Bool
rounds_up unit n rest = leb ((unit - rest) * 2 ^ 54) (unit * (2 * binade 64 1 n + 1))

-- `int(d.Seconds())` and its like. A Duration gives a float64, which is cut towards zero; a very long
-- one that lacks a few nanoseconds of a unit has been rounded up to it.
abbrev pub whole : ℕ → ℕ → ℕ
whole unit d = let n = d / unit in if rounds_up unit n (d % unit) then n + 1 else n

-- The largest time.Duration; `time.Since` stops there.
abbrev pub max_duration : ℕ
max_duration = 2 ^ 63 - 1

abbrev pub elapsed : ℕ → Str
elapsed d =
    if ltb d (60 * second)
    then format_int (whole second d) ++ codes "s"
    else if ltb d (3600 * second)
    then format_int (whole (60 * second) d) ++ codes "m"
    else if ltb d (86400 * second)
    then format_int (whole (3600 * second) d) ++ codes "h"
    else format_int (whole (3600 * second) d / 24) ++ codes "d"

abbrev pub at_most : ℕ → ℕ → ℕ
at_most most d = if leb d most then d else most

-- A negative duration has a sign, unless it rounds to zero.
abbrev pub ahead : ℕ → Str
ahead d =
    let n = whole second d in if n == 0 then codes "0s" else codes "-" ++ format_int n ++ codes "s"

-- `durationShort`, with the clock at the call; times are nanoseconds.
unfoldable pub duration_short : ℕ → ℕ → Str
duration_short now t =
    if leb t now
    then elapsed (at_most max_duration (now - t))
    else ahead (at_most (max_duration + 1) (t - now))

-- `age`
unfoldable pub age : ℕ → Option ObjectMeta → Str
age now m = elim (creation_timestamp_of_object_meta m) [
  | none ↦ codes "-"
  | some t ↦ duration_short now t
]

abbrev pub project_header : List Str
project_header = codes "NAME" ∷ codes "DISPLAY" ∷ codes "TENANT" ∷ codes "AGE" ∷ []

unfoldable pub project_row : ℕ → Project → List Str
project_row now p =
    get_name p.metadata
    ∷ display_name_of_project_spec p.spec
    ∷ tenant_id_of_object_meta p.metadata
    ∷ age now p.metadata
    ∷ []

abbrev pub workflow_header : List Str
workflow_header = codes "PROJECT" ∷ codes "NAME" ∷ codes "READY" ∷ codes "GOAL" ∷ codes "AGE" ∷ []

unfoldable pub workflow_row : ℕ → Workflow → List Str
workflow_row now w =
    get_project w.metadata
    ∷ get_name w.metadata
    ∷ condition_state w.status
    ∷ truncate (goal_of_workflow_spec w.spec) 40
    ∷ age now w.metadata
    ∷ []
