-- ===== src/Cli/Get/Tables.antt =====
-- What the table of `kestrai get project` shows, against what the store holds.
use kestrai.Prelude.{
  ℕ, ◌≡◌, refl, ap, ◌∙◌, ◌↔◌, Option, none, some, List, [], ◌∷◌, map, Result, ok, err, inl, inr, In,
}
use kestrai.Text.{Str}
use kestrai.Text.Trim.{trim_space}
use kestrai.Store.Contract.{Store, Contract}
use kestrai.Api.{Project}
use kestrai.Auth.{Identity}
use kestrai.Server.Status.{Status}
use kestrai.Server.Wire.{Wire}
use kestrai.Server.Selector.{parse_label_selector}
use kestrai.Server.Resources.{resolve_tenant, kind_project}
use kestrai.Server.Projects.{list_projects}
use kestrai.Server.Projects.Listing.{Held, list_projects-Held, whole_request}
use kestrai.Cli.Documents.{Formats}
use kestrai.Cli.Codec.{Message}
use kestrai.Cli.Columns.{project_header, project_row}
use kestrai.Cli.Get.{Printed, Shown, get_projects, render_list, rendered}

-- The rows of a table, none where the verb prints that there are no resources.
abbrev pub rows_of : Printed → Option (List (List Str))
rows_of (Printed.table header rows) = some rows
rows_of (Printed.documents docs) = none
rows_of Printed.no_resources = some []

In-map :
    {A B : Type 0} (f : A → B) (xs : List A) (y : B)
    → In y (map f xs) ↔ ((x : A) × In x xs × (y ≡ f x))
In-map f [] y = ((λ m. absurd m), (λ (x, m, e). m))
In-map f (x ∷ xs) y =
    let (to, from) = In-map f xs y in
    (
      (λ m. elim m [
        | inl e ↦ (x, inl refl, e)
        | inr there ↦ let (z, m', e) = to there in (z, inr m', e)
      ]),
      (λ (z, m, e). elim m [
        | inl here ↦ inl (e ∙ ap f here)
        | inr there ↦ inr (from (z, there, e))
      ]),
    )

module _ {V : Type 0} (f : Formats V Str) {S D : Type 0} (st : Store S D) (wire : Wire D Project)
    (c : Contract st) (id : Option Identity) (s : S) (now : ℕ) where
  -- A row for each project that the store holds for the tenant, and no other.
  abbrev pub Shows : List (List Str) → Type 0
  Shows rows =
      (row : List Str)
      → In row rows
        ↔ ((p : Project) × Held st wire c (resolve_tenant id) [] s p × (row ≡ project_row now p))

  items_Shows :
      (items : List Project) (token : Str)
      → list_projects st wire id s (whole_request st wire []) ≡ ok (items, token)
      → Shows (map (project_row now) items)
  unfolding parse_label_selector trim_space
  items_Shows items token listed row =
      let (to, from) = In-map (project_row now) items row in
      (
        (λ m.
            let (p, member, e) = to m in
            (p, (list_projects-Held st wire c id s [] [] items token p refl listed).0 member, e)),
        (λ (p, held, e).
            from
              (p, (list_projects-Held st wire c id s [] [] items token p refl listed).1 held, e)),
      )

  list_Shows :
      (items : List Project)
      → Shows (map (project_row now) items)
      → let out =
          render_list f Message.project (project_row now) project_header kind_project items [] in
        (rows : List (List Str)) × (rows_of out.printed ≡ some rows) × Shows rows
  unfolding render_list
  list_Shows [] h = ([], refl, h)
  list_Shows (p ∷ items) h = (_, refl, h)

  abbrev shown_list : List Project × Str → Shown
  shown_list (items, token) =
      render_list f Message.project (project_row now) project_header kind_project items []

  answer_Shows :
      (r : Result Status (List Project × Str))
      → list_projects st wire id s (whole_request st wire []) ≡ r
      → (rendered f r shown_list).error ≡ none
      → (rows : List (List Str)) × (rows_of (rendered f r shown_list).printed ≡ some rows)
        × Shows rows
  answer_Shows (err e) failed clean = absurd cc
  answer_Shows (ok (items, token)) listed clean = list_Shows items (items_Shows items token listed)

  -- `kestrai get project`, where it does not fail, prints a table with a row for each project of the
  -- caller's tenant that the store holds, and no other row.
  pub get_projects-Shows :
      let out = get_projects f st id s now wire [] [] in
      out.error ≡ none → (rows : List (List Str)) × (rows_of out.printed ≡ some rows) × Shows rows
  unfolding get_projects
  get_projects-Shows clean =
      answer_Shows (list_projects st wire id s (whole_request st wire [])) refl clean
