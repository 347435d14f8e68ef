-- ===== src/Server/Projects/Listing.antt =====
-- What `ListProjects` answers, against what the store holds.
use kestrai.Prelude.{
  ◌≡◌, refl, ap, sym, subst, ◌∙◌, ◌↔◌, true, Option, some, List, [], ◌∷◌, ok, map_err, map_err-ok,
  >>=-eq-ok, ok_pair-injective, inl, inr, In,
}
use kestrai.Text.{Str}
use kestrai.Int64.{sign_extend32}
use kestrai.Store.{Key, Record, Labels, ListOptions}
use kestrai.Store.Engine.{selects}
use kestrai.Store.Listing.{matches_labels, project_filter}
use kestrai.Store.Contract.{Store, Contract}
use kestrai.Api.{Project, ListRequest}
use kestrai.Auth.{Identity}
use kestrai.Server.Status.{store_err}
use kestrai.Server.Wire.{Wire}
use kestrai.Server.Selector.{parse_label_selector}
use kestrai.Server.Resources.{kind_project, resolve_tenant}
use kestrai.Server.Projects.{list_projects, decode_project, decode_projects}

module _ {S D : Type 0} (st : Store S D) (wire : Wire D Project) where
  -- A page holds the projects that its records decode to.
  decode_projects-In :
      (recs : List (Record D)) (items : List Project) (p : Project)
      → decode_projects st wire recs ≡ ok items
      → In p items ↔ ((r : Record D) × In r recs × (decode_project st wire r ≡ ok p))
  unfolding decode_projects
  decode_projects-In [] [] p e = ((λ m. absurd m), (λ (r, m, d). m))
  decode_projects-In [] (q ∷ items) p e = absurd cc
  decode_projects-In (rec ∷ recs) items p e =
      let (q, first, e1) = >>=-eq-ok (decode_project st wire rec) _ e in
      let (rest, later, e2) = >>=-eq-ok (decode_projects st wire recs) _ e1 in
      let (to, from) = decode_projects-In recs rest p later in
      let same : q ∷ rest ≡ items = cc in
      subst
        (λ xs. In p xs ↔ ((r : Record D) × In r (rec ∷ recs) × (decode_project st wire r ≡ ok p)))
        same
        (
          (λ m. elim m [
            | inl here ↦ (rec, inl refl, first ∙ ap ok (sym here))
            | inr there ↦ let (r, m', d) = to there in (r, inr m', d)
          ]),
          (λ (r, m, d). elim m [
            | inl here ↦
                let read : decode_project st wire rec ≡ ok p =
                  ap (decode_project st wire) (sym here) ∙ d in
                inl (let same_p : q ≡ p = cc in sym same_p)
            | inr there ↦ inr (from (r, there, d))
          ]),
        )

  -- A request for everything that a selector selects.
  abbrev pub whole_request : Str → ListRequest
  whole_request selector = record {
    project = [];
    label_selector = selector;
    page_size = 0;
    continue_token = [];
  }

  module _ (c : Contract st) where
    open c use {view}

    -- A project that the store holds for a tenant, with the labels of a selector.
    pub record Held (tenant : Str) (selector : Labels) (s : S) (p : Project) : Type 0 where
      pub key : Key
      pub rec : Record D
      pub held : view s key ≡ some (ok rec)
      pub wanted : selects tenant kind_project (project_filter []) key ≡ true
      pub labelled : matches_labels rec.labels selector ≡ true
      pub decoded : decode_project st wire rec ≡ ok p

    abbrev options : Str → Labels → ListOptions
    options tenant selector = record {
      tenant_id = tenant;
      kind = kind_project;
      project = [];
      label_selector = selector;
      limit = 0;
      continue_token = [];
    }

    -- A `ListProjects` without a page size and token that succeeds answers exactly the projects of the
    -- caller's tenant that the store holds and whose labels match the selector.
    pub list_projects-Held :
        (id : Option Identity) (s : S) (text : Str) (selector : Labels) (items : List Project)
        (token : Str) (p : Project)
        → parse_label_selector text ≡ ok selector
        → list_projects st wire id s (whole_request text) ≡ ok (items, token)
        → In p items ↔ Held (resolve_tenant id) selector s p
    unfolding list_projects sign_extend32
    list_projects-Held id s text selector items token p parsed e =
        let (sel, parsed', e1) = >>=-eq-ok (parse_label_selector text) _ e in
        let same_sel : sel ≡ selector = cc in
        let asked = options (resolve_tenant id) sel in
        let ((recs, tok), read, e2) = >>=-eq-ok (map_err store_err (st.list s asked)) _ e1 in
        let (decoded_items, decoded, e3) = >>=-eq-ok (decode_projects st wire recs) _ e2 in
        let (same, _) = ok_pair-injective decoded_items items tok token e3 in
        let listed = map_err-ok store_err (st.list s asked) (recs, tok) read in
        let (to, from) = decode_projects-In recs items p (decoded ∙ ap ok same) in
        subst (λ z. In p items ↔ Held (resolve_tenant id) z s p) same_sel
          (
            (λ m.
                let (r, member, d) = to m in
                let (k, held, wanted, labelled) =
                  (c.list_answer s asked recs tok r listed).0 member in
                record {
                  key = k;
                  rec = r;
                  held = held;
                  wanted = wanted;
                  labelled = labelled;
                  decoded = d;
                }),
            (λ h. from (
              h.rec,
              (c.list_answer s asked recs tok h.rec listed).1 (h.key, h.held, h.wanted, h.labelled),
              h.decoded,
            )),
          )
