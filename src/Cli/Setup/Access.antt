-- ===== src/Cli/Setup/Access.antt =====
-- Who may call what: on the server of `kestrai up`, and on one with a static token.
use kestrai.Prelude.{
  ◌≡◌, ◌≢◌, refl, sym, ◌∙◌, Bool, true, false, Option, none, some, [], ◌∷◌, ok, Bool-cases, inl,
  inr, if◌then◌else◌,
}
use kestrai.Text.{Str, codes, str_eq, is_empty}
use kestrai.Text.Trim.{IsGraphic}
use kestrai.Store.Contract.{Store}
use kestrai.Api.{Project, ProjectSpec, Workflow, WorkflowSpec}
use kestrai.Auth.{
  Identity, Headers, StaticToken, new_static_token, static_token, default_tenant, local_dev,
  local_dev_name,
}
use kestrai.Auth.Interceptor.{
  is_public, unary, bearer_token, token_of, header_values, new_interceptor, authenticate,
}
use kestrai.Auth.Interceptor.Guards.{
  token_identity, or_default, FailsWith, unary_guards, bearer_token_reads,
}
use kestrai.Server.Status.{Code}
use kestrai.Server.Wire.{Wire, ProtoEqual}
use kestrai.Server.Resources.{resolve_tenant}
use kestrai.Server.System.{Server, new_server}
use kestrai.Server.Dispatch.{
  Request, Moment, full_method, method_name, service_name, handle, handle_crud, serve,
}
use kestrai.Cli.Setup.{
  ClientConfig, system_methods, up_interceptor, up_server, request_metadata, call_headers,
}

-- The calls of SystemService.
abbrev pub is_system : Request → Bool
is_system Request.get_health = true
is_system Request.get_version = true
is_system _ = false

system_methods_iff : (req : Request) → is_public system_methods (full_method req) ≡ is_system req
unfolding is_public system_methods full_method method_name service_name str_eq
system_methods_iff Request.get_health = refl
system_methods_iff Request.get_version = refl
system_methods_iff (Request.create_project p) = refl
system_methods_iff (Request.update_project p) = refl
system_methods_iff (Request.get_project name) = refl
system_methods_iff (Request.delete_project name) = refl
system_methods_iff (Request.list_projects req) = refl
system_methods_iff (Request.list_workflows req) = refl
system_methods_iff (Request.create_workflow w) = refl
system_methods_iff (Request.update_workflow w) = refl
system_methods_iff (Request.get_workflow scope name) = refl
system_methods_iff (Request.delete_workflow scope name) = refl

-- A client sends its token as it is, if it is printable ASCII without spaces.
bearer_token-call_headers :
    (cfg : ClientConfig) → IsGraphic cfg.token → bearer_token (call_headers cfg) ≡ cfg.token
unfolding call_headers request_metadata bearer_token token_of header_values
bearer_token-call_headers cfg graphic = sent cfg.token graphic
  where
    sent :
        (token : Str)
        → IsGraphic token
        → bearer_token (if is_empty token then [] else request_metadata token) ≡ token
    sent [] g = refl
    sent (c ∷ token) g = bearer_token_reads (codes "Bearer ") (c ∷ token) [] [] refl refl g

abbrev pub local_identity : Identity
local_identity = record {
  subject = local_dev_name;
  tenant_id = default_tenant;
  groups = [];
  extra = [];
}

module _ {S D : Type 0} (st : Store S D) (projects : Wire D Project) (workflows : Wire D Workflow)
    (same_project : ProtoEqual (Option ProjectSpec))
    (same_workflow : ProtoEqual (Option WorkflowSpec)) where
  -- On the server of `kestrai up` every call runs its handler over the store for the default tenant,
  -- whatever its headers are; it needs no token.
  pub up_admits :
      (md : Headers) (at : Moment S) (req : Request) (s : S)
      → (id : Option Identity) × (resolve_tenant id ≡ default_tenant)
        × (serve st projects workflows same_project same_workflow up_server up_interceptor md at req
              s
            ≡ handle_crud st projects workflows same_project same_workflow up_server at req id s)
  unfolding serve unary up_interceptor new_interceptor authenticate local_dev up_server new_server
      handle resolve_tenant
  up_admits md at req s = elim (Bool-cases (is_system req)) [
    | inl system ↦ (none, refl, rw (system_methods_iff req ∙ system) refl)
    | inr other ↦ (some local_identity, refl, rw (system_methods_iff req ∙ other) refl)
  ]

  -- On a server with a static token a client runs a call of the project or the workflow service, for
  -- the tenant of the token, exactly if it is configured with that token; with none or another it
  -- fails with Unauthenticated and changes nothing. The calls of the system service run in any case.
  -- The client's token is printable ASCII without spaces, or empty.
  pub client_access :
      (srv : Server) (secret : Str) (tenant : Option Str) (t : StaticToken) (cfg : ClientConfig)
      (at : Moment S) (req : Request) (s : S)
      → new_static_token secret tenant ≡ ok t
      → IsGraphic cfg.token
      → let out =
          serve st projects workflows same_project same_workflow srv
            (new_interceptor (static_token t) system_methods)
            (call_headers cfg)
            at
            req
            s in
        let run = handle st projects workflows same_project same_workflow srv at req in
        (is_system req ≡ true → out ≡ run none s)
        × (is_system req ≡ false
            → cfg.token ≡ secret
            → out ≡ run (some (token_identity (or_default tenant))) s)
        × (is_system req ≡ false → cfg.token ≢ secret → FailsWith Code.unauthenticated s out)
  unfolding serve
  client_access srv secret tenant t cfg at req s made graphic =
      let read = bearer_token-call_headers cfg graphic in
      let guards : is_system req ≡ false → _ = λ other.
        unary_guards t system_methods (call_headers cfg) secret tenant (full_method req) none
          (handle st projects workflows same_project same_workflow srv at req) s made
          (system_methods_iff req ∙ other) in
      (
        (λ system. unfold unary new_interceptor in rw (system_methods_iff req ∙ system) refl),
        (λ other same. (guards other).0 (read ∙ same)),
        (λ other differs. (guards other).1 (λ e. differs (sym read ∙ e))),
      )
