-- ===== src/Lib.antt =====
-- The control plane of Kestrai: an API server over a state store, and a reconciler beside it.
--
-- The program and the files that model it:
--   * internal/store (store.go, sqlite.go) keeps resources in SQLite. Store.antt has the keys,
--     records and errors, Store/Engine the statements of SQL, Store/Columns the encodings of
--     columns, Store/Uid the uids, Store/Operations the calls Create, Get, Update and Delete,
--     Store/Cursor the continue tokens, Store/Listing the call List. Store/Contract has the
--     interface `Store` as a record and what it promises; the other parts know the store through it
--     only. Store/Memory is a database in memory that meets the laws assumed of SQLite.
--     Store/Migrations is migrate.go, Store/Opening the call Open.
--   * internal/server (resources.go, project.go, workflow.go) are the handlers of the API:
--     Server/Resources and Server/Selector for the shared helpers, Server/Projects and
--     Server/Workflows for the services, Server/Status for the gRPC codes.
--   * internal/reconciler (reconciler.go) brings the status of Workflows in line with their specs:
--     Reconciler.antt has a pass, Reconciler/Loop.antt the loop of `Run` around the passes. The API
--     server and the reconciler meet in the store only: Reconciler/Reports.antt follows a Workflow
--     through both.
--   * internal/auth: Auth.antt has identities and the two providers, Auth/Interceptor.antt the
--     interceptor that runs before every handler.
--   * gen/go/kestrai/v1alpha1: Api.antt has the messages, Api/Meta, Api/Projects and Api/Workflows
--     their getters.
--   * internal/server (server.go, system.go): Server/System.antt has the configuration and the system
--     service, Server/Dispatch.antt the calls by method, through the interceptor.
--   * internal/cli: Cli.antt, Cli/Run.antt and Cli/Apply.antt are apply.go, Cli/Documents.antt and
--     Cli/Codec.antt the documents of codec.go, Cli/Get.antt and Cli/Columns.antt get.go,
--     Cli/Terminal.antt output.go, Cli/Setup.antt what up.go, client.go, config.go and server.go set
--     up.
--   * Prelude, Text, Int64 and Base64 are what the code uses of the Go language and its standard
--     library; Tests has the concrete runs.
--
-- State and errors: a call of the store takes the database and returns the database after it and a
-- result; the handlers and the reconciler pass that state on. An error is a value (`Result`), of the
-- sentinel errors of store.go or a text. One call of the store is one step, as in the source, where
-- it is one transaction on one connection: a body changes the database step by step, and one that
-- fails leaves by ROLLBACK. Interleavings of clients are lists of such steps. What
-- makes two calls (UpdateProject, UpdateWorkflow, CreateWorkflow, a turn of apply, a pass of the
-- reconciler) takes a function of the store for what other clients do in between.
--
-- Parameters, for what the repository does not hold: the SQLite driver (`Sqlite` with `Laws`, and
-- `Schema` with `SchemaLaws` for the migrations, `Driver`), the JSON and time encodings of columns
-- (`Columns` with `ColumnLaws`), the protobuf runtime (`Wire`, `ProtoEqual`), the YAML and JSON of
-- the documents that the command line reads and writes (`Formats` with `FormatLaws`), the clock and
-- the random source (`Ambient`, `Clock`).
--
-- Numbers: an int64 is its bit pattern, a number below 2 ^ 64, and addition wraps around. Twenty
-- digits print any of them. Strings are lists of bytes. A Go map is its association list in
-- ascending key order; the code does not tell a nil map from an empty one, nor does the model.
-- The float64 of `Duration.Hours` is written out as its rounding. Loops are structural recursion;
-- only `walk` and `follow`, clients that follow continue tokens, run on fuel, and one unit more than
-- there are records is enough.
--
-- Not modelled: the gRPC runtime and the options that install the interceptor, the ticker that
-- makes the reconciler's signals, logging, deadlines of calls, and of the command line the flags,
-- files, sockets, signals and the layout of its tables.
mod Prelude
pub mod Text
pub mod Int64
pub mod Base64
pub mod Store
pub mod Api
pub mod Auth
pub mod Server
pub mod Reconciler
pub mod Tests
pub mod Cli
