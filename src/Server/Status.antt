-- ===== src/Server/Status.antt =====
-- gRPC statuses, and how the server maps the errors of the store.
use kestrai.Text.{Str, codes}
use kestrai.Store.{Error}

pub data Code : Type 0 where
  not_found already_exists aborted internal invalid_argument : Code
  failed_precondition unauthenticated unimplemented : Code

pub record Status : Type 0 where
  pub code : Code
  pub message : Str

abbrev pub status : Code → Str → Status
status c m = record { code = c; message = m }

-- `err.Error()`
abbrev pub error_text : Error → Str
error_text Error.not_found = codes "store: resource not found"
error_text Error.already_exists = codes "store: resource already exists"
error_text Error.conflict = codes "store: resource version conflict"
error_text (Error.other e) = e

abbrev pub error_code : Error → Code
error_code Error.not_found = Code.not_found
error_code Error.already_exists = Code.already_exists
error_code Error.conflict = Code.aborted
error_code (Error.other e) = Code.internal

-- `storeErr` of an error that is not nil
abbrev pub store_err : Error → Status
store_err e = status (error_code e) (error_text e)
