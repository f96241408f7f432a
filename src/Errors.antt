-- ===== src/Errors.antt =====
-- TranslateContextError of utils.go: the errors of package context as gRPC statuses.
use notnets_grpc.Prelude.{ℕ}
use notnets_grpc.Text.{Text, codes}

-- The errors that the function tells apart, gRPC statuses, and all others.
pub data ContextError : Type 0 where
  deadline_exceeded canceled : ContextError
  status : ℕ → Text → ContextError
  other : ℕ → ContextError

-- codes.Canceled and codes.DeadlineExceeded
abbrev pub canceled_code : ℕ
canceled_code = 1

abbrev pub deadline_exceeded_code : ℕ
deadline_exceeded_code = 4

-- status.Errorf(code, err.Error())
unfoldable pub translate_context_error : ContextError → ContextError
translate_context_error deadline_exceeded =
    status deadline_exceeded_code (codes "context deadline exceeded")
translate_context_error canceled = status canceled_code (codes "context canceled")
translate_context_error e = e
