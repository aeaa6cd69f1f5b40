-- ===== src/Codes.antt =====
-- The gRPC status codes that the controller service returns (google.golang.org/grpc/codes).
pub data Code : Type 0 where
  invalid_argument not_found already_exists failed_precondition aborted : Code
  unavailable internal resource_exhausted : Code
