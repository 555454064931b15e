-- ===== src/Errors/Types.antt =====
-- ndid-error: an error type, as ndid-error/type.js lists them.
use ndidplatform_api.Base.{ℕ, String, Bool, Option}

pub record ErrorType : Type 0 where
  pub code : ℕ
  pub message : String
  pub client_error : Option Bool

abbrev pub error_type : ℕ → String → Option Bool → ErrorType
error_type c m k = record { code = c; message = m; client_error = k }
