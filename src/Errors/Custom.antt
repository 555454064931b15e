-- ===== src/Errors/Custom.antt =====
-- ndid-error/custom_error.js and ndid-error/helpers.js: errors that carry a code and a cause, and
-- what of them a client of the API is told.
pub mod Chain
use ndidplatform_api.Base.{
  ℕ, String, ◌≡◌, Bool, true, false, Option, none, some, if◌then◌else◌, ◌==◌, nat_eq,
}
use ndidplatform_api.Errors.Types.{ErrorType}

-- The properties of one error object; `stack` is the text that the runtime recorded.
pub record Own : Type 0 where
  pub message : String
  pub code : Option ℕ
  pub client_error : Option Bool
  pub details : Option String
  pub stack : String

-- A `CustomError`, or any other error (whose `client_error` and `details` nobody reads).
mutual
  pub data JsError : Type 0 where
    plain : Own → JsError
    custom : Own → Cause → JsError

  pub data Cause : Type 0 where
    no_cause : Cause
    caused_by : JsError → Cause

pub record Params : Type 0 where
  pub message : Option String
  pub code : Option ℕ
  pub client_error : Option Bool
  pub error_type : Option ErrorType
  pub details : Option String
  pub cause : Cause

abbrev text_or_empty : Option String → String
text_or_empty none = ""
text_or_empty (some s) = s

abbrev stack_of : JsError → String
stack_of (plain o) = o.stack
stack_of (custom o c) = o.stack

-- The stack ends in that of the cause; `join` is the text concatenation with the caption between.
abbrev combined_stack : (String → String → String) → String → Cause → String
combined_stack join stack no_cause = stack
combined_stack join stack (caused_by e) = join stack (stack_of e)

-- The constructor: an error type, where given, replaces message, code and client flag.
unfoldable pub new_custom : (String → String → String) → String → Params → JsError
new_custom join stack p = elim p.error_type [
  | none ↦
      custom
        (record {
          message = text_or_empty p.message;
          code = p.code;
          client_error = p.client_error;
          details = p.details;
          stack = combined_stack join stack p.cause;
        })
        p.cause
  | some t ↦
      custom
        (record {
          message = t.message;
          code = some t.code;
          client_error = t.client_error;
          details = p.details;
          stack = combined_stack join stack p.cause;
        })
        p.cause
]

abbrev pub unknown_error_code : ℕ
unknown_error_code = 10000

abbrev pub abci_unauthorized_code : ℕ
abci_unauthorized_code = 35001

abbrev pub code_or : Option ℕ → ℕ → ℕ
code_or none d = d
code_or (some c) d = c

abbrev pub message_if : Option ℕ → String → String → String
message_if none m d = d
message_if (some c) m d = m

-- On the cause of a `CustomError`; `getCode` is not called on another error.
unfoldable pub get_code : JsError → ℕ
get_code (plain o) = unknown_error_code
get_code (custom o no_cause) = code_or o.code unknown_error_code
get_code (custom o (caused_by e)) = let below = get_code e in code_or o.code below

unfoldable pub get_message_with_code : JsError → String
get_message_with_code (plain o) = o.message
get_message_with_code (custom o no_cause) = o.message
get_message_with_code (custom o (caused_by e)) =
    let below = get_message_with_code e in message_if o.code o.message below

unfoldable pub is_root_cause_client_error : JsError → Bool
is_root_cause_client_error (plain o) = false
is_root_cause_client_error (custom o no_cause) = elim o.client_error [ none ↦ false | some b ↦ b ]
is_root_cause_client_error (custom o (caused_by e)) =
    let below = is_root_cause_client_error e in elim o.client_error [ none ↦ below | some b ↦ b ]

unfoldable pub get_details_of_error_with_code : JsError → Option String
get_details_of_error_with_code (plain o) = none
get_details_of_error_with_code (custom o no_cause) = o.details
get_details_of_error_with_code (custom o (caused_by (plain p))) = o.details
get_details_of_error_with_code (custom o (caused_by (custom p c))) =
    get_details_of_error_with_code (custom p c)

-- `stack` is left out, or present: it is `undefined` without the flag.
pub record ClientObject : Type 0 where
  pub code : ℕ
  pub message : String
  pub stack : Option String

abbrev kept : Bool → String → Option String
kept true s = some s
kept false s = none

unfoldable pub get_error_object_for_client : JsError → Bool → ClientObject
get_error_object_for_client (plain o) include_error_stack = record {
  code = elim o.code [ none ↦ unknown_error_code | some c ↦ c ];
  message = o.message;
  stack = kept include_error_stack o.stack;
}
get_error_object_for_client (custom o c) include_error_stack =
    let e = custom o c in
    record {
      code = get_code e;
      message = get_message_with_code e;
      stack =
          if get_code e == abci_unauthorized_code
          then none
          else (if is_root_cause_client_error e then none else kept include_error_stack o.stack);
    }
