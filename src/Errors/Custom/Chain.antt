-- ===== src/Errors/Custom/Chain.antt =====
-- The answer to a client, told from the chain of causes.
use ndidplatform_api.Base.{
  ℕ, String, ◌≡◌, refl, sym, ap, ◌∙◌, Bool, true, false, Option, none, some, List, [], ◌∷◌,
  if◌then◌else◌, ◌==◌, nat_eq, arith,
}
use ndidplatform_api.Errors.Custom.{
  Own, JsError, Cause, plain, custom, no_cause, caused_by, unknown_error_code,
  abci_unauthorized_code, get_code, code_or, message_if, get_message_with_code,
  is_root_cause_client_error, get_error_object_for_client,
}

-- The custom errors of a chain, from the outermost in.
abbrev pub links : JsError → List Own
links (plain o) = []
links (custom o no_cause) = o ∷ []
links (custom o (caused_by e)) = o ∷ links e

-- The error at the end of the chain.
abbrev pub root : JsError → Own
root (plain o) = o
root (custom o no_cause) = o
root (custom o (caused_by e)) = root e

abbrev pub coded : Option ℕ → String → Option (ℕ × String) → Option (ℕ × String)
coded none m rest = rest
coded (some c) m rest = some (c, m)

abbrev pub first_coded : List Own → Option (ℕ × String)
first_coded [] = none
first_coded (o ∷ os) = coded o.code o.message (first_coded os)

abbrev pub first_flag : List Own → Bool
first_flag [] = false
first_flag (o ∷ os) = elim o.client_error [ none ↦ first_flag os | some b ↦ b ]

abbrev pub pick : Option (ℕ × String) → ℕ × String → ℕ × String
pick none d = d
pick (some t) d = t

-- The code and the message to tell: both of the first link that has a code; if none has one, the
-- unknown code with the message of the root cause.
abbrev pub told : JsError → ℕ × String
told e = pick (first_coded (links e)) (unknown_error_code, (root e).message)

pick_code :
    (oc : Option ℕ) (m : String) (rest : Option (ℕ × String)) (d : ℕ × String)
    → code_or oc (pick rest d).0 ≡ (pick (coded oc m rest) d).0
pick_code none m rest d = refl
pick_code (some c) m rest d = refl

pick_message :
    (oc : Option ℕ) (m : String) (rest : Option (ℕ × String)) (d : ℕ × String)
    → message_if oc m (pick rest d).1 ≡ (pick (coded oc m rest) d).1
pick_message none m rest d = refl
pick_message (some c) m rest d = refl

get_code_lem : (e : JsError) → get_code e ≡ (told e).0
unfolding get_code
get_code_lem (plain o) = refl
get_code_lem (custom o no_cause) = pick_code o.code o.message none (unknown_error_code, o.message)
get_code_lem (custom o (caused_by e)) =
    ap (code_or o.code) (get_code_lem e)
    ∙ pick_code o.code o.message (first_coded (links e)) (unknown_error_code, (root e).message)

same_message : (oc : Option ℕ) (m : String) → message_if oc m m ≡ m
same_message none m = refl
same_message (some c) m = refl

get_message_lem : (e : JsError) → get_message_with_code e ≡ (told e).1
unfolding get_message_with_code
get_message_lem (plain o) = refl
get_message_lem (custom o no_cause) =
    sym (same_message o.code o.message)
    ∙ pick_message o.code o.message none (unknown_error_code, o.message)
get_message_lem (custom o (caused_by e)) =
    ap (message_if o.code o.message) (get_message_lem e)
    ∙ pick_message o.code o.message (first_coded (links e)) (unknown_error_code, (root e).message)

is_client_error_lem : (e : JsError) → is_root_cause_client_error e ≡ first_flag (links e)
unfolding is_root_cause_client_error
is_client_error_lem (plain o) = refl
is_client_error_lem (custom o no_cause) = refl
is_client_error_lem (custom o (caused_by e)) = ground (arith, is_client_error_lem e)

-- What a client is told of a custom error, however deep its chain of causes: code and message always
-- belong to the same link, the first that has a code (or are the unknown code and the message of the
-- root cause); and the stack is shown only on request, and never for an unauthorized call or an error
-- whose first client flag says that the client is at fault.
pub client_object_lem :
    (o : Own) (c : Cause) (show : Bool)
    → let e = custom o c in
      let answer = get_error_object_for_client e show in
      (answer.code ≡ (told e).0)
      × (answer.message ≡ (told e).1)
      × (answer.stack ≡ (
          if (told e).0 == abci_unauthorized_code
          then none
          else (if first_flag (links e) then none else (if show then some o.stack else none))))
unfolding get_error_object_for_client
client_object_lem o c true = (
  get_code_lem (custom o c),
  get_message_lem (custom o c),
  rw (get_code_lem (custom o c), is_client_error_lem (custom o c)) refl,
)
client_object_lem o c false = (
  get_code_lem (custom o c),
  get_message_lem (custom o c),
  rw (get_code_lem (custom o c), is_client_error_lem (custom o c)) refl,
)
