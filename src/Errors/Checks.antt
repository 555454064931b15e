-- ===== src/Errors/Checks.antt =====
-- What the table of error types promises: a code for each type, and the client errors by number.
use ndidplatform_api.Base.{
  ℕ, zero, suc, ◌≤◌, ◌<◌, String, ◌≡◌, ◌↔◌, ◌⊎◌, refl, sym, ap, ◌∙◌, Bool, true, false, ◌&&◌, ◌||◌,
  not, Option, none, some, List, [], ◌∷◌, arith, ltb, leb, inl, inr, Bool-cases, ◌+◌, nat_eq,
  string_eq, ◌==◌, ==_iff, get, All, get-All, is_some,
}
use ndidplatform_api.Errors.Types.{ErrorType}
use ndidplatform_api.Errors.Catalogue.{catalogue}
use ndidplatform_api.Errors.AbciCodes.{code_mapping, convert_abci_app_code_to_error_type, named}

check {ℓ} : {A : Type ℓ} → (A → Bool) → List A → Bool
check p [] = true
check p (x ∷ xs) = p x && check p xs

check-All {ℓ} :
    {A : Type ℓ} (p : A → Bool) (xs : List A) → check p xs ≡ true → All (λ x. p x ≡ true) xs
unfolding check
check-All p [] h = tt
check-All p (x ∷ xs) h = (ground arith, check-All p xs (ground arith))

-- Whether an error type is marked as the client's fault.
abbrev pub is_client : ErrorType → Bool
is_client e = elim e.client_error [ none ↦ false | some b ↦ b ]

same : Bool → Bool → Bool
same true b = b
same false b = not b

numbered : String × ErrorType → Bool
numbered e =
    e.0 == "MISSING_ARGUMENTS" || same (is_client e.1) (leb 20000 e.1.code && ltb e.1.code 30000)

all_numbered : check numbered catalogue ≡ true
unfolding check numbered same
all_numbered = refl

-- The numbers of the client errors are those from 20000 to 29999: an error type other than
-- `MISSING_ARGUMENTS` is marked as the client's fault exactly if its code lies there.
pub client_errors_by_code :
    (n : String) (e : ErrorType)
    → get n catalogue ≡ some e
    → (n == "MISSING_ARGUMENTS") ≡ false
    → (is_client e ≡ true) ↔ ((20000 ≤ e.code) × (e.code < 30000))
unfolding numbered same
client_errors_by_code n e h m = ground (
  arith,
  m,
  get-All (λ x. numbered x ≡ true) n e catalogue (check-All numbered catalogue all_numbered) h,
)

told_apart : String × ErrorType → String × ErrorType → Bool
told_apart x y = not (x.1.code == y.1.code) || (x.1.code == 20058 || x.0 == y.0)

all_told_apart : check (λ x. check (told_apart x) catalogue) catalogue ≡ true
unfolding check told_apart
all_told_apart = refl

-- A code names one error type, but for 20058, which two types have.
pub code_names_one :
    (n m : String) (e f : ErrorType)
    → get n catalogue ≡ some e
    → get m catalogue ≡ some f
    → e.code ≡ f.code
    → (n ≡ m) ⊎ (e.code ≡ 20058)
unfolding told_apart
code_names_one n m e f h k c =
    let row =
      get-All (λ x. check (told_apart x) catalogue ≡ true) n e catalogue
        (check-All (λ x. check (told_apart x) catalogue) catalogue all_told_apart) h in
    ground (
      arith,
      c,
      ==_iff n m,
      get-All (λ y. told_apart (n, e) y ≡ true) m f catalogue
          (check-All (told_apart (n, e)) catalogue row) k,
    )

-- Whether the `n` numbers from `a` on pass a test.
run_of : (ℕ → Bool) → ℕ → ℕ → Bool
run_of test a zero = true
run_of test a (suc n) = test a && run_of test (suc a) n

run_of_lem :
    (test : ℕ → Bool) (a n c : ℕ) → run_of test a n ≡ true → a ≤ c → c < a + n → test c ≡ true
unfolding run_of
run_of_lem test a zero c h lo hi = absurd (omega arith)
run_of_lem test a (suc n) c h lo hi = elim (Bool-cases (a == c)) [
  | inl t ↦ ground (arith, ap test ((==_iff a c).0 t))
  | inr f ↦ ground (arith, run_of_lem test (suc a) n c)
]

converted : ℕ → Bool
converted c = is_some (convert_abci_app_code_to_error_type c)

all_converted : run_of converted 1 102 ≡ true
unfolding run_of converted convert_abci_app_code_to_error_type get
all_converted = refl

some_of : {A : Type 0} (o : Option A) → is_some o ≡ true → (a : A) × (o ≡ some a)
some_of none h = absurd (cc)
some_of (some a) h = (a, refl)

-- Every code from 1 to 102 of the ABCI app has an error type.
pub convert_total :
    (c : ℕ) → 1 ≤ c → c ≤ 102 → (e : ErrorType) × (convert_abci_app_code_to_error_type c ≡ some e)
unfolding converted
convert_total c lo hi = some_of _ (run_of_lem converted 1 102 c all_converted lo (omega arith))

abci_row : ℕ → Option ErrorType → Bool
abci_row c none = false
abci_row c (some e) =
    (leb 25000 e.code && ltb e.code 26000)
    || ((leb 15000 e.code && ltb e.code 16000)
        || ((c == 4 && e.code == 35001) || (c == 999 && e.code == 10000)))

abci_code : ℕ × String → Bool
abci_code r = abci_row r.0 (get r.1 catalogue)

all_abci : check abci_code code_mapping ≡ true
unfolding check abci_code abci_row get
all_abci = refl

abbrev pub InAbciRange : ℕ → ErrorType → Type 0
InAbciRange c e =
    ((15000 ≤ e.code) × (e.code < 16000))
    ⊎ (((25000 ≤ e.code) × (e.code < 26000))
        ⊎ (((c ≡ 4) × (e.code ≡ 35001)) ⊎ ((c ≡ 999) × (e.code ≡ 10000))))

abci_row_lem : (c : ℕ) (e : ErrorType) → abci_row c (some e) ≡ true → InAbciRange c e
unfolding abci_row
abci_row_lem c e h = ground arith

named_in_range :
    (c : ℕ) (e : ErrorType) (o : Option String)
    → get c code_mapping ≡ o
    → named o ≡ some e
    → InAbciRange c e
unfolding named
named_in_range c e none q h = absurd (cc)
named_in_range c e (some n) q h = abci_row_lem c e (
    ap (abci_row c) (sym h)
    ∙ unfold abci_code in
      get-All (λ r. abci_code r ≡ true) c n code_mapping (check-All abci_code code_mapping all_abci)
        q)

-- A code of the ABCI app becomes an error of the ABCI ranges, a server error from 15000 or a client
-- error from 25000; but 4 (unauthorized) alone becomes 35001, and 999 the platform's unknown error.
pub convert_in_range :
    (c : ℕ) (e : ErrorType) → convert_abci_app_code_to_error_type c ≡ some e → InAbciRange c e
unfolding convert_abci_app_code_to_error_type
convert_in_range c e h = named_in_range c e (get c code_mapping) refl h
