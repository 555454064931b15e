-- ===== src/Request/Validity/Agreement.antt =====
-- The IdP's node and the RP's node judge an answer alike.
use ndidplatform_api.Base.{
  ℕ, String, ◌≡◌, refl, sym, ap, ◌∙◌, inl, inr, Bool, true, false, ◌||◌, Option, none, some, List,
  ◌==◌, ==_iff, ==_refl, some_inj, nat_eq, string_eq, pair_eq, arith, Bool-cases,
}
use ndidplatform_api.Base.Checked.{Checked, passed, need, then_passed, passed_inj}
use ndidplatform_api.Request.Response.{
  RequestInfo, RequestData, IdentityInfo, Params, Call, ok, err, create_response,
}
use ndidplatform_api.Request.Response
use ndidplatform_api.Request.Response.Accepted.{
  GroupIs, KeyIs, unsigned, signed, create_response_iff,
}
use ndidplatform_api.Request.Validity.{
  Failure, SavedRequest, ChainResponse, ResponseValid, Platform, Answer, ValidLists, same_code,
  usable_key, find_response, check_with_key, check_in_group, check_signature, check_mode_2_3, judge,
  get_and_save_idp_response_valid, save,
}

-- The two nodes look at the same chain, and the RP at the answer that the IdP sent. The RP has saved
-- the request that the IdP received, with the person's namespace and identifier, which it leaves out
-- where it sends the code of the reference group: the code that the IdP goes by is theirs.
pub record SameChain (idp : Response.Platform) (rp : Platform) (p : Params) (call : Call)
    (a : Answer) : Type 0 where
  pub namespace : String
  pub identifier : String
  pub idp_id : a.idp_id ≡ call.node_id
  pub ial : a.ial ≡ p.ial
  pub accessor : a.accessor_id ≡ p.accessor_id
  pub mode : (r : RequestInfo) → idp.get_request_detail p.request_id ≡ ok (some r) → a.mode ≡ r.mode
  pub saved :
      rp.get_request_data a.node_id a.request_id
      ≡ passed (
          some (record {
            request_id = p.request_id;
            namespace = namespace;
            identifier = identifier;
            request_message = call.request_data.request_message;
            initial_salt = call.request_data.initial_salt;
          }))
  pub group :
      (code : String)
      → GroupIs idp call.request_data code
      → rp.get_reference_group_code namespace identifier ≡ passed (some code)
  pub identity :
      (code : String) (info : IdentityInfo)
      → GroupIs idp call.request_data code
      → idp.get_identity_info call.node_id code ≡ ok (some info)
      → rp.get_identity_ial namespace identifier call.node_id ≡ passed (some info.ial)
  pub accessor_group :
      (id code : String)
      → idp.get_reference_group_code_by_accessor_id id ≡ ok (some code)
      → rp.get_reference_group_code_by_accessor_id (some id) ≡ passed (some code)
  pub accessor_key :
      (id key : String)
      → idp.get_accessor_key id ≡ ok (some key)
      → (rp.get_accessor_key (some id) ≡ passed (some key)) × ((key == "") ≡ false)
  pub on_chain :
      (responses : List ChainResponse) × (rp.get_response_list a.request_id ≡ passed responses)
      × (find_response call.node_id responses
          ≡ some (record { idp_id = call.node_id; signature = p.signature }))
  pub same_check :
      (s k m t r : String) (b : Bool)
      → idp.verify_response_signature s k m t r ≡ ok b
      → rp.verify_response_signature s k m t r ≡ passed b

signed_part :
    (idp : Response.Platform) (rp : Platform) (p : Params) (call : Call) (a : Answer) (mode : ℕ)
    → SameChain idp rp p call a
    → KeyIs idp p mode call
    → a.mode ≡ mode
    → (a.mode == 2 || a.mode == 3) ≡ true
    → judge rp a
      ≡ passed (record { idp_id = a.idp_id; valid_signature = some true; valid_ial = some true })
unfolding judge check_mode_2_3 check_signature check_in_group check_with_key
signed_part idp rp p call a mode s (unsigned n k) same m =
    let q : true ≡ false = sym m ∙ ap (λ x. x == 2 || x == 3) same ∙ n in absurd (cc)
signed_part idp rp p call a mode s (signed code info accessor key t g k) same m =
    let (responses, listed, answered) = s.on_chain in
    let (usable, nonempty) = s.accessor_key accessor key g.active in
    rw
      (
        s.saved,
        s.idp_id,
        s.identity code info g.group g.identity,
        m,
        s.group code g.group,
        s.accessor,
        g.given,
        s.accessor_group accessor code g.of_group,
        ==_refl code,
        usable,
        nonempty,
        listed,
        answered,
        s.same_check _ _ _ _ _ _ g.verified,
        s.ial,
        g.declared,
        ==_refl info.ial,
      )
      refl

-- If the IdP's and the RP's node look at the same chain, the RP has saved the request that the IdP
-- received, and the reference group that the IdP goes by is that of the namespace and identifier that
-- the RP saved: an answer in mode 2 or 3 that the IdP's node sends to the blockchain is judged valid by
-- the RP's node, in its IAL and in its signature.
pub accepted_is_valid :
    (idp : Response.Platform) (rp : Platform) (p : Params) (call : Call) (a : Answer)
    (lists : ValidLists)
    → SameChain idp rp p call a
    → create_response idp p ≡ ok call
    → (a.mode == 2 || a.mode == 3) ≡ true
    → (get_and_save_idp_response_valid rp a lists).0
      ≡ passed (record { idp_id = a.idp_id; valid_signature = some true; valid_ial = some true })
unfolding get_and_save_idp_response_valid save
accepted_is_valid idp rp p call a lists s h m =
    let accepts = (create_response_iff idp p call).0 h in
    let same = s.mode accepts.request accepts.is_open.found in
    rw (signed_part idp rp p call a accepts.request.mode s accepts.key same m) refl

-- What a valid answer has: the declared IAL is that of the identity, the accessor is in the group of
-- the person, and the answer on the chain is signed with its key.
pub record IsValid (c : Platform) (a : Answer) : Type 0 where
  pub saved : SavedRequest
  pub found : c.get_request_data a.node_id a.request_id ≡ passed (some saved)
  pub identity : c.get_identity_ial saved.namespace saved.identifier a.idp_id ≡ passed (some a.ial)
  pub code : Option String
  pub of_request : c.get_reference_group_code saved.namespace saved.identifier ≡ passed code
  pub of_accessor : c.get_reference_group_code_by_accessor_id a.accessor_id ≡ passed code
  pub key : String
  pub active : c.get_accessor_key a.accessor_id ≡ passed (some key)
  pub responses : List ChainResponse
  pub listed : c.get_response_list a.request_id ≡ passed responses
  pub response : ChainResponse
  pub answered : find_response a.idp_id responses ≡ some response
  pub verified :
      c.verify_response_signature response.signature key saved.request_message saved.initial_salt
        saved.request_id
      ≡ passed true

same_code_lem : (o o' : Option String) → same_code o o' ≡ true → o' ≡ o
same_code_lem none none h = refl
same_code_lem none (some b) h = cc
same_code_lem (some a) none h = cc
same_code_lem (some a) (some b) h = ground (arith, ==_iff a b)

need_lem : {A : Type 0} (o : Option A) (f : Failure) {a : A} → need o f ≡ passed a → o ≡ some a
need_lem none f h = cc
need_lem (some x) f h = ground arith

module _ (c : Platform) (a : Answer) (d : SavedRequest)
    (found : c.get_request_data a.node_id a.request_id ≡ passed (some d))
    (identity : c.get_identity_ial d.namespace d.identifier a.idp_id ≡ passed (some a.ial)) where
  key_part :
      (code : Option String) (o : Option String)
      → c.get_reference_group_code d.namespace d.identifier ≡ passed code
      → c.get_reference_group_code_by_accessor_id a.accessor_id ≡ passed code
      → c.get_accessor_key a.accessor_id ≡ passed o
      → check_with_key c a d (usable_key o) ≡ passed true
      → IsValid c a
  unfolding check_with_key
  key_part code none g1 g2 k h = absurd (cc)
  key_part code (some key) g1 g2 k h = elim (Bool-cases (key == "")) [
    | inl t ↦
        let z : Path (Checked Failure Bool) (passed false) (passed true) = rw t at h in absurd (cc)
    | inr f ↦ then_passed (c.get_response_list a.request_id) _ (rw f at h) λ responses listed h1.
        then_passed (need (find_response a.idp_id responses) _) _ h1 λ response answered h2.
          record {
            saved = d;
            found = found;
            identity = identity;
            code = code;
            of_request = g1;
            of_accessor = g2;
            key = key;
            active = k;
            responses = responses;
            listed = listed;
            response = response;
            answered = need_lem _ _ answered;
            verified = h2;
          }
  ]

  group_part : check_signature c a d ≡ passed true → IsValid c a
  unfolding check_signature
  group_part h = then_passed (c.get_reference_group_code d.namespace d.identifier) _ h λ code g1 h1.
      then_passed (c.get_reference_group_code_by_accessor_id a.accessor_id) _ h1 λ code' g2 h2.
        elim (Bool-cases (same_code code code')) [
          | inl t ↦
              then_passed (c.get_accessor_key a.accessor_id) _ (unfold check_in_group in rw t at h2)
                λ o k h3. key_part code o g1 (g2 ∙ ap passed (same_code_lem code code' t)) k h3
          | inr f ↦ absurd (in_no_group (rw f at h2))
        ]
    where
      in_no_group : check_in_group c a d false ≡ passed true → ⊥
      in_no_group h = unfold check_in_group in cc

checked_part :
    (c : Platform) (a : Answer) (d : SavedRequest) (o : Option ℕ) (v : ResponseValid)
    → c.get_request_data a.node_id a.request_id ≡ passed (some d)
    → c.get_identity_ial d.namespace d.identifier a.idp_id ≡ passed o
    → check_mode_2_3 c a d o ≡ passed v
    → v.valid_ial ≡ some true
    → v.valid_signature ≡ some true
    → IsValid c a
unfolding check_mode_2_3
checked_part c a d o v found identity h ial signature = then_passed (need o _) _ h λ n given h1.
    then_passed (check_signature c a d) _ h1 λ b checked h2.
      let e = made b n h2 in
      let same = (==_iff a.ial n).0 (some_inj _ _ (ap (λ x. x.valid_ial) e ∙ ial)) in
      group_part c a d found (identity ∙ ap passed (need_lem o _ given ∙ ap some (sym same)))
        (checked ∙ ap passed (some_inj _ _ (ap (λ x. x.valid_signature) e ∙ signature)))
  where
    made :
        (b : Bool) (n : ℕ)
        → Path
            (Checked Failure ResponseValid)
            (passed (record {
              idp_id = a.idp_id;
              valid_signature = some b;
              valid_ial = some (a.ial == n);
            }))
            (passed v)
        → record { idp_id = a.idp_id; valid_signature = some b; valid_ial = some (a.ial == n) } ≡ v
    made b n q = passed_inj _ v q

-- An answer is judged valid in its IAL and its signature only if it has all that this takes: the
-- identity's IAL, an accessor with a key in the person's group, and a signature on the chain that
-- the key verifies.
pub judged-IsValid :
    (c : Platform) (a : Answer) (v : ResponseValid)
    → judge c a ≡ passed v
    → v.valid_ial ≡ some true
    → v.valid_signature ≡ some true
    → IsValid c a
unfolding judge
judged-IsValid c a v h ial signature =
    then_passed (c.get_request_data a.node_id a.request_id) _ h λ o found h1.
      then_passed (need o _) _ h1 λ d there h2.
        then_passed (c.get_identity_ial d.namespace d.identifier a.idp_id) _ h2 λ n identity h3.
          elim (Bool-cases (a.mode == 2 || a.mode == 3)) [
            | inl t ↦
                checked_part c a d n v (found ∙ ap passed (need_lem o _ there)) identity
                  (rw t at h3) ial signature
            | inr f ↦ absurd (unchecked (rw f at h3))
          ]
  where
    no_bool : Path (Option Bool) none (some true) → ⊥
    no_bool z = cc

    unchecked :
        Path
          (Checked Failure ResponseValid)
          (passed (record { idp_id = a.idp_id; valid_signature = none; valid_ial = none }))
          (passed v)
        → ⊥
    unchecked q =
        let z : none ≡ some true = ap (λ x. x.valid_ial) (passed_inj _ v q) ∙ ial in no_bool z
