-- ===== src/Request/Response/Accepted.antt =====
-- Exactly which answers of an IdP go on to the blockchain.
use ndidplatform_api.Base.{
  includes, ℕ, ◌≤◌, String, ◌≡◌, refl, ap, ◌∙◌, subst, ◌↔◌, ◌⊎◌, inl, inr, Bool, true, false,
  Option, none, some, if◌then◌else◌, ◌==◌, not, nat_eq, string_eq, ◌||◌, arith, ==_iff, ==_refl,
  Bool-cases,
}
use ndidplatform_api.Request.Response.{
  RequestInfo, RequestData, IdentityInfo, Params, Error, Result, ok, err, ◌>>=◌, throw_if, or_throw,
  Platform, Call, is_text, node_of, check_request, reference_group, check_identity, check_accessor,
  check_signature, check_mode_2_3, create_response,
}

-- The request is on the chain, open, and asks for no more than the answer's levels.
pub record IsOpen (c : Platform) (p : Params) (r : RequestInfo) : Type 0 where
  pub found : c.get_request_detail p.request_id ≡ ok (some r)
  pub not_closed : r.closed ≡ false
  pub in_time : r.timed_out ≡ false
  pub ial_enough : r.min_ial ≤ p.ial
  pub aal_enough : r.min_aal ≤ p.aal

check_request-IsOpen :
    (c : Platform) (p : Params) (r : RequestInfo) → check_request c p ≡ ok r → IsOpen c p r
unfolding check_request
check_request-IsOpen c p r h = ground arith

IsOpen-check_request :
    (c : Platform) (p : Params) (r : RequestInfo) → IsOpen c p r → check_request c p ≡ ok r
unfolding check_request
IsOpen-check_request c p r h = ground arith

-- The group of the person whom the request is about: as the RP sent it, or else looked up.
abbrev pub GroupIs : Platform → RequestData → String → Type 0
GroupIs c d code =
    (d.reference_group_code ≡ some code)
    ⊎ ((d.reference_group_code ≡ none)
        × (c.get_reference_group_code d.namespace d.identifier ≡ ok (some code)))

-- The IdP has the identity at the answer's level and for the request's mode, the accessor belongs to
-- the person and is active, and its key verifies the signature.
pub record IsSigned (c : Platform) (p : Params) (node : String) (mode : ℕ) (d : RequestData)
    (code : String) (info : IdentityInfo) (accessor : String) (key : String) : Type 0 where
  pub group : GroupIs c d code
  pub identity : c.get_identity_info node code ≡ ok (some info)
  pub has_mode : includes mode info.mode_list ≡ true
  pub given : p.accessor_id ≡ some accessor
  pub of_group : c.get_reference_group_code_by_accessor_id accessor ≡ ok (some code)
  pub active : c.get_accessor_key accessor ≡ ok (some key)
  pub declared : p.ial ≡ info.ial
  pub verified :
      c.verify_response_signature p.signature key d.request_message d.initial_salt p.request_id
      ≡ ok true

reference_group-GroupIs :
    (c : Platform) (d : RequestData) (code : String)
    → reference_group c d ≡ ok code
    → GroupIs c d code
unfolding reference_group
reference_group-GroupIs c d code h = ground arith

GroupIs-reference_group :
    (c : Platform) (d : RequestData) (code : String)
    → GroupIs c d code
    → reference_group c d ≡ ok code
unfolding reference_group
GroupIs-reference_group c d code (inl e) = rw e
GroupIs-reference_group c d code (inr e) = rw (e.0, e.1)

check_identity_lem :
    (c : Platform) (node : String) (mode : ℕ) (code : String) (info : IdentityInfo)
    → check_identity c node mode code ≡ ok info
    → (c.get_identity_info node code ≡ ok (some info)) × (includes mode info.mode_list ≡ true)
unfolding check_identity
check_identity_lem c node mode code info h = ground arith

bind_ok {ℓ} :
    {A B : Type 0} {C : Type ℓ} (m : Result A) (f : A → Result B) {b : B}
    → (m >>= f) ≡ ok b
    → ((a : A) → m ≡ ok a → f a ≡ ok b → C)
    → C
bind_ok (err e) f h k = absurd (cc)
bind_ok (ok a) f h k = k a refl h

throw_if_lem : (b : Bool) (e : Error) {u : Unit {0}} → throw_if b e ≡ ok u → b ≡ false
throw_if_lem true e h = cc
throw_if_lem false e h = refl

or_throw_lem : {A : Type 0} (o : Option A) (e : Error) {a : A} → or_throw o e ≡ ok a → o ≡ some a
or_throw_lem none e h = cc
or_throw_lem (some a) e h = ground arith

is_text_lem : (o : Option String) (a : String) → not (is_text o a) ≡ false → o ≡ some a
is_text_lem none a h = cc
is_text_lem (some b) a h = ground (arith, ==_iff a b)

check_accessor_lem :
    (c : Platform) (o : Option String) (code : String) (key : String)
    → check_accessor c o code ≡ ok key
    → (accessor : String) × (o ≡ some accessor)
      × (c.get_reference_group_code_by_accessor_id accessor ≡ ok (some code))
      × (c.get_accessor_key accessor ≡ ok (some key))
unfolding check_accessor
check_accessor_lem c none code key h = absurd (cc)
check_accessor_lem c (some accessor) code key h =
    bind_ok (c.get_reference_group_code_by_accessor_id accessor) _ h λ found q rest.
      bind_ok (throw_if (not (is_text found code)) _) _ rest λ u same more.
        bind_ok (c.get_accessor_key accessor) _ more λ k found_key last. (
          accessor,
          refl,
          q ∙ ap ok (is_text_lem found code (throw_if_lem _ _ same)),
          found_key ∙ ap ok (or_throw_lem k _ last),
        )

check_signature_lem :
    (c : Platform) (p : Params) (d : RequestData) (key : String) (n : ℕ)
    → check_signature c p d key n ≡ ok tt
    → (p.ial ≡ n)
      × (c.verify_response_signature p.signature key d.request_message d.initial_salt p.request_id
          ≡ ok true)
unfolding check_signature
check_signature_lem c p d key n h = ground arith

check_mode_2_3_lem :
    (c : Platform) (p : Params) (node : String) (mode : ℕ) (d : RequestData) (k : Option String)
    → check_mode_2_3 c p node mode d ≡ ok k
    → (code : String) × (info : IdentityInfo) × (accessor : String) × (key : String) × (k
        ≡ some key)
      × IsSigned c p node mode d code info accessor key
unfolding check_mode_2_3
check_mode_2_3_lem c p node mode d k h = bind_ok (reference_group c d) _ h λ code group h1.
    bind_ok (check_identity c node mode code) _ h1 λ info identity h2.
      bind_ok (check_accessor c p.accessor_id code) _ h2 λ key accessed h3.
        bind_ok (check_signature c p d key info.ial) _ h3 λ u signed h4.
          let (accessor, given, of_group, active) =
            check_accessor_lem c p.accessor_id code key accessed in
          let known = check_identity_lem c node mode code info identity in
          let sig = check_signature_lem c p d key info.ial signed in
          (
            code,
            info,
            accessor,
            key,
            ground arith,
            record {
              group = reference_group-GroupIs c d code group;
              identity = known.0;
              has_mode = known.1;
              given = given;
              of_group = of_group;
              active = active;
              declared = sig.0;
              verified = sig.1;
            },
          )

IsSigned-check_mode_2_3 :
    (c : Platform) (p : Params) (node : String) (mode : ℕ) (d : RequestData) (code : String)
    (info : IdentityInfo) (accessor : String) (key : String)
    → IsSigned c p node mode d code info accessor key
    → check_mode_2_3 c p node mode d ≡ ok (some key)
unfolding check_mode_2_3 check_identity check_accessor check_signature
IsSigned-check_mode_2_3 c p node mode d code info accessor key s =
    rw (GroupIs-reference_group c d code s.group, s.identity, s.has_mode, s.given, s.of_group)
      (rw (==_refl code, s.active, s.declared, ==_refl info.ial) (rw s.verified))

-- In modes 2 and 3 the answer is signed and the key is handed on; in mode 1 there is no key.
pub data KeyIs (c : Platform) (p : Params) (mode : ℕ) (call : Call) : Type 0 where
  unsigned :
      (mode == 2 || mode == 3) ≡ false → call.accessor_public_key ≡ none → KeyIs c p mode call
  signed :
      (code : String) (info : IdentityInfo) (accessor : String) (key : String)
      → (mode == 2 || mode == 3) ≡ true
      → IsSigned c p call.node_id mode call.request_data code info accessor key
      → call.accessor_public_key ≡ some key
      → KeyIs c p mode call

-- A proxy answers for the node that it is given, any other node for itself.
abbrev pub NodeIs : Platform → Params → String → Type 0
NodeIs c p node =
    ((c.is_proxy ≡ true) × (p.node_id ≡ some node))
    ⊎ ((c.is_proxy ≡ false) × (node ≡ c.own_node_id))

pub record Accepts (c : Platform) (p : Params) (call : Call) : Type 0 where
  pub request : RequestInfo
  pub node : NodeIs c p call.node_id
  pub is_open : IsOpen c p request
  pub received :
      c.get_request_received_from_mq call.node_id p.request_id ≡ ok (some call.request_data)
  pub key : KeyIs c p request.mode call

node_of-NodeIs :
    (c : Platform) (p : Params) (node : String) → node_of c p ≡ ok node → NodeIs c p node
unfolding node_of
node_of-NodeIs c p node h = ground arith

NodeIs-node_of :
    (c : Platform) (p : Params) (node : String) → NodeIs c p node → node_of c p ≡ ok node
unfolding node_of
NodeIs-node_of c p node (inl e) = rw (e.0, e.1)
NodeIs-node_of c p node (inr e) = rw (e.0, e.1)

keyed :
    (c : Platform) (p : Params) (node : String) (mode : ℕ) (d : RequestData) (k : Option String)
    → (if mode == 2 || mode == 3 then check_mode_2_3 c p node mode d else ok none) ≡ ok k
    → KeyIs c p mode (record { node_id = node; request_data = d; accessor_public_key = k })
keyed c p node mode d k h = elim (Bool-cases (mode == 2 || mode == 3)) [
  | inl t ↦
      let (code, info, accessor, key, e, s) = check_mode_2_3_lem c p node mode d k (rw t at h) in
      signed code info accessor key t s e
  | inr f ↦ unsigned f (none_of k (rw f at h))
]
  where
    none_of : (o : Option String) → Path (Result (Option String)) (ok none) (ok o) → o ≡ none
    none_of o q = cc

create_response-Accepts :
    (c : Platform) (p : Params) (call : Call) → create_response c p ≡ ok call → Accepts c p call
unfolding create_response
create_response-Accepts c p call h = bind_ok (node_of c p) _ h λ node named h1.
    bind_ok (check_request c p) _ h1 λ request opened h2.
      bind_ok (c.get_request_received_from_mq node p.request_id) _ h2 λ found q h3.
        bind_ok (or_throw found _) _ h3 λ d there h4.
          bind_ok
            (if request.mode == 2 || request.mode == 3
              then check_mode_2_3 c p node request.mode d
              else ok none)
            _ h4
            λ k got h5. subst (Accepts c p) (called _ _ h5) (record {
              request = request;
              node = node_of-NodeIs c p node named;
              is_open = check_request-IsOpen c p request opened;
              received = q ∙ ap ok (or_throw_lem found _ there);
              key = keyed c p node request.mode d k got;
            })
  where
    called : (a b : Call) → Path (Result Call) (ok a) (ok b) → a ≡ b
    called a b q = cc

key_checked :
    (c : Platform) (p : Params) (mode : ℕ) (call : Call)
    → KeyIs c p mode call
    → (if mode == 2 || mode == 3
        then check_mode_2_3 c p call.node_id mode call.request_data
        else ok none)
      ≡ ok call.accessor_public_key
key_checked c p mode call (unsigned f e) = rw (f, e)
key_checked c p mode call (signed code info accessor key t s e) =
    rw (t, e)
      (IsSigned-check_mode_2_3 c p call.node_id mode call.request_data code info accessor key s)

Accepts-create_response :
    (c : Platform) (p : Params) (call : Call) → Accepts c p call → create_response c p ≡ ok call
unfolding create_response
Accepts-create_response c p call a = rw (
  NodeIs-node_of c p call.node_id a.node,
  IsOpen-check_request c p a.request a.is_open,
  a.received,
  key_checked c p a.request.mode call a.key,
)

-- An IdP's answer goes on to the blockchain exactly if the node may answer, the request is on the
-- chain, open and no more demanding than the answer, the node received it from the RP, and, in
-- modes 2 and 3, the IdP has the person's identity in that mode and at that IAL, and an active
-- accessor of the person signed the request message. Nothing else is asked, and what is handed on is
-- that node, that request and that accessor's key.
pub create_response_iff :
    (c : Platform) (p : Params) (call : Call) → (create_response c p ≡ ok call) ↔ Accepts c p call
create_response_iff c p call = (create_response-Accepts c p call, Accepts-create_response c p call)
