-- ===== src/Utils/Padding.antt =====
-- The padded hash that an accessor signs: `getDataHashWithCustomPadding`, `hashRequestMessageForConsent`
-- and `verifyResponseSignature` of main-server/src/utils/index.js. Buffers are lists of bytes.
pub mod Length
pub mod Verified
mod Tests
use mathlib.Core.Option.{map as option_map}
use ndidplatform_api.Base.{
  ℕ, zero, suc, ◌+◌, ◌-◌, ◌/◌, String, Bool, Option, none, some, List, [], ◌∷◌, ◌++◌, length,
  if◌then◌else◌, leb, ltb, string_eq, ◌==◌,
}
use Prim.Native.String.{◌++◌ as ◌+++◌}

-- The libraries' part: Node's crypto and base64, the bignum package, the reading of a public key and
-- the printing of a number. `public_decrypt` throws on a bad signature.
pub record Libraries : Type 0 where
  pub sha256 : String → List ℕ
  pub to_string : ℕ → String
  pub to_base64 : List ℕ → String
  pub from_base64 : String → List ℕ
  pub from_buffer : List ℕ → ℕ
  pub to_buffer : ℕ → List ℕ
  pub mod_by : ℕ → ℕ → ℕ
  pub modulus_of : String → List ℕ
  pub public_decrypt : String → List ℕ → Option (List ℕ)

abbrev pub salt_length : ℕ
salt_length = 16

unfoldable pub slice : ℕ → List ℕ → List ℕ
slice zero bs = []
slice (suc n) [] = []
slice (suc n) (b ∷ bs) = b ∷ slice n bs

unfoldable pub zeros : ℕ → List ℕ
zeros zero = []
zeros (suc n) = 0 ∷ zeros n

abbrev pub hash_length : ℕ
hash_length = 256

unfoldable pub pad_length : ℕ → ℕ
pad_length block_length = (block_length - hash_length) / 8

-- What round `i` of the loop appends.
unfoldable pub salt_of_round : Libraries → String → ℕ → List ℕ
salt_of_round l initial_salt i = slice salt_length (l.sha256 (initial_salt +++ l.to_string i))

-- The loop, on fuel: `none` if it runs out.
unfoldable pub add_padding : Libraries → String → ℕ → ℕ → ℕ → List ℕ → Option (List ℕ)
add_padding l initial_salt limit zero i buffer = none
add_padding l initial_salt limit (suc fuel) i buffer =
    let rest =
      add_padding l initial_salt limit fuel (suc i) (buffer ++ salt_of_round l initial_salt i) in
    if leb (length buffer + salt_length) limit then rest else some buffer

unfoldable pub fill : ℕ → List ℕ → List ℕ
fill n bs = if ltb (length bs) n then zeros (n - length bs) ++ bs else bs

unfoldable pub after_padding : Libraries → List ℕ → List ℕ → List ℕ → List ℕ
after_padding l key_modulus data_hash padding =
    fill (length key_modulus)
      (l.to_buffer (l.mod_by (l.from_buffer (padding ++ data_hash)) (l.from_buffer key_modulus)))

unfoldable pub get_data_hash_with_custom_padding :
    Libraries → ℕ → String → List ℕ → List ℕ → ℕ → Option (List ℕ)
get_data_hash_with_custom_padding l fuel initial_salt key_modulus data_hash block_length =
    option_map (after_padding l key_modulus data_hash)
      (add_padding l initial_salt (pad_length block_length) fuel 1 [])

unfoldable pub hash_request_message_for_consent :
    Libraries → ℕ → String → String → String → String → Option (List ℕ)
hash_request_message_for_consent l fuel request_message initial_salt request_id public_key =
    let derived_salt = l.to_base64 (slice salt_length (l.sha256 (request_id +++ initial_salt))) in
    get_data_hash_with_custom_padding l fuel initial_salt (l.modulus_of public_key)
      (l.sha256 (request_message +++ derived_salt)) 2048

abbrev pub same_hash : Libraries → Option (List ℕ) → Option (List ℕ) → Option Bool
same_hash l none hashed = none
same_hash l (some decrypted) none = none
same_hash l (some decrypted) (some hashed) = some (l.to_base64 hashed == l.to_base64 decrypted)

-- `none` where the call throws, or where the fuel of the padding runs out.
unfoldable pub verify_response_signature :
    Libraries → ℕ → String → String → String → String → String → Option Bool
verify_response_signature l fuel signature public_key request_message initial_salt request_id =
    same_hash l (l.public_decrypt public_key (l.from_base64 signature))
      (hash_request_message_for_consent l fuel request_message initial_salt request_id public_key)
