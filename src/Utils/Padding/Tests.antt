-- ===== src/Utils/Padding/Tests.antt =====
-- The padding on concrete libraries: digests of zeros, a key of one byte.
use native.Mathlib.Nat.{mod-lt}
use Prim.Native.String.{◌++◌ as ◌+++◌}
use ndidplatform_api.Base.{
  if◌then◌else◌, ◌==◌, nat_eq, ℕ, ◌+◌, ◌*◌, ◌%◌, ◌<◌, ◌≤◌, String, ◌≡◌, ◌↔◌, refl, Bool, true, some,
  List, [], ◌∷◌, ◌++◌, length, arith,
}
use ndidplatform_api.Utils.Padding.{
  Libraries, zeros, pad_length, add_padding, get_data_hash_with_custom_padding,
  verify_response_signature,
}
use ndidplatform_api.Utils.Padding.Length.{salts, padding_fills_block, hash_has_key_length}
use ndidplatform_api.Utils.Padding.Verified.{to_be_signed, verify_response_signature_iff}

abbrev digest_of_zeros : String → List ℕ
digest_of_zeros m = zeros 32

value : List ℕ → ℕ → ℕ
value [] n = n
value (b ∷ bs) n = value bs (n * 256 + b)

letters : List ℕ → String
letters [] = ""
letters (b ∷ bs) = (if b == 0 then "A" else "B") +++ letters bs

abbrev libraries : Libraries
libraries = record {
  sha256 = digest_of_zeros;
  to_string = λ n. "1";
  to_base64 = letters;
  from_base64 = λ s. [];
  from_buffer = λ bs. value bs 0;
  to_buffer = λ n. n % 256 ∷ [];
  mod_by = λ a m. a % m;
  modulus_of = λ s. 187 ∷ [];
  public_decrypt = λ key bs. some bs;
}

digest_length : (m : String) → length (libraries.sha256 m) ≡ 32
unfolding zeros
digest_length m = refl

padding_fills_block_example :
    (padding : List ℕ) × (add_padding libraries "salt" (pad_length 2048) 15 1 [] ≡ some padding)
    × (padding ≡ salts libraries "salt" 1 14)
    × (length (padding ++ zeros 32) * 8 ≡ 2048)
padding_fills_block_example =
    padding_fills_block libraries digest_length "salt" 15 (zeros 32) (digest_length "")
      (omega arith)

below_modulus : (a m : ℕ) → 0 < m → libraries.mod_by a m < m
below_modulus a m h = mod-lt a h

one_byte : (a : ℕ) → a < libraries.from_buffer (187 ∷ []) → length (libraries.to_buffer a) ≤ 1
one_byte a h = omega arith

hash_has_key_length_example :
    (signed : List ℕ) × (get_data_hash_with_custom_padding libraries 15 "salt"
        (187 ∷ [])
        (zeros 32)
        2048
      ≡ some signed)
    × (length signed ≡ 1)
unfolding pad_length value
hash_has_key_length_example =
    hash_has_key_length libraries digest_length below_modulus (187 ∷ []) (zeros 32) one_byte "salt"
      15 2048 (omega arith) (omega arith)

verify_response_signature_iff_example :
    (b : Bool) × (verify_response_signature libraries 15 "" "key" "message" "salt" "id" ≡ some b)
    × ((b ≡ true) ↔ (
        libraries.to_base64 (to_be_signed libraries "message" "salt" "id" "key")
        ≡ libraries.to_base64 []))
verify_response_signature_iff_example =
    verify_response_signature_iff libraries digest_length 15 "" "key" "message" "salt" "id" [] refl
      (omega arith)
