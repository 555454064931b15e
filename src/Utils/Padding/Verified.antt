-- ===== src/Utils/Padding/Verified.antt =====
-- Which signatures of a request message the platform accepts.
use ndidplatform_api.Base.{
  ℕ, zero, suc, ◌-◌, ◌<◌, String, ◌≡◌, refl, ap, ◌↔◌, inl, inr, Bool, true, false, some, List, [],
  ◌∷◌, ◌++◌, length, take, string_eq, ◌==◌, ==_iff, ltb, Bool-cases, arith,
}
use ndidplatform_api.Utils.Padding.{
  Libraries, slice, zeros, fill, salt_of_round, after_padding, get_data_hash_with_custom_padding,
  hash_request_message_for_consent, verify_response_signature,
}
use Prim.Native.String.{◌++◌ as ◌+++◌}
use ndidplatform_api.Utils.Padding.Length.{salts, padding_fills_block}

-- What is to be signed, described without the code's loop. The salts of 14 rounds:
abbrev pub salts_at : Libraries → String → List ℕ → List ℕ
salts_at l s [] = []
salts_at l s (i ∷ is) = take 16 (l.sha256 (s +++ l.to_string i)) ++ salts_at l s is

abbrev pub fourteen : List ℕ
fourteen = 1 ∷ 2 ∷ 3 ∷ 4 ∷ 5 ∷ 6 ∷ 7 ∷ 8 ∷ 9 ∷ 10 ∷ 11 ∷ 12 ∷ 13 ∷ 14 ∷ []

-- The block: those salts, then the digest of the message with a salt of its own.
abbrev pub block : Libraries → String → String → String → List ℕ
block l m s r = salts_at l s fourteen ++ l.sha256 (m +++ l.to_base64 (take 16 (l.sha256 (r +++ s))))

-- Zero bytes in front, up to the number of bytes of the modulus.
abbrev pub with_zeros : List ℕ → List ℕ → List ℕ
with_zeros modulus bs = zeros (length modulus - length bs) ++ bs

abbrev pub to_be_signed : Libraries → String → String → String → String → List ℕ
to_be_signed l m s r key =
    with_zeros (l.modulus_of key)
      (l.to_buffer (l.mod_by (l.from_buffer (block l m s r)) (l.from_buffer (l.modulus_of key))))

slice-take : (n : ℕ) (bs : List ℕ) → slice n bs ≡ take n bs
unfolding slice
slice-take zero [] = refl
slice-take zero (b ∷ bs) = refl
slice-take (suc n) [] = refl
slice-take (suc n) (b ∷ bs) = ap (λ r. b ∷ r) (slice-take n bs)

rounds_from : ℕ → ℕ → List ℕ
rounds_from i zero = []
rounds_from i (suc n) = i ∷ rounds_from (suc i) n

salts_lem : (l : Libraries) (s : String) (i n : ℕ) → salts l s i n ≡ salts_at l s (rounds_from i n)
unfolding salts rounds_from salt_of_round
salts_lem l s i zero = refl
salts_lem l s i (suc n) =
    rw (slice-take 16 (l.sha256 (s +++ l.to_string i)), salts_lem l s (suc i) n) refl

fill_lem : (modulus bs : List ℕ) → fill (length modulus) bs ≡ with_zeros modulus bs
unfolding fill zeros
fill_lem modulus bs = elim (Bool-cases (ltb (length bs) (length modulus))) [
  | inl t ↦ rw t refl
  | inr f ↦ rw (f, none_left (length modulus) (length bs) f) refl
]
  where
    none_left : (n k : ℕ) → ltb k n ≡ false → n - k ≡ 0
    none_left n k h = ground arith

some_inj : (a b : List ℕ) → some a ≡ some b → a ≡ b
some_inj a b h = cc

module _ (l : Libraries) (digest : (m : String) → length (l.sha256 m) ≡ 32) where
  hashed_lem :
      (fuel : ℕ) (m s r key : String)
      → 14 < fuel
      → hash_request_message_for_consent l fuel m s r key ≡ some (to_be_signed l m s r key)
  unfolding hash_request_message_for_consent get_data_hash_with_custom_padding after_padding
      rounds_from
  hashed_lem fuel m s r key f =
      let (padding, e, same, full) =
        padding_fills_block l digest s fuel (l.sha256 s) (digest s) f in
      rw (e, same, salts_lem l s 1 14, slice-take 16 (l.sha256 (r +++ s)))
        (ap some (fill_lem (l.modulus_of key) _))

  -- For digests of 32 bytes, a signature that decrypts and a fuel above 14: the check returns, and
  -- accepts the signature exactly if it decrypts, as base64 has it, to the number of the block modulo
  -- the key's modulus, in as many bytes: 14 salts of 16 bytes, of the initial salt with the round's
  -- number, and then the digest of the message with the salt of the request id.
  pub verify_response_signature_iff :
      (fuel : ℕ) (signature key m s r : String) (decrypted : List ℕ)
      → l.public_decrypt key (l.from_base64 signature) ≡ some decrypted
      → 14 < fuel
      → (b : Bool) × (verify_response_signature l fuel signature key m s r ≡ some b)
        × ((b ≡ true) ↔ (l.to_base64 (to_be_signed l m s r key) ≡ l.to_base64 decrypted))
  unfolding verify_response_signature
  verify_response_signature_iff fuel signature key m s r decrypted d f = (
    l.to_base64 (to_be_signed l m s r key) == l.to_base64 decrypted,
    rw (d, hashed_lem fuel m s r key f) refl,
    ==_iff (l.to_base64 (to_be_signed l m s r key)) (l.to_base64 decrypted),
  )
