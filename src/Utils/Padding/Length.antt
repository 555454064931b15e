-- ===== src/Utils/Padding/Length.antt =====
-- The padding loop ends, and what an accessor signs is as long as its key.
use mathlib.Core.List.{append-nil, append_assoc}
use ndidplatform_api.Base.{
  ℕ, zero, suc, ◌+◌, ◌-◌, ◌*◌, ◌/◌, ◌≤◌, ◌<◌, String, ◌≡◌, refl, sym, ap, ◌∙◌, some, List, [], ◌∷◌,
  ◌++◌, length, length-append, arith, Bool-cases, inl, inr, leb,
}
use ndidplatform_api.Utils.Padding.{
  Libraries, salt_length, slice, zeros, pad_length, salt_of_round, add_padding, fill, after_padding,
  get_data_hash_with_custom_padding,
}

length-slice : (n : ℕ) (bs : List ℕ) → n ≤ length bs → length (slice n bs) ≡ n
unfolding slice
length-slice zero bs h = refl
length-slice (suc n) [] h = absurd (omega arith)
length-slice (suc n) (b ∷ bs) h = omega (arith, length-slice n bs (omega arith))

length-zeros : (n : ℕ) → length (zeros n) ≡ n
unfolding zeros
length-zeros zero = refl
length-zeros (suc n) = omega (arith, length-zeros n)

length-fill : (n : ℕ) (bs : List ℕ) → length bs ≤ n → length (fill n bs) ≡ n
unfolding fill
length-fill n bs h =
    ground (arith, length-append (zeros (n - length bs)) bs, length-zeros (n - length bs))

-- The salts of `n` rounds from round `i` on.
unfoldable pub salts : Libraries → String → ℕ → ℕ → List ℕ
salts l initial_salt i zero = []
salts l initial_salt i (suc n) = salt_of_round l initial_salt i ++ salts l initial_salt (suc i) n

module _ (l : Libraries) (digest : (m : String) → length (l.sha256 m) ≡ 32) where
  length-salt_of_round : (s : String) (i : ℕ) → length (salt_of_round l s i) ≡ salt_length
  unfolding salt_of_round
  length-salt_of_round s i = length-slice salt_length _ (omega (arith, digest _))

  -- The loop goes `n` rounds from round `i` on where `n` more salts fit and one more does not.
  add_padding_lem :
      (s : String) (limit n fuel i : ℕ) (buffer : List ℕ)
      → length buffer + n * salt_length ≤ limit
      → limit < length buffer + n * salt_length + salt_length
      → n < fuel
      → add_padding l s limit fuel i buffer ≡ some (buffer ++ salts l s i n)
  unfolding add_padding salts
  add_padding_lem s limit n zero i buffer lo hi f = absurd (omega arith)
  add_padding_lem s limit zero (suc fuel) i buffer lo hi f =
      elim (Bool-cases (leb (length buffer + salt_length) limit)) [
        | inl t ↦ absurd (ground arith)
        | inr e ↦ rw e (ap some (sym (append-nil buffer)))
      ]
  add_padding_lem s limit (suc n) (suc fuel) i buffer lo hi f =
      let size = length-append buffer (salt_of_round l s i) in
      let one = length-salt_of_round s i in
      elim (Bool-cases (leb (length buffer + salt_length) limit)) [
        | inl t ↦ rw t (
            add_padding_lem s limit n fuel (suc i) (buffer ++ salt_of_round l s i) (omega arith)
              (omega arith) (omega arith)
            ∙ ap some (append_assoc buffer (salt_of_round l s i) (salts l s (suc i) n)))
        | inr e ↦ absurd (ground arith)
      ]

  length-salts : (s : String) (i n : ℕ) → length (salts l s i n) ≡ n * salt_length
  unfolding salts
  length-salts s i zero = refl
  length-salts s i (suc n) = omega (
    arith,
    length-append (salt_of_round l s i) (salts l s (suc i) n),
    length-salt_of_round s i,
    length-salts s (suc i) n,
  )

  -- For digests of 32 bytes and a fuel above 14, the padding of a block of 2048 bits is the salts of
  -- the rounds 1 to 14, and with a hash of 32 bytes fills the block's 256 bytes.
  pub padding_fills_block :
      (s : String) (fuel : ℕ) (hash : List ℕ)
      → length hash ≡ 32
      → 14 < fuel
      → (padding : List ℕ) × (add_padding l s (pad_length 2048) fuel 1 [] ≡ some padding)
        × (padding ≡ salts l s 1 14)
        × (length (padding ++ hash) * 8 ≡ 2048)
  unfolding pad_length
  padding_fills_block s fuel hash h f = (
    salts l s 1 14,
    add_padding_lem s 224 14 fuel 1 [] (omega arith) (omega arith) f,
    refl,
    omega (arith, length-append (salts l s 1 14) hash, length-salts s 1 14),
  )

  -- For digests of 32 bytes, where a number below the modulus has no more bytes than it, and for any
  -- length of a block: with more fuel than rounds the padding ends and what is signed is as long as
  -- the key's modulus.
  pub hash_has_key_length :
      (mod_below : (a m : ℕ) → 0 < m → l.mod_by a m < m) (key hash : List ℕ)
      (fits : (a : ℕ) → a < l.from_buffer key → length (l.to_buffer a) ≤ length key) (s : String)
      (fuel block_length : ℕ)
      → 0 < l.from_buffer key
      → pad_length block_length / salt_length < fuel
      → (signed : List ℕ) × (get_data_hash_with_custom_padding l fuel s key hash block_length
          ≡ some signed)
        × (length signed ≡ length key)
  unfolding get_data_hash_with_custom_padding after_padding
  hash_has_key_length mod_below key hash fits s fuel block_length positive f =
      let n = pad_length block_length / salt_length in
      (
        after_padding l key hash (salts l s 1 n),
        rw (add_padding_lem s (pad_length block_length) n fuel 1 [] (omega arith) (omega arith) f)
            refl,
        length-fill (length key) _ (fits _ (mod_below _ _ positive)),
      )
