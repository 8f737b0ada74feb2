-- ===== src/Weixin/AesEcb.antt =====
-- src/weixin/cdn/aes_ecb.cpp: AES-128-ECB with the PKCS7 padding done by hand. A byte is a number. The
-- cipher is OpenSSL's, without padding, and stays an argument that is given the key, the bytes and their
-- number as an `int`; `none` is a call of it that fails.
-- Decrypt is `none` where it reads the last byte of an empty result.
mod Examples
use kabot.Base.Int.{ℤ, pos, negsuc}
use kabot.Base.{
  ◌^◌, zero, ℕ, suc, ◌+◌, ◌-◌, ◌*◌, ◌/◌, ◌%◌, ◌<◌, ◌≤◌, Bool, true, false, not, ◌&&◌, ◌||◌, ◌==◌,
  Option, none, some, List, [], ◌∷◌, ◌++◌, ◌≡◌, refl, sym, ap, ◌∙◌, ltb, leb, length, take,
  replicate, arith, length-append, length-replicate, take-length-append, if◌then◌else◌, lt→ltb,
  le→leb, ==_iff,
}

pub record Cipher : Type 0 where
  pub encrypt_blocks : List ℕ → List ℕ → ℤ → Option (List ℕ)
  pub decrypt_blocks : List ℕ → List ℕ → ℤ → Option (List ℕ)

-- static_cast<int> of a size.
unfoldable pub to_int : ℕ → ℤ
to_int n = let low = n % 2 ^ 32 in if ltb low (2 ^ 31) then pos low else negsuc (2 ^ 32 - 1 - low)

abbrev pub block_size : ℕ
block_size = 16

unfoldable pub calculate_padded_size : ℕ → ℕ
calculate_padded_size data_size = (data_size / block_size + 1) * block_size

unfoldable pub pad : List ℕ → List ℕ
unfolding calculate_padded_size
pad bytes =
    let padding_value = calculate_padded_size (length bytes) - length bytes in
    bytes ++ replicate padding_value padding_value

unfoldable pub encrypt : Cipher → List ℕ → List ℕ → List ℕ
unfolding pad to_int
encrypt cipher bytes key =
    if not (length key == block_size)
    then []
    else elim (cipher.encrypt_blocks key (pad bytes) (to_int (length (pad bytes)))) [
      | none ↦ []
      | some result ↦ result
    ]

unfoldable pub back : List ℕ → Option ℕ
back [] = none
back (x ∷ []) = some x
back (x ∷ y ∷ xs) = back (y ∷ xs)

abbrev pub without_padding : List ℕ → Option ℕ → Option (List ℕ)
without_padding result none = none
without_padding result (some padding_value) =
    if ltb 0 padding_value && leb padding_value block_size
    then some (take (length result - padding_value) result)
    else some result

unfoldable pub unpad : List ℕ → Option (List ℕ)
unfolding back
unpad result = without_padding result (back result)

unfoldable pub decrypt : Cipher → List ℕ → List ℕ → Option (List ℕ)
unfolding unpad to_int
decrypt cipher bytes key =
    if not (length key == block_size) || not (length bytes % block_size == 0)
    then some []
    else elim (cipher.decrypt_blocks key bytes (to_int (length bytes))) [
      | none ↦ some []
      | some result ↦ unpad result
    ]

-- What OpenSSL documents of the cipher on whole blocks, with a key of 16 bytes and the number of the
-- bytes, an `int`.
pub record Works (cipher : Cipher) : Type 0 where
  pub encrypted : List ℕ → List ℕ → List ℕ
  pub encrypts :
      (key bytes : List ℕ)
      → length key ≡ block_size
      → length bytes % block_size ≡ 0
      → length bytes < 2 ^ 31
      → cipher.encrypt_blocks key bytes (pos (length bytes)) ≡ some (encrypted key bytes)
  pub decrypts :
      (key bytes : List ℕ)
      → length key ≡ block_size
      → length bytes % block_size ≡ 0
      → length bytes < 2 ^ 31
      → cipher.decrypt_blocks key (encrypted key bytes) (pos (length bytes)) ≡ some bytes
  pub length-encrypted : (key bytes : List ℕ) → length (encrypted key bytes) ≡ length bytes

int_of_small : (n : ℕ) → n < 2 ^ 31 → to_int n ≡ pos n
unfolding to_int
int_of_small n h = ground (arith, h)

length-pad : (bytes : List ℕ) → length (pad bytes) ≡ calculate_padded_size (length bytes)
unfolding pad calculate_padded_size
length-pad bytes =
    length-append bytes _ ∙ ap (λ n. length bytes + n) (length-replicate _ _) ∙ omega arith

padded_size-IsBlocks : (n : ℕ) → calculate_padded_size n % block_size ≡ 0
unfolding calculate_padded_size
padded_size-IsBlocks n = omega arith

back-pad : (bytes : List ℕ) (n v : ℕ) → back (bytes ++ replicate (suc n) v) ≡ some v
unfolding back
back-pad [] zero v = refl
back-pad [] (suc n) v = back-pad [] n v
back-pad (x ∷ []) n v = back-pad [] n v
back-pad (x ∷ y ∷ bytes) n v = back-pad (y ∷ bytes) n v

take-pad :
    (bytes : List ℕ) (v : ℕ)
    → take (length (bytes ++ replicate v v) - v) (bytes ++ replicate v v) ≡ bytes
take-pad bytes v =
    ap (λ n. take n (bytes ++ replicate v v))
      (ap (λ n. n - v)
          (length-append bytes (replicate v v) ∙ ap (λ n. length bytes + n) (length-replicate v v))
        ∙ omega arith)
    ∙ take-length-append bytes (replicate v v)

without-pad :
    (bytes : List ℕ) (v : ℕ)
    → 0 < v
    → v ≤ block_size
    → without_padding (bytes ++ replicate v v) (back (bytes ++ replicate v v)) ≡ some bytes
without-pad bytes zero h k = absurd (omega (arith, h))
without-pad bytes (suc n) h k =
    rw (back-pad bytes n (suc n), lt→ltb 0 (suc n) h, le→leb (suc n) block_size k)
      (ap some (take-pad bytes (suc n)))

unpad-pad : (bytes : List ℕ) → unpad (pad bytes) ≡ some bytes
unfolding unpad pad calculate_padded_size
unpad-pad bytes = without-pad bytes _ (omega arith) (omega arith)

pad-IsBlocks : (bytes : List ℕ) → length (pad bytes) % block_size ≡ 0
pad-IsBlocks bytes = rw (length-pad bytes) (padded_size-IsBlocks (length bytes))

pad_small : (bytes : List ℕ) → length bytes + block_size < 2 ^ 31 → length (pad bytes) < 2 ^ 31
unfolding calculate_padded_size
pad_small bytes h = omega (arith, h, length-pad bytes)

encrypt-encrypted :
    (cipher : Cipher) (bytes key : List ℕ) (works : Works cipher)
    → length key ≡ block_size
    → length bytes + block_size < 2 ^ 31
    → encrypt cipher bytes key ≡ works.encrypted key (pad bytes)
unfolding encrypt
encrypt-encrypted cipher bytes key works k small =
    rw
      (
        encrypt,
        (==_iff (length key) block_size).1 k,
        int_of_small (length (pad bytes)) (pad_small bytes small),
        works.encrypts key (pad bytes) k (pad-IsBlocks bytes) (pad_small bytes small),
      )
      refl

decrypt-encrypted :
    (cipher : Cipher) (bytes key : List ℕ) (works : Works cipher)
    → length key ≡ block_size
    → length bytes % block_size ≡ 0
    → length bytes < 2 ^ 31
    → decrypt cipher (works.encrypted key bytes) key ≡ unpad bytes
unfolding decrypt
decrypt-encrypted cipher bytes key works k b small =
    rw
      (
        decrypt,
        (==_iff (length key) block_size).1 k,
        works.length-encrypted key bytes,
        (==_iff (length bytes % block_size) 0).1 b,
        int_of_small (length bytes) small,
        works.decrypts key bytes k b small,
      )
      refl

-- With a cipher that works as documented and a key of 16 bytes, decrypting what was encrypted gives the
-- bytes back, for any number of bytes below 2 ^ 31 - 16.
pub decrypt-encrypt :
    (cipher : Cipher) (bytes key : List ℕ)
    → Works cipher
    → length key ≡ block_size
    → length bytes + block_size < 2 ^ 31
    → decrypt cipher (encrypt cipher bytes key) key ≡ some bytes
unfolding decrypt encrypt
decrypt-encrypt cipher bytes key works k small =
    ap (λ sent. decrypt cipher sent key) (encrypt-encrypted cipher bytes key works k small)
    ∙ decrypt-encrypted cipher (pad bytes) key works k (pad-IsBlocks bytes) (pad_small bytes small)
    ∙ unpad-pad bytes

-- With a cipher that works as documented, a key of 16 bytes and fewer than 2 ^ 31 - 16 bytes, the
-- encrypted bytes are whole blocks, longer than the bytes by at least one and at most 16.
pub length-encrypt :
    (cipher : Cipher) (bytes key : List ℕ)
    → Works cipher
    → length key ≡ block_size
    → length bytes + block_size < 2 ^ 31
    → (length (encrypt cipher bytes key) % block_size ≡ 0)
      × (length bytes < length (encrypt cipher bytes key))
      × (length (encrypt cipher bytes key) ≤ length bytes + block_size)
unfolding encrypt calculate_padded_size
length-encrypt cipher bytes key works k small =
    let e : length (encrypt cipher bytes key) ≡ calculate_padded_size (length bytes) =
      ap length (encrypt-encrypted cipher bytes key works k small)
      ∙ works.length-encrypted key (pad bytes)
      ∙ length-pad bytes in
    (omega (arith, e), omega (arith, e), omega (arith, e))

nil-of-length : (xs : List ℕ) → length xs ≡ 0 → [] ≡ xs
nil-of-length [] h = refl
nil-of-length (x ∷ xs) h = absurd (omega (arith, h))

-- With a cipher that works as documented and a key of 16 bytes, decrypting no bytes reads the last byte of an
-- empty result, which is undefined.
pub decrypt-empty :
    (cipher : Cipher) (key : List ℕ)
    → Works cipher
    → length key ≡ block_size
    → decrypt cipher [] key ≡ none
unfolding unpad back
decrypt-empty cipher key works k =
    ap (λ sent. decrypt cipher sent key)
      (nil-of-length (works.encrypted key []) (works.length-encrypted key []))
    ∙ decrypt-encrypted cipher [] key works k refl (omega arith)
