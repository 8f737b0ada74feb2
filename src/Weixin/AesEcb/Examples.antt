-- ===== src/Weixin/AesEcb/Examples.antt =====
-- src/weixin/cdn/aes_ecb.cpp with a cipher that hands its blocks on.
use kabot.Base.{some, List, ℕ, [], ◌∷◌, ◌≡◌, refl, replicate, arith}
use kabot.Weixin.AesEcb.{Cipher, Works, encrypt, decrypt, decrypt-encrypt}

abbrev handing_on : Cipher
handing_on = record {
  encrypt_blocks = λ key bytes n. some bytes;
  decrypt_blocks = λ key bytes n. some bytes;
}

handing_on-Works : Works handing_on
handing_on-Works = record {
  encrypted = λ key bytes. bytes;
  encrypts = λ key bytes k b small. refl;
  decrypts = λ key bytes k b small. refl;
  length-encrypted = λ key bytes. refl;
}

abbrev key : List ℕ
key = replicate 16 7

decrypt-encrypt_example :
    decrypt handing_on (encrypt handing_on (1 ∷ 2 ∷ 3 ∷ []) key) key ≡ some (1 ∷ 2 ∷ 3 ∷ [])
decrypt-encrypt_example =
    decrypt-encrypt handing_on (1 ∷ 2 ∷ 3 ∷ []) key handing_on-Works refl (omega arith)
