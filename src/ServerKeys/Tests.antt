-- ===== src/ServerKeys/Tests.antt =====
-- A key that is stored and read back.
use coldfi.Prelude.{◌≡◌, refl, some, [], ◌∷◌}
use coldfi.ServerKeys.{
  encrypt_server_key, decrypt_server_key, decrypt_server_key-encrypt_server_key,
}
use coldfi.ServerKeys.Sample.{sample_keys, sample_keys-IsKeyCrypto}

decrypt_server_key-encrypt_server_key_example :
    decrypt_server_key sample_keys (encrypt_server_key sample_keys (1 ∷ 2 ∷ []) "raw") ≡ some "raw"
decrypt_server_key-encrypt_server_key_example =
    decrypt_server_key-encrypt_server_key sample_keys (1 ∷ 2 ∷ []) "raw" sample_keys-IsKeyCrypto
      refl
