-- ===== src/Blob.antt =====
-- `decryptGroupBlob` and `encryptGroupBlob` of packages/backend/src/services/groupService.ts: the
-- stored text is base64(iv + ciphertext + tag).
--
-- Node's `crypto` and `Buffer` are not part of the repository: AES-256-GCM and base64 are the
-- operations of a parameter, with the laws that their documentation states.
pub mod Sample
use Prim.Native.String.{String}
use mathlib.Core.List.{append_assoc}
use coldfi.Prelude.{
  ℕ, ◌+◌, ◌-◌, ◌≡◌, List, [], ◌++◌, Option, none, some, ltb, if◌then◌else◌, arith, length, take,
  drop, length-append, take-append, drop-append, ap, sym, ◌∙◌, ◌≢◌,
}

abbrev pub Bytes : Type 0
Bytes = List ℕ

take-append_of : (n : ℕ) (xs ys : Bytes) → n ≡ length xs → take n (xs ++ ys) ≡ xs
take-append_of n xs ys h = rw h (take-append xs ys)

drop-append_of : (n : ℕ) (xs ys : Bytes) → n ≡ length xs → drop n (xs ++ ys) ≡ ys
drop-append_of n xs ys h = rw h (drop-append xs ys)

drop-append_two :
    (n : ℕ) (xs ys zs : Bytes) → n ≡ length xs + length ys → drop n (xs ++ (ys ++ zs)) ≡ zs
drop-append_two n xs ys zs h =
    rw (← append_assoc xs ys zs)
      (drop-append_of n (xs ++ ys) zs (omega (arith, length-append xs ys)))

pub record Aead : Type 0 where
  -- `createCipheriv`, `update`, `final`, `getAuthTag`: by key, iv and plaintext
  pub seal : Bytes → Bytes → Bytes → Bytes
  pub auth_tag : Bytes → Bytes → Bytes → Bytes
  -- `createDecipheriv`, `setAuthTag`, `update`, `final`: by key, iv, tag and ciphertext. `none` is
  -- an exception: the tag does not fit.
  pub unseal : Bytes → Bytes → Bytes → Bytes → Option Bytes
  pub encode : Bytes → String
  pub decode : String → Bytes

abbrev pub iv_length : ℕ
iv_length = 12

abbrev pub tag_length : ℕ
tag_length = 16

pub record IsAead (c : Aead) : Type 0 where
  pub tag_size : (key iv plain : Bytes) → length (c.auth_tag key iv plain) ≡ tag_length
  pub unseal-seal :
      (key iv plain : Bytes)
      → c.unseal key iv (c.auth_tag key iv plain) (c.seal key iv plain) ≡ some plain
  pub decode-encode : (bytes : Bytes) → c.decode (c.encode bytes) ≡ bytes
  pub decode-empty : c.decode "" ≡ []

module _ (c : Aead) where
  abbrev open_combined : Bytes → Bytes → Option Bytes
  open_combined key combined =
      if ltb (length combined) (iv_length + tag_length)
      then none
      else c.unseal key (take iv_length combined) (drop (length combined - tag_length) combined)
          (take (length combined - tag_length - iv_length) (drop iv_length combined))

  -- `none` stands for both exceptions, the length check's and the cipher's.
  unfoldable pub decrypt_group_blob : Bytes → String → Option Bytes
  decrypt_group_blob key blob = open_combined key (c.decode blob)

  -- `iv` is what `crypto.randomBytes(BLOB_IV_LENGTH)` gives.
  unfoldable pub encrypt_group_blob : Bytes → Bytes → Bytes → String
  encrypt_group_blob iv key plain =
      c.encode (iv ++ (c.seal key iv plain ++ c.auth_tag key iv plain))

  module _ (laws : IsAead c) where
    open laws use {tag_size, unseal-seal, decode-encode, decode-empty}

    open_combined-layout :
        (key iv body tag : Bytes)
        → length iv ≡ iv_length
        → length tag ≡ tag_length
        → open_combined key (iv ++ (body ++ tag)) ≡ c.unseal key iv tag body
    open_combined-layout key iv body tag hi ht =
        let all : Bytes = iv ++ (body ++ tag) in
        let size : length all ≡ 12 + (length body + 16) =
          omega (arith, length-append iv (body ++ tag), length-append body tag) in
        ground (
          arith,
          take-append_of 12 iv (body ++ tag),
          drop-append_of 12 iv (body ++ tag),
          take-append_of (length all - 16 - 12) body tag,
          drop-append_two (length all - 16) iv body tag,
        )

    -- Under the laws of the cipher and with an iv of twelve bytes, what is encrypted under a key
    -- decrypts under that key to the same text.
    pub decrypt-encrypt :
        (key iv plain : Bytes)
        → length iv ≡ iv_length
        → decrypt_group_blob key (encrypt_group_blob iv key plain) ≡ some plain
    unfolding decrypt_group_blob encrypt_group_blob
    decrypt-encrypt key iv plain h = rw decode-encode (
        open_combined-layout key iv (c.seal key iv plain) (c.auth_tag key iv plain) h
          (tag_size key iv plain)
        ∙ unseal-seal key iv plain)

    -- An encrypted text is not the empty text.
    pub encrypt-ne-empty :
        (iv key plain : Bytes)
        → length iv ≡ iv_length
        → ◌≢◌ {A = String} (encrypt_group_blob iv key plain) ""
    unfolding encrypt_group_blob
    encrypt-ne-empty iv key plain h e =
        let body = c.seal key iv plain ++ c.auth_tag key iv plain in
        let nothing : iv ++ body ≡ [] =
          sym (decode-encode (iv ++ body)) ∙ ap c.decode e ∙ decode-empty in
        let size : length (iv ++ body) ≡ 0 = ap length nothing in
        absurd (omega (arith, length-append iv body))
