-- ===== src/ServerKeys.antt =====
-- `encryptServerKey` and `decryptServerKey` of packages/backend/src/services/cryptoUtils.ts: the
-- stored text is hex(iv) + ':' + hex(tag) + ':' + hex(ciphertext).
--
-- Node's `crypto` and `Buffer` are not part of the repository: they are the operations of a
-- parameter, with the laws that their documentation states.
pub mod Sample
mod Tests
use text.Mathlib.Text.{◌==◌ as str_eq}
use text.Mathlib.TextEquality.{eq_iff}
use Prim.Native.String.append
use Prim.Native.Char.{Char, code}
use Prim.Native.String.{String, ◌++◌}
use coldfi.Prelude.{
  ℕ, ◌==◌, ◌≡◌, refl, sym, ap, ◌∙◌, Bool, true, false, Option, none, some, List, [], ◌∷◌,
  if◌then◌else◌, arith, Bool-cases, inl, inr,
}
use coldfi.Blob.{Bytes, Aead, IsAead}

pub record KeyCrypto : Type 0 where
  pub aead : Aead
  -- `toString('hex')` and `Buffer.from(text, 'hex')`
  pub to_hex : Bytes → String
  pub from_hex : String → Bytes
  -- what a cipher takes and gives for 'utf8'
  pub utf8 : String → Bytes
  pub from_utf8 : Bytes → String
  -- `config.SERVER_ENCRYPTION_KEY`
  pub server_encryption_key : String

-- a character before the first of the parts
abbrev pub push : Char → List String → List String
push c [] = String.◌∷◌ c "" ∷ []
push c (p ∷ ps) = String.◌∷◌ c p ∷ ps

-- `text.split(':')`
abbrev pub split : String → List String
split String.[] = "" ∷ []
split (String.◌∷◌ c s) = let rest = split s in if code c == b':' then "" ∷ rest else push c rest

abbrev pub has_colon : String → Bool
has_colon String.[] = false
has_colon (String.◌∷◌ c s) = let rest = has_colon s in if code c == b':' then true else rest

abbrev pub decoded : (Bytes → String) → Option Bytes → Option String
decoded from_utf8 none = none
decoded from_utf8 (some bytes) = some (from_utf8 bytes)

module _ (k : KeyCrypto) where
  abbrev pub secret : Bytes
  secret = k.from_hex k.server_encryption_key

  -- `iv` is what `crypto.randomBytes(12)` gives.
  unfoldable pub encrypt_server_key : Bytes → String → String
  encrypt_server_key iv plaintext =
      let encrypted = k.aead.seal secret iv (k.utf8 plaintext) in
      let tag = k.aead.auth_tag secret iv (k.utf8 plaintext) in
      k.to_hex iv ++ ":" ++ k.to_hex tag ++ ":" ++ k.to_hex encrypted

  -- `Buffer.from` throws on a part that is missing; `none` is an exception.
  unfoldable pub decrypt_parts : List String → Option String
  decrypt_parts (iv ∷ tag ∷ encrypted ∷ rest) =
      decoded k.from_utf8
        (k.aead.unseal secret (k.from_hex iv) (k.from_hex tag) (k.from_hex encrypted))
  decrypt_parts _ = none

  unfoldable pub decrypt_server_key : String → Option String
  unfolding decrypt_parts
  decrypt_server_key ciphertext = decrypt_parts (split ciphertext)

-- the documented laws: hex digits are no colons and read back, and the cipher opens what it sealed
pub record IsKeyCrypto (k : KeyCrypto) : Type 0 where
  pub cipher : IsAead k.aead
  pub from_hex-to_hex : (bytes : Bytes) → k.from_hex (k.to_hex bytes) ≡ bytes
  pub to_hex_plain : (bytes : Bytes) → has_colon (k.to_hex bytes) ≡ false

-- The text survives UTF-8, as every text without lone surrogates does.
abbrev pub IsWellFormed : KeyCrypto → String → Type 0
IsWellFormed k text = k.from_utf8 (k.utf8 text) ≡ text

split_plain : (p : String) → has_colon p ≡ false → split p ≡ p ∷ []
split_plain String.[] h = refl
split_plain (String.◌∷◌ c s) h = elim (Bool-cases (code c == b':')) [
  | inl t ↦ cc
  | inr f ↦ rw (f, split_plain s (sym (rw (f) refl) ∙ h)) refl
]

split-append : (p q : String) → has_colon p ≡ false → split (p ++ ":" ++ q) ≡ p ∷ split q
split-append String.[] q h = rw (append.nil (":" ++ q), append.cons _ _ q, append.nil q) refl
split-append (String.◌∷◌ c s) q h = elim (Bool-cases (code c == b':')) [
  | inl t ↦ cc
  | inr f ↦
      let rest = split-append s q (sym (rw (f) refl) ∙ h) in
      rw (append.cons c s (":" ++ q), f, rest) refl
]

-- The parts of a stored text: the iv, the tag and the ciphertext.
split-encrypt_server_key :
    (k : KeyCrypto) (iv : Bytes) (text : String)
    → IsKeyCrypto k
    → split (encrypt_server_key k iv text)
      ≡ k.to_hex iv
        ∷ k.to_hex (k.aead.auth_tag (secret k) iv (k.utf8 text))
        ∷ k.to_hex (k.aead.seal (secret k) iv (k.utf8 text))
        ∷ []
unfolding encrypt_server_key
split-encrypt_server_key k iv text laws =
    let encrypted = k.aead.seal (secret k) iv (k.utf8 text) in
    let tag = k.aead.auth_tag (secret k) iv (k.utf8 text) in
    let last = split_plain (k.to_hex encrypted) (laws.to_hex_plain encrypted) in
    let two = split-append (k.to_hex tag) (k.to_hex encrypted) (laws.to_hex_plain tag) in
    let one =
      split-append (k.to_hex iv) (k.to_hex tag ++ ":" ++ k.to_hex encrypted)
        (laws.to_hex_plain iv) in
    one ∙ ap (λ ps. k.to_hex iv ∷ ps) (two ∙ ap (λ ps. k.to_hex tag ∷ ps) last)

-- With a cipher and an encoding that have the documented laws, `decryptServerKey` reads back what
-- `encryptServerKey` makes, under any iv, of a text that is well-formed.
pub decrypt_server_key-encrypt_server_key :
    (k : KeyCrypto) (iv : Bytes) (text : String)
    → IsKeyCrypto k
    → IsWellFormed k text
    → decrypt_server_key k (encrypt_server_key k iv text) ≡ some text
unfolding decrypt_server_key decrypt_parts
decrypt_server_key-encrypt_server_key k iv text laws good =
    let encrypted = k.aead.seal (secret k) iv (k.utf8 text) in
    let tag = k.aead.auth_tag (secret k) iv (k.utf8 text) in
    ap (decrypt_parts k) (split-encrypt_server_key k iv text laws)
    ∙ rw
        (
          laws.from_hex-to_hex iv,
          laws.from_hex-to_hex tag,
          laws.from_hex-to_hex encrypted,
          laws.cipher.unseal-seal (secret k) iv (k.utf8 text),
          good,
        )
        refl

-- An encrypted key is not the empty text.
pub encrypt_server_key-ne_empty :
    (k : KeyCrypto) (iv : Bytes) (text : String)
    → IsKeyCrypto k
    → str_eq (encrypt_server_key k iv text) "" ≡ false
encrypt_server_key-ne_empty k iv text laws =
    elim (Bool-cases (str_eq (encrypt_server_key k iv text) "")) [
      | inr f ↦ f
      | inl t ↦
          let empty = ap split ((eq_iff (encrypt_server_key k iv text) "").0 t) in
          let parts = split-encrypt_server_key k iv text laws in cc
    ]
