-- ===== src/ServerKeys/Sample.antt =====
-- An encoding with the laws of `IsKeyCrypto`, over the cipher of Blob/Sample. Texts of small
-- letters are well-formed.
use Prim.Native.Char.{code}
use Prim.Native.String.{String}
use coldfi.Prelude.{ℕ, zero, suc, ◌-◌, ◌≡◌, refl, false, [], ◌∷◌}
use coldfi.Blob.{Bytes}
use coldfi.Blob.Sample.{unary, written, sample_aead, sample_aead-IsAead}
use coldfi.ServerKeys.{KeyCrypto, IsKeyCrypto, has_colon}

abbrev pub letters : String
letters = "abcdefghijklmnopqrstuvwxyz"

abbrev pub points : String → Bytes
points String.[] = []
points (String.◌∷◌ c s) = code c ∷ points s

-- the letter at a place, in front of a text
abbrev pub put_letter : String → ℕ → String → String
put_letter String.[] n s = s
put_letter (String.◌∷◌ c rest) zero s = String.◌∷◌ c s
put_letter (String.◌∷◌ c rest) (suc n) s = put_letter rest n s

abbrev pub spelled : Bytes → String
spelled [] = ""
spelled (b ∷ bytes) = put_letter letters (b - 97) (spelled bytes)

abbrev pub sample_keys : KeyCrypto
sample_keys = record {
  aead = sample_aead;
  to_hex = sample_aead.encode;
  from_hex = sample_aead.decode;
  utf8 = points;
  from_utf8 = spelled;
  server_encryption_key = written (7 ∷ 7 ∷ []);
}

unary_plain : (n : ℕ) (s : String) → has_colon s ≡ false → has_colon (unary n s) ≡ false
unary_plain zero s h = h
unary_plain (suc n) s h = unary_plain n s h

written_plain : (bytes : Bytes) → has_colon (written bytes) ≡ false
written_plain [] = refl
written_plain (b ∷ bytes) = unary_plain b (written bytes) (written_plain bytes)

pub sample_keys-IsKeyCrypto : IsKeyCrypto sample_keys
sample_keys-IsKeyCrypto = record {
  cipher = sample_aead-IsAead;
  from_hex-to_hex = sample_aead-IsAead.decode-encode;
  to_hex_plain = written_plain;
}
