-- ===== src/Blob/Sample.antt =====
-- A cipher and an encoding with the laws of `IsAead`, for runs on concrete input. The tag carries
-- the first byte of the key, and a byte is written as that many 'a's and a 'b'.
use Prim.Native.String.{String}
use Prim.Native.Char.{code}
use coldfi.Prelude.{
  ℕ, zero, suc, ◌+◌, ◌==◌, ==_refl, ◌≡◌, refl, none, some, [], ◌∷◌, if◌then◌else◌, arith,
}
use coldfi.Blob.{Bytes, Aead, IsAead}

abbrev pub first : Bytes → ℕ
first [] = 0
first (b ∷ _) = b

abbrev pub sample_tag : Bytes → Bytes
sample_tag key = first key ∷ 0 ∷ 0 ∷ 0 ∷ 0 ∷ 0 ∷ 0 ∷ 0 ∷ 0 ∷ 0 ∷ 0 ∷ 0 ∷ 0 ∷ 0 ∷ 0 ∷ 0 ∷ []

abbrev pub unary : ℕ → String → String
unary zero s = String.◌∷◌ "b" s
unary (suc n) s = String.◌∷◌ "a" (unary n s)

abbrev pub written : Bytes → String
written [] = ""
written (b ∷ bytes) = unary b (written bytes)

-- what is read after `n` 'a's
abbrev pub read_after : ℕ → String → Bytes
read_after n String.[] = []
read_after n (String.◌∷◌ c s) =
    let more = read_after (suc n) s in
    let rest = read_after 0 s in if code c == 97 then more else n ∷ rest

abbrev pub sample_aead : Aead
sample_aead = record {
  seal = λ key iv plain. plain;
  auth_tag = λ key iv plain. sample_tag key;
  unseal = λ key iv tag body. if first tag == first key then some body else none;
  encode = written;
  decode = read_after 0;
}

read_after-unary : (k n : ℕ) (s : String) → read_after k (unary n s) ≡ (k + n) ∷ read_after 0 s
read_after-unary k zero s = ground arith
read_after-unary k (suc n) s = ground (arith, read_after-unary (suc k) n s)

read_after-written : (bytes : Bytes) → read_after 0 (written bytes) ≡ bytes
read_after-written [] = refl
read_after-written (b ∷ bytes) =
    ground (arith, read_after-unary 0 b (written bytes), read_after-written bytes)

pub sample_aead-IsAead : IsAead sample_aead
sample_aead-IsAead = record {
  tag_size = λ key iv plain. refl;
  unseal-seal = λ key iv plain. rw (==_refl (first key)) refl;
  decode-encode = read_after-written;
  decode-empty = refl;
}
