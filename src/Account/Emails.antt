-- ===== src/Account/Emails.antt =====
-- `isValidEmail` of packages/shared/src/utils/validators.ts: the expression
-- /^[^\s@]+@[^\s@]+\.[a-zA-Z]{2,}$/ on the code points of a text.
use Prim.Native.String.{String}
use Prim.Native.Char.{code}
use mathlib.Core.List.{reverse}
use coldfi.Prelude.{
  ℕ, ltb, leb, ◌==◌, Bool, false, not, ◌&&◌, ◌||◌, List, [], ◌∷◌, length, any, if◌then◌else◌,
}

abbrev pub codes : String → List ℕ
codes String.[] = []
codes (String.◌∷◌ c s) = code c ∷ codes s

-- `\s`
abbrev pub is_space : ℕ → Bool
is_space c =
    leb 9 c && leb c 13
    || any (λ s. s == c) (32 ∷ 160 ∷ 5760 ∷ 8232 ∷ 8233 ∷ 8239 ∷ 8287 ∷ 12_288 ∷ 65_279 ∷ [])
    || leb 8192 c && leb c 8202

-- `[^\s@]`
abbrev pub is_plain : ℕ → Bool
is_plain c = not (is_space c) && not (c == b'@')

-- `[a-zA-Z]`
abbrev pub is_letter : ℕ → Bool
is_letter c = leb b'a' c && leb c b'z' || leb b'A' c && leb c b'Z'

-- the longest prefix of such code points, and the rest
abbrev pub span : (ℕ → Bool) → List ℕ → List ℕ × List ℕ
span p [] = ([], [])
span p (c ∷ cs) = let rest = span p cs in if p c then (c ∷ rest.0, rest.1) else ([], c ∷ cs)

abbrev pub all_plain : List ℕ → Bool
all_plain cs = not (any (λ c. not (is_plain c)) cs)

-- `[^\s@]+`, on a text read backwards after a dot
abbrev pub is_name : List ℕ → Bool
is_name [] = false
is_name (c ∷ cs) = c == b'.' && ltb 0 (length cs) && all_plain cs

-- `[^\s@]+\.[a-zA-Z]{2,}$`: the letters at the end start after the last dot
abbrev pub is_domain : List ℕ → Bool
is_domain cs =
    let (letters, rest) = span is_letter (reverse cs) in leb 2 (length letters) && is_name rest

abbrev pub at_domain : List ℕ → Bool
at_domain [] = false
at_domain (c ∷ cs) = c == b'@' && is_domain cs

unfoldable pub is_valid_email : String → Bool
is_valid_email email =
    let (name, rest) = span is_plain (codes email) in ltb 0 (length name) && at_domain rest
