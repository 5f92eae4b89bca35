-- ===== src/LogChain/Canonical.antt =====
-- `canonicalStringify` of packages/shared/src/engine/logManager.ts: the text of a value, with the
-- keys of objects in order. Texts are lists of code points, which are compared one by one: for
-- keys of the basic plane that is the order of `sort`.
use Prim.Native.String.{String}
use coldfi.Prelude.{
  ℕ, ◌+◌, ◌/◌, ◌%◌, ltb, ◌==◌, Bool, true, false, List, [], ◌∷◌, ◌++◌, if◌then◌else◌,
}
use coldfi.Account.Emails.{codes}

-- The values that metadata holds. A number is the text that `String` makes of it; what is null or
-- undefined is `null`.
mutual
  pub data Value : Type 0 where
    null : Value
    str : String → Value
    num : String → Value
    bool : Bool → Value
    object : Members → Value
    array : Elements → Value

  pub data Members : Type 0 where
    no_member : Members
    member : String → Value → Members → Members

  pub data Elements : Type 0 where
    no_element : Elements
    element : Value → Elements → Elements

abbrev pub hex_digit : ℕ → ℕ
hex_digit n = if ltb n 10 then n + b'0' else n + 87

-- `JSON.stringify` of one character of a text
abbrev pub escape : ℕ → List ℕ
escape c =
    if c == b'"'
    then codes "\\\""
    else if c == b'\\'
    then codes "\\\\"
    else if c == 8
    then codes "\\b"
    else if c == 9
    then codes "\\t"
    else if c == 10
    then codes "\\n"
    else if c == 12
    then codes "\\f"
    else if c == 13
    then codes "\\r"
    else if ltb c 32
    then codes "\\u00" ++ (hex_digit (c / 16) ∷ hex_digit (c % 16) ∷ [])
    else c ∷ []

abbrev pub escape_all : List ℕ → List ℕ
escape_all [] = []
escape_all (c ∷ cs) = escape c ++ escape_all cs

abbrev pub quoted : String → List ℕ
quoted s = b'"' ∷ (escape_all (codes s) ++ b'"' ∷ [])

-- one code point after the other
abbrev pub lt_codes : List ℕ → List ℕ → Bool
lt_codes cs [] = false
lt_codes [] (d ∷ ds) = true
lt_codes (c ∷ cs) (d ∷ ds) =
    let rest = lt_codes cs ds in if ltb c d then true else if c == d then rest else false

abbrev pub Pair : Type 0
Pair = List ℕ × List ℕ

-- `sort`: stable, by the keys
abbrev pub insert_pair : Pair → List Pair → List Pair
insert_pair p [] = p ∷ []
insert_pair p (q ∷ qs) =
    let rest = insert_pair p qs in if lt_codes q.0 p.0 then q ∷ rest else p ∷ q ∷ qs

abbrev pub sort_pairs : List Pair → List Pair
sort_pairs [] = []
sort_pairs (p ∷ ps) = insert_pair p (sort_pairs ps)

-- `join(',')`
abbrev pub join_comma : List (List ℕ) → List ℕ
join_comma [] = []
join_comma (t ∷ []) = t
join_comma (t ∷ u ∷ ts) = t ++ b',' ∷ join_comma (u ∷ ts)

abbrev pub pair_text : Pair → List ℕ
pair_text p = b'"' ∷ (escape_all p.0 ++ (b'"' ∷ b':' ∷ p.1))

abbrev pub pair_texts : List Pair → List (List ℕ)
pair_texts [] = []
pair_texts (p ∷ ps) = pair_text p ∷ pair_texts ps

unfoldable mutual
  pub canonical_stringify : Value → List ℕ
  canonical_stringify null = codes "null"
  canonical_stringify (str s) = quoted s
  canonical_stringify (num s) = codes s
  canonical_stringify (bool true) = codes "true"
  canonical_stringify (bool false) = codes "false"
  canonical_stringify (array xs) = b'[' ∷ (join_comma (canonical_elements xs) ++ b']' ∷ [])
  canonical_stringify (object fs) =
      b'{' ∷ (join_comma (pair_texts (sort_pairs (canonical_members fs))) ++ b'}' ∷ [])

  pub canonical_elements : Elements → List (List ℕ)
  canonical_elements no_element = []
  canonical_elements (element x xs) = canonical_stringify x ∷ canonical_elements xs

  -- the keys with the texts of their values
  pub canonical_members : Members → List Pair
  canonical_members no_member = []
  canonical_members (member k v fs) = (codes k, canonical_stringify v) ∷ canonical_members fs
