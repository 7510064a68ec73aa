-- ===== src/Contract/Text.antt =====
-- The text rules of contracts/v1/analysis_run.py: identifiers, digests, UUIDs and safe messages.
use technical_test_mitus_ai.Prelude.{
  ℕ, suc, ◌+◌, String, ◌≡◌, refl, Bool, true, false, ◌&&◌, ◌||◌, Option, none, some, List, [], ◌∷◌,
  map, ◌==◌, nat_eq, leb, if◌then◌else◌, codes, in_range, is_space, is_blank, all, length,
  contract_validation, Result, ◌>>◌, require, forbid, get_elem?, is_some,
}

abbrev is_hex : ℕ → Bool
is_hex c = in_range b'0' b'9' c || in_range b'a' b'f' c

-- `^[0-9a-f]{64}$`
unfoldable pub is_sha256 : String → Bool
unfolding all
is_sha256 s = length (codes s) == 64 && all is_hex (codes s)

-- `^[0-9a-f]{40,64}$`
unfoldable pub is_git_revision : String → Bool
unfolding all
is_git_revision s = in_range 40 64 (length (codes s)) && all is_hex (codes s)

abbrev identifier_char : ℕ → Bool
identifier_char c =
    in_range b'a' b'z' c || in_range b'0' b'9' c || c == b'.' || c == b'_' || c == b'-'

-- `^[a-z][a-z0-9._-]{0,127}$`
unfoldable pub is_identifier : List ℕ → Bool
unfolding all
is_identifier [] = false
is_identifier (c ∷ rest) = in_range b'a' b'z' c && leb (length rest) 127 && all identifier_char rest

unfoldable pub require_identifier : String → Result (Unit {0})
unfolding is_identifier
require_identifier s =
    require (is_identifier (codes s)) (contract_validation "must start with a lowercase letter")

unfoldable pub require_non_empty : String → Result (Unit {0})
require_non_empty s = forbid (is_blank s) (contract_validation "must be a non-empty string")

-- A canonical UUID: five groups of hexadecimal digits joined by `-`, of 8, 4, 4, 4 and 12.
abbrev uuid_char : ℕ → ℕ → Bool
uuid_char i c = if i == 8 || i == 13 || i == 18 || i == 23 then c == b'-' else is_hex c

unfoldable pub uuid_chars : ℕ → List ℕ → Bool
uuid_chars i [] = i == 36
uuid_chars i (c ∷ rest) = uuid_char i c && uuid_chars (suc i) rest

abbrev char_at : ℕ → List ℕ → ℕ
char_at i s = elim (get_elem? s i) [ none ↦ 0 | some c ↦ c ]

-- `value == str(UUID(value))`, with version 4 (the digit at 14) and the RFC 4122 variant (at 19)
unfoldable pub is_uuid_v4 : String → Bool
unfolding uuid_chars
is_uuid_v4 value =
    let s = codes value in
    uuid_chars 0 s
    && char_at 14 s == b'4'
    && (char_at 19 s == b'8'
        || char_at 19 s == b'9'
        || char_at 19 s == b'a'
        || char_at 19 s == b'b')

unfoldable pub validate_uuid_v4 : String → Result (Unit {0})
unfolding require_non_empty
validate_uuid_v4 value = do
  require_non_empty value
  require (is_uuid_v4 value) (contract_validation "must be a canonical UUID v4")

unfoldable pub validate_run_id : String → Result (Unit {0})
unfolding validate_uuid_v4
validate_run_id value = validate_uuid_v4 value

-- Case folding of `re.IGNORECASE`: ASCII, and the letters outside ASCII that fold into it.
abbrev fold_case : ℕ → ℕ
fold_case c =
    if in_range b'A' b'Z' c
    then c + 32
    else if c == 0x130 || c == 0x131
    then b'i'
    else if c == 0x17f
    then b's'
    else if c == 0x212a
    then b'k'
    else c

-- Matchers give the text behind the match. No pattern below needs to go back on a choice.
abbrev Matcher : Type 0
Matcher = List ℕ → Option (List ℕ)

literal : List ℕ → Matcher
literal [] s = some s
literal (c ∷ rest) [] = none
literal (c ∷ rest) (d ∷ s) = if c == d then literal rest s else none

infixl 20 ◌then◌
abbrev ◌then◌ : Matcher → Matcher → Matcher
◌then◌ m n s = elim (m s) [ none ↦ none | some rest ↦ n rest ]

infixl 15 ◌or◌
abbrev ◌or◌ : Matcher → Matcher → Matcher
◌or◌ m n s = elim (m s) [ none ↦ n s | some rest ↦ some rest ]

one_of : (ℕ → Bool) → Matcher
one_of p [] = none
one_of p (c ∷ s) = if p c then some s else none

-- `p*`
many : (ℕ → Bool) → Matcher
many p [] = some []
many p (c ∷ s) = let rest = many p s in if p c then rest else some (c ∷ s)

abbrev word : String → Matcher
word w = literal (codes w)

-- `[_-]?`
abbrev joiner : Matcher
joiner = one_of (λ c. c == b'_' || c == b'-') or some

abbrev spaces : Matcher
spaces = many is_space

abbrev token_char : ℕ → Bool
token_char c = identifier_char c || c == b'~'

abbrev secret_word : Matcher
secret_word =
    word "password"
    or word "passwd"
    or (word "api" then joiner then word "key")
    or (word "access" then joiner then word "token")
    or word "secret"

-- `_UNSAFE_TEXT_RE`
abbrev unsafe_match : Matcher
unsafe_match =
    word "traceback (most recent call last)"
    or (word "authorization" then spaces then one_of (λ c. c == b':'))
    or (word "bearer" then one_of is_space then spaces then one_of token_char)
    or (secret_word then spaces then one_of (λ c. c == b':' || c == b'='))

-- `_SENSITIVE_KEY_RE`
abbrev sensitive_match : Matcher
sensitive_match = secret_word or word "authorization"

-- `pattern.search(text)`
found_in : Matcher → List ℕ → Bool
found_in m [] = is_some (m [])
found_in m (c ∷ s) = is_some (m (c ∷ s)) || found_in m s

unfoldable pub is_unsafe_text : String → Bool
unfolding found_in literal one_of many is_space
is_unsafe_text s = found_in unsafe_match (map fold_case (codes s))

unfoldable pub is_sensitive_key : String → Bool
unfolding found_in literal one_of many is_space
is_sensitive_key s = found_in sensitive_match (map fold_case (codes s))

unfoldable pub validate_safe_text : String → Result (Unit {0})
unfolding require_non_empty
validate_safe_text value = do
  require_non_empty value
  forbid (is_unsafe_text value)
      (contract_validation "contains unsafe diagnostic or secret-like content")

text_samples :
    (is_uuid_v4 "11111111-2222-4333-8444-555555555555" ≡ true)
    × (is_uuid_v4 "11111111-2222-1333-8444-555555555555" ≡ false)
    × (is_unsafe_text "the API-Key = x" ≡ true)
    × (is_unsafe_text "Bearer   x" ≡ true)
    × (is_unsafe_text "Cancelled before execution." ≡ false)
    × (is_sensitive_key "user_secret" ≡ true)
unfolding is_uuid_v4 is_unsafe_text is_sensitive_key
text_samples = (refl, refl, refl, refl, refl, refl)
