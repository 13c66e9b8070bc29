-- ===== src/Models/Text.antt =====
-- lineagetx/models.py: `_IDENTIFIER`, `_COMMIT_SHA`, `str.strip` as a test for blank text, and
-- slices from the left. A text is walked by its characters.
use Prim.Native.Char.{code}
use text.Mathlib.Text.{starts_with}
use data_lineage_fix_agent.Prelude.{
  ℕ, zero, suc, String, Bool, true, false, not, ◌&&◌, ◌||◌, leb, ◌=ℕ◌, ◌==◌,
}

abbrev is_digit : ℕ → Bool
is_digit c = leb 48 c && leb c 57

abbrev is_letter : ℕ → Bool
is_letter c = (leb 65 c && leb c 90) || (leb 97 c && leb c 122)

-- [0-9a-fA-F]
is_hex : ℕ → Bool
is_hex c = is_digit c || (leb 65 c && leb c 70) || (leb 97 c && leb c 102)

-- [0-9a-f]
is_lower_hex : ℕ → Bool
is_lower_hex c = is_digit c || (leb 97 c && leb c 102)

-- [A-Za-z0-9._:/-]
is_identifier_char : ℕ → Bool
is_identifier_char c =
    is_letter c || is_digit c || c =ℕ 46 || c =ℕ 95 || c =ℕ 58 || c =ℕ 47 || c =ℕ 45

-- The characters that `str.strip()` removes.
is_space : ℕ → Bool
is_space c =
    (leb 9 c && leb c 13)
    || (leb 28 c && leb c 32)
    || c =ℕ 133
    || c =ℕ 160
    || c =ℕ 5760
    || (leb 8192 c && leb c 8202)
    || c =ℕ 8232
    || c =ℕ 8233
    || c =ℕ 8239
    || c =ℕ 8287
    || c =ℕ 12288

all_chars : (ℕ → Bool) → String → Bool
all_chars p String.[] = true
all_chars p (String.◌∷◌ c s) = p (code c) && all_chars p s

-- `len(value)`
unfoldable pub char_count : String → ℕ
char_count String.[] = 0
char_count (String.◌∷◌ c s) = suc (char_count s)

-- `value[:n]`
unfoldable pub prefix : ℕ → String → String
prefix zero s = String.[]
prefix (suc n) String.[] = String.[]
prefix (suc n) (String.◌∷◌ c s) = String.◌∷◌ c (prefix n s)

-- `_COMMIT_SHA.fullmatch(value) is not None`
unfoldable pub is_commit_sha : String → Bool
unfolding all_chars char_count is_hex
is_commit_sha value = (char_count value =ℕ 40 || char_count value =ℕ 64) && all_chars is_hex value

-- `re.fullmatch(r"[0-9a-f]{64}", value)`
unfoldable pub is_sha256 : String → Bool
unfolding all_chars char_count is_lower_hex
is_sha256 value = char_count value =ℕ 64 && all_chars is_lower_hex value

-- `re.fullmatch(r"(?:[0-9a-f]{40}|[0-9a-f]{64})", value)`
unfoldable pub is_base_sha : String → Bool
unfolding all_chars char_count is_lower_hex
is_base_sha value =
    (char_count value =ℕ 40 || char_count value =ℕ 64) && all_chars is_lower_hex value

-- `_IDENTIFIER.fullmatch(value)`
unfoldable pub is_identifier : String → Bool
unfolding all_chars is_identifier_char
is_identifier String.[] = false
is_identifier (String.◌∷◌ c s) =
    (is_letter (code c) || is_digit (code c)) && all_chars is_identifier_char s

-- `value.strip()` as a condition: some character is no space.
unfoldable pub has_text : String → Bool
unfolding all_chars is_space
has_text value = not (all_chars is_space value)

-- [A-Za-z0-9._/-]
is_branch_char : ℕ → Bool
is_branch_char c = is_letter c || is_digit c || c =ℕ 46 || c =ℕ 95 || c =ℕ 47 || c =ℕ 45

-- `".." in value`
has_two_dots : String → Bool
has_two_dots String.[] = false
has_two_dots (String.◌∷◌ c s) = (code c =ℕ 46 && starts_with s ".") || has_two_dots s

-- `re.fullmatch(r"[A-Za-z0-9._/-]+", branch) and ".." not in branch`
unfoldable pub is_branch_name : String → Bool
unfolding all_chars is_branch_char has_two_dots
is_branch_name branch =
    not (branch == "") && all_chars is_branch_char branch && not (has_two_dots branch)
