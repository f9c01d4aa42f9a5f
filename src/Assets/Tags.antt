-- ===== src/Assets/Tags.antt =====
-- src/models/tag.rs: which tags may be added.
use pdt.Base.{
  ℕ, ◌+◌, String, Bool, true, false, not, ◌&&◌, ◌||◌, ◌==◌, List, [], ◌∷◌, ltb, leb, eqb, codes,
  if◌then◌else◌,
}
use pdt.Model.Asset.{AddTagRequest}

-- `str::len`: the number of bytes in UTF-8.
unfoldable pub utf8_len : List ℕ → ℕ
utf8_len [] = 0
utf8_len (c ∷ cs) =
    (if ltb c 128 then 1 else if ltb c 2048 then 2 else if ltb c 65536 then 3 else 4) + utf8_len cs

-- `[a-zA-Z0-9_/-]`
unfoldable pub is_category_char : ℕ → Bool
is_category_char c =
    leb b'a' c && leb c b'z'
    || (leb b'A' c && leb c b'Z'
        || (leb b'0' c && leb c b'9' || (eqb c b'_' || (eqb c b'/' || eqb c b'-'))))

unfoldable pub all_chars : (ℕ → Bool) → List ℕ → Bool
all_chars p [] = true
all_chars p (c ∷ cs) = p c && all_chars p cs

-- `CATEGORY_REGEX.is_match`: one character of the class or more, and no other.
unfoldable pub matches_category : List ℕ → Bool
unfolding is_category_char all_chars
matches_category [] = false
matches_category (c ∷ cs) = all_chars is_category_char (c ∷ cs)

-- `validate_category(…).is_ok()`
unfoldable pub validate_category : String → Bool
unfolding utf8_len matches_category
validate_category category =
    if category == ""
    then false
    else if ltb 64 (utf8_len (codes category))
    then false
    else if not (matches_category (codes category))
    then false
    else true

-- `validate_value(…).is_ok()`
unfoldable pub validate_value : String → Bool
unfolding utf8_len
validate_value value =
    if value == "" then false else if ltb 256 (utf8_len (codes value)) then false else true

-- `AddTagRequest::validate`
unfoldable pub validate : AddTagRequest → Bool
unfolding validate_category validate_value
validate request = validate_category request.category && validate_value request.value
