-- ===== src/Soql.antt =====
-- core/soql.py: the texts that may go into a query. A text is read as its code points; the suffixes of
-- the pattern for objects are made of characters that the pattern takes anyway, so that the optional
-- group changes nothing.
pub mod Safe
use salesforce.Common.{
  ℕ, Bool, true, false, not, ◌&&◌, ◌||◌, String, List, [], ◌∷◌, ◌++◌, ◌==◌, all, codes, length, ltb,
  leb, is_nonempty, if◌then◌else◌,
}
use salesforce.Common.Exec.{Outcome, ok, raise}

-- `InvalidSOQLIdentifier` and `InvalidSOQLValue`.
pub data SoqlError : Type 0 where
  invalid_identifier : String → SoqlError
  invalid_value : String → SoqlError
  empty_list : SoqlError
  too_many : ℕ → ℕ → SoqlError

-- [A-Za-z]
unfoldable pub is_letter : ℕ → Bool
is_letter c = (leb b'A' c && leb c b'Z') || (leb b'a' c && leb c b'z')

-- [A-Za-z0-9]
unfoldable pub is_alnum : ℕ → Bool
unfolding is_letter
is_alnum c = is_letter c || (leb b'0' c && leb c b'9')

-- [A-Za-z0-9_]
unfoldable pub is_word : ℕ → Bool
unfolding is_alnum
is_word c = is_alnum c || c == b'_'

-- [A-Za-z][A-Za-z0-9_]*
unfoldable pub is_identifier : List ℕ → Bool
unfolding is_letter is_word all
is_identifier [] = false
is_identifier (c ∷ s) = is_letter c && all is_word s

unfoldable pub validate_sobject : String → Outcome SoqlError String
unfolding is_identifier
validate_sobject name =
    if ltb 80 (length (codes name)) || not (is_identifier (codes name))
    then raise (invalid_identifier name)
    else ok name

-- `_RECORD_ID_RE`.
unfoldable pub is_record_id : List ℕ → Bool
unfolding is_alnum all
is_record_id s = all is_alnum s && (length s == 15 || length s == 18)

unfoldable pub validate_record_id : String → Outcome SoqlError String
validate_record_id rid = if is_record_id (codes rid) then ok rid else raise (invalid_value rid)

-- The parts of a text between its dots, with the part that is being read.
split_dots : List ℕ → List ℕ → List (List ℕ)
split_dots part [] = part ∷ []
split_dots part (c ∷ s) =
    let ended = part ∷ split_dots [] s in
    let longer = split_dots (part ++ c ∷ []) s in if c == b'.' then ended else longer

unfoldable pub validate_field : String → Outcome SoqlError String
unfolding split_dots is_identifier all
validate_field field =
    if ltb 255 (length (codes field)) || not (all is_identifier (split_dots [] (codes field)))
    then raise (invalid_identifier field)
    else ok field

-- `",".join(f"'{r}'" for r in validated)`.
unfoldable pub quoted : List String → List ℕ
quoted [] = []
quoted (r ∷ []) = b'\'' ∷ codes r ++ b'\'' ∷ []
quoted (r ∷ q ∷ rs) = b'\'' ∷ codes r ++ b'\'' ∷ b',' ∷ quoted (q ∷ rs)

unfoldable pub first_invalid : List String → List String
first_invalid [] = []
first_invalid (r ∷ rs) =
    let rest = first_invalid rs in if is_record_id (codes r) then rest else r ∷ []

check_count : List String → ℕ → Outcome SoqlError (List ℕ)
unfolding quoted
check_count ids max_chunk =
    if not (is_nonempty ids)
    then raise empty_list
    else if ltb max_chunk (length ids)
    then raise (too_many (length ids) max_chunk)
    else ok (quoted ids)

refuse_first : List String → List String → ℕ → Outcome SoqlError (List ℕ)
unfolding check_count
refuse_first [] ids max_chunk = check_count ids max_chunk
refuse_first (r ∷ _) ids max_chunk = raise (invalid_value r)

unfoldable pub quote_record_id_list : List String → ℕ → Outcome SoqlError (List ℕ)
unfolding refuse_first
quote_record_id_list ids max_chunk = refuse_first (first_invalid ids) ids max_chunk
