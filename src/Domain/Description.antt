-- ===== src/Domain/Description.antt =====
-- `Description` (payments/domain/value_objects/description.py). The regular expressions are read
-- on code points; `$` also matches before a newline that ends the text.
use Prim.Native.Char.{code}
use mco_louna_task.Base.{
  ℕ, ◌+◌, String, Bool, true, false, ◌&&◌, ◌||◌, Option, none, some, List, [], ◌∷◌, ◌==◌, ltb, leb,
  if◌then◌else◌, length,
}
use mco_louna_task.Values.{Text, str, num_text, cat, text}
use mco_louna_task.Errors.{Result, ok, err, ◌>>◌, raise_if, raise_domain, validation}
use mco_louna_task.Domain.ValueObject.{ValueObject, base_post_init}

abbrev pub codes : String → List ℕ
codes String.[] = []
codes (String.◌∷◌ c s) = code c ∷ codes s

abbrev pub min_lenth : ℕ
min_lenth = 3

abbrev pub max_lenth : ℕ
max_lenth = 50

-- the class `[\n\r\t\x00-\x08\x0b-\x0c\x0e-\x1f\x7f]`
unfoldable pub is_control : ℕ → Bool
is_control c =
    c == 10
    || c == 13
    || c == 9
    || leb c 8
    || (leb 11 c && leb c 12)
    || (leb 14 c && leb c 31)
    || c == 127

abbrev pub is_nil : List ℕ → Bool
is_nil [] = true
is_nil (_ ∷ _) = false

-- `re.match(VALID_PATTERN, text)`
unfoldable pub match_valid : List ℕ → Bool
match_valid [] = true
match_valid (c ∷ rest) =
    let more = match_valid rest in if is_control c then c == 10 && is_nil rest else more

-- `re.search(INVALID_PATTERN, text)`: the position and the character of the first match
unfoldable pub search_invalid : ℕ → List ℕ → Option (ℕ × ℕ)
search_invalid at [] = none
search_invalid at (c ∷ rest) =
    let more = search_invalid (at + 1) rest in if is_control c then some (at, c) else more

unfoldable pub invalid_details : String → Option (ℕ × ℕ) → Text
invalid_details s (some (position, char)) = cat (str "Description = ") (
    cat (str s) (
      cat (str " contains invalid characters at pos=")
        (cat (num_text position) (cat (str ", char=") (num_text char)))))
invalid_details s none =
    cat (str "Description = ") (cat (str s) (str " contains invalid characters"))

unfoldable pub lenth_details : ℕ → Text
lenth_details n = cat (str "Description lenth = ") (
    cat (num_text n) (
      cat (str " must be in [") (
        cat (num_text min_lenth)
          (cat (str ", ") (cat (num_text max_lenth) (str "] constraints"))))))

unfoldable pub validate_lenth : String → Result (Unit {0})
validate_lenth s =
    let n = length (codes s) in
    raise_if (ltb max_lenth n || ltb n min_lenth)
      (raise_domain validation (str "Wrong description lenth") (some (lenth_details n)))

unfoldable pub validate_pattern : String → Result (Unit {0})
validate_pattern s =
    if match_valid (codes s)
    then ok tt
    else err (
        raise_domain validation (str "Description contains invalid characters")
          (some (invalid_details s (search_invalid 0 (codes s)))))

unfoldable pub create_description : Bool → String → Result (ValueObject String)
create_description dev s = do
  base_post_init dev "Description.text" (text (str s))
  validate_lenth s
  validate_pattern s
  ok (record { value = s; rebuilding = false })
