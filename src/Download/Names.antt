-- ===== src/Download/Names.antt =====
-- internal/chunk_download.go: the names of the temporary chunk files, written and read back.
pub mod RoundTrip
use pan_client.Base.{
  ℕ, zero, suc, ◌+◌, ◌-◌, ◌*◌, ◌/◌, ◌%◌, ◌^◌, Bool, not, ◌||◌, ◌&&◌, ltb, leb, ◌==◌, if◌then◌else◌,
  Option, none, some, List, [], ◌∷◌, ◌++◌, Text, codes, text_eq, is_empty, split, trim_right, slash,
  half64,
}

abbrev pub dash : ℕ
dash = b'-'

-- The decimal digits of a positive number in front of `out`; `n` rounds are enough.
emit : ℕ → ℕ → Text → Text
emit zero n out = out
emit (suc f) n out =
    let rest = emit f (n / 10) ((b'0' + n % 10) ∷ out) in if n == 0 then out else rest

pub decimal : ℕ → Text
decimal n = if n == 0 then b'0' ∷ [] else emit n n []

-- `%d` of an int64.
pub format_int : ℕ → Text
format_int n = if ltb n half64 then decimal n else dash ∷ decimal (2 ^ 64 - n)

pub temp_name : ℕ → ℕ → Text
temp_name s e = codes "temp-" ++ (format_int s ++ dash ∷ format_int e)

-- `filepath.Join` where the directory is itself joined, and so clean, and the name has no slash.
unfoldable pub join : Text → Text → Text
join dir name = if is_empty dir then name else dir ++ slash ∷ name

unfoldable pub get_range_temp_file : ℕ → ℕ → Text → Text
get_range_temp_file s e worker_dir = join worker_dir (temp_name s e)

last_part : List Text → Text
last_part [] = []
last_part (p ∷ []) = p
last_part (p ∷ q ∷ ps) = last_part (q ∷ ps)

-- `filepath.Base`.
pub base : Text → Text
unfolding last_part
base s =
    if is_empty s
    then b'.' ∷ []
    else if is_empty (trim_right slash s)
    then slash ∷ []
    else last_part (split slash (trim_right slash s))

digits_value : Text → ℕ → Option ℕ
digits_value [] n = some n
digits_value (c ∷ s) n =
    if ltb c b'0' || ltb b'9' c then none else digits_value s (n * 10 + (c - b'0'))

parse_digits : Text → Option ℕ
parse_digits [] = none
parse_digits (c ∷ s) = digits_value (c ∷ s) 0

in_range : ℕ → Option ℕ → Option ℕ
in_range bound none = none
in_range bound (some n) = if ltb n bound then some n else none

negated : Option ℕ → Option ℕ
negated none = none
negated (some n) = some ((2 ^ 64 - n) % 2 ^ 64)

-- `strconv.ParseInt(s, 10, 64)`.
pub parse_int : Text → Option ℕ
unfolding in_range negated
parse_int [] = none
parse_int (c ∷ s) =
    if c == b'+'
    then in_range half64 (parse_digits s)
    else if c == dash
    then negated (in_range (half64 + 1) (parse_digits s))
    else in_range half64 (parse_digits (c ∷ s))

-- Both numbers, or 0 and 0 when either is no number.
both : Option ℕ → Option ℕ → ℕ × ℕ
both (some s) (some e) = (s, e)
both (some s) none = (0, 0)
both none e = (0, 0)

pub range_of_parts : List Text → ℕ × ℕ
unfolding both
range_of_parts (t ∷ s ∷ e ∷ []) =
    if not (text_eq t (codes "temp")) then (0, 0) else both (parse_int s) (parse_int e)
range_of_parts _ = (0, 0)

unfoldable pub get_range_start_end : Text → ℕ × ℕ
get_range_start_end filename = range_of_parts (split dash (base filename))
