-- ===== src/Pom/Scalar.antt =====
-- The scalars of the YAML subset of src/pom/pom.cpp: how a text is written and read.
pub mod RoundTrip
use signalwire_agents_cpp.Prelude.{
  ℕ, suc, ◌-◌, Option, none, some, Bool, true, false, not, ◌&&◌, ◌||◌, ◌∷◌, [], ◌++◌, List, Bytes,
  codes, is_empty, str_eq, if◌then◌else◌, ◌==◌, leb, length, substr, find, is_some,
}
use signalwire_agents_cpp.Prelude.Strings.{find_text}
use signalwire_agents_cpp.Prelude.Int.{ℤ}
use signalwire_agents_cpp.Prelude.Json.{Json, null, boolean, number, string}
use signalwire_agents_cpp.Security.Decimal.{stoll, is_digit, is_space}

unfoldable pub trim_start : Bytes → Bytes
unfolding is_space
trim_start [] = []
trim_start (c ∷ s) = let rest = trim_start s in if is_space c then rest else c ∷ s

abbrev pub keep_end : ℕ → Bytes → Bytes
keep_end c [] = if is_space c then [] else c ∷ []
keep_end c (d ∷ s) = c ∷ d ∷ s

unfoldable pub trim_end : Bytes → Bytes
trim_end [] = []
trim_end (c ∷ s) = keep_end c (trim_end s)

unfoldable pub trim : Bytes → Bytes
unfolding trim_start trim_end
trim s = trim_end (trim_start s)

-- `s.back() == c`.
abbrev pub ends_with : ℕ → Bytes → Bool
ends_with c [] = false
ends_with c (d ∷ []) = d == c
ends_with c (d ∷ e ∷ s) = ends_with c (e ∷ s)

-- `s.front() == c`.
abbrev pub begins_with : ℕ → Bytes → Bool
begins_with c [] = false
begins_with c (d ∷ s) = d == c

abbrev pub is_quoted : ℕ → Bytes → Bool
is_quoted q s = leb 2 (length s) && begins_with q s && ends_with q s

-- `s.substr(1, s.size() - 2)`.
abbrev pub between : Bytes → Bytes
between s = substr s 1 (length s - 2)

abbrev escape_value : ℕ → ℕ
escape_value n = if n == b'n' then 10 else if n == b't' then 9 else if n == b'r' then 13 else n

-- The loop over a double-quoted text; the flag tells that a backslash came before. A backslash at
-- the end stays.
unfoldable pub unescape : Bool → Bytes → Bytes
unescape true [] = b'\\' ∷ []
unescape false [] = []
unescape true (c ∷ s) = escape_value c ∷ unescape false s
unescape false (c ∷ s) =
    let escaped = c == b'\\' in let rest = unescape escaped s in if escaped then rest else c ∷ rest

-- The loop over a single-quoted text; the flag tells that a quote came before that is not used yet.
unfoldable pub undouble : Bool → Bytes → Bytes
undouble true [] = b'\'' ∷ []
undouble false [] = []
undouble pending (c ∷ s) =
    let quote = c == b'\'' in
    let rest = undouble (quote && not pending) s in
    if pending
    then (if quote then b'\'' ∷ rest else b'\'' ∷ c ∷ rest)
    else if quote
    then rest
    else c ∷ rest

abbrev pub one_of : List Bytes → Bytes → Bool
one_of [] s = false
one_of (t ∷ ts) s = str_eq s t || one_of ts s

abbrev pub true_texts : List Bytes
true_texts = codes "true" ∷ codes "True" ∷ codes "TRUE" ∷ []

abbrev pub false_texts : List Bytes
false_texts = codes "false" ∷ codes "False" ∷ codes "FALSE" ∷ []

abbrev pub null_texts : List Bytes
null_texts = codes "null" ∷ codes "Null" ∷ codes "NULL" ∷ codes "~" ∷ []

abbrev all_digits : Bytes → Bool
all_digits [] = true
all_digits (c ∷ s) = is_digit c && all_digits s

-- A sign at most, and at least one digit.
abbrev digits_of : Bytes → Bytes
digits_of [] = []
digits_of (c ∷ s) = if c == b'-' || c == b'+' then s else c ∷ s

unfoldable pub is_numeric : Bytes → Bool
unfolding is_digit
is_numeric s = not (is_empty (digits_of s)) && all_digits (digits_of s)

-- A number out of range stays a text.
abbrev pub number_or_text : Bytes → Option ℤ → Json
number_or_text s none = string s
number_or_text s (some n) = number n

unfoldable pub parse_trimmed : Bytes → Json
unfolding unescape undouble is_numeric
parse_trimmed s =
    if is_empty s
    then null
    else if is_quoted b'"' s
    then string (unescape false (between s))
    else if is_quoted b'\'' s
    then string (undouble false (between s))
    else if one_of true_texts s
    then boolean true
    else if one_of false_texts s
    then boolean false
    else if one_of null_texts s
    then null
    else if is_numeric s
    then number_or_text s (stoll s)
    else string s

unfoldable pub parse_scalar : Bytes → Json
unfolding parse_trimmed trim
parse_scalar raw = parse_trimmed (trim raw)

abbrev pub special : Bytes
special = codes "[]{},*&!|>'\"%@`#"

abbrev pub reserved : List Bytes
reserved =
    codes "true"
    ∷ codes "True"
    ∷ codes "TRUE"
    ∷ codes "false"
    ∷ codes "False"
    ∷ codes "FALSE"
    ∷ codes "null"
    ∷ codes "Null"
    ∷ codes "NULL"
    ∷ codes "yes"
    ∷ codes "no"
    ∷ codes "Yes"
    ∷ codes "No"
    ∷ codes "~"
    ∷ []

abbrev begins_special : Bytes → Bool
begins_special [] = false
begins_special (c ∷ s) = is_some (find c special)

unfoldable pub needs_quoting : Bytes → Bool
unfolding is_numeric
needs_quoting s =
    is_empty s
    || begins_special s
    || begins_with b' ' s
    || ends_with b' ' s
    || is_some (find_text (codes ": ") s)
    || ends_with b':' s
    || is_some (find 10 s)
    || one_of reserved s
    || is_numeric s

-- The loop that doubles each single quote.
unfoldable pub double_quotes : Bytes → Bytes
double_quotes [] = []
double_quotes (c ∷ s) = if c == b'\'' then b'\'' ∷ b'\'' ∷ double_quotes s else c ∷ double_quotes s

unfoldable pub quote_string : Bytes → Bytes
unfolding double_quotes
quote_string s = b'\'' ∷ double_quotes s ++ b'\'' ∷ []

-- The text of a string in `emit_value`, before its line feed.
unfoldable pub emit_text : Bytes → Bytes
unfolding needs_quoting quote_string
emit_text s = if needs_quoting s then quote_string s else s
