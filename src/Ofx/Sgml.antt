-- ===== src/Ofx/Sgml.antt =====
-- pkg/ofx/parser.go: the split of a file into header and body, and the conversion of SGML to XML.
use financial_wallet.Prelude.{
  ℕ, suc, ◌+◌, ◌-◌, Bool, true, false, not, ◌&&◌, ◌||◌, Option, none, some, List, [], ◌∷◌, ◌++◌,
  length, take, drop, leb, ◌==◌, if◌then◌else◌,
}
use financial_wallet.Text.{Text, codes, text_eq, is_empty, has_prefix, split_once, trim_space}
use financial_wallet.Result.{Result, ok, ◌>>=◌, or_error, invalid_format}

pub record Header : Type 0 where
  pub version : Text
  pub encoding : Text

unfoldable pub ascii_fold : ℕ → ℕ
ascii_fold b = if leb b'a' b && leb b b'z' then b - 32 else b

-- The inner loop of indexFoldASCII: whether the bytes at hand are those of `sep`.
unfoldable pub matches_fold : Text → Text → Bool
matches_fold [] s = true
matches_fold (x ∷ sep) [] = false
matches_fold (x ∷ sep) (c ∷ s) = ascii_fold c == ascii_fold x && matches_fold sep s

abbrev pub next_index : Option ℕ → Option ℕ
next_index none = none
next_index (some n) = some (suc n)

-- indexFoldASCII, for a separator that is not empty.
unfoldable pub index_fold : Text → Text → Option ℕ
index_fold sep [] = none
index_fold sep (c ∷ s) =
    let rest = index_fold sep s in if matches_fold sep (c ∷ s) then some 0 else next_index rest

-- strings.Index
unfoldable pub index_of : Text → Text → Option ℕ
index_of sep [] = none
index_of sep (c ∷ s) =
    let rest = index_of sep s in if has_prefix (c ∷ s) sep then some 0 else next_index rest

-- strings.ToUpper on ASCII, and on the two letters outside of it whose upper case is in it. The other
-- letters outside of ASCII stay as they are, so a header that has them is not modelled exactly.
unfoldable pub upper : Text → Text
upper [] = []
upper (a ∷ []) = ascii_fold a ∷ []
upper (a ∷ b ∷ s) =
    let shorter = upper s in
    let rest = upper (b ∷ s) in
    if a == 0xc5 && b == 0xbf
    then b'S' ∷ shorter
    else if a == 0xc4 && b == 0xb1
    then b'I' ∷ shorter
    else ascii_fold a ∷ rest

-- bufio.ScanLines: lines without their end, and without a carriage return before it.
abbrev add_first : ℕ → List Text → List Text
add_first c [] = (c ∷ []) ∷ []
add_first c (line ∷ lines) = (c ∷ line) ∷ lines

unfoldable pub split_lines : Text → List Text
split_lines [] = []
split_lines (c ∷ s) = let rest = split_lines s in if c == 10 then [] ∷ rest else add_first c rest

unfoldable pub drop_return : Text → Text
drop_return [] = []
drop_return (c ∷ []) = if c == 13 then [] else c ∷ []
drop_return (c ∷ d ∷ s) = c ∷ drop_return (d ∷ s)

-- bufio.Scanner stops without a word at a line that its buffer of 64 KiB does not hold.
unfoldable pub scan : List Text → List Text
scan [] = []
scan (line ∷ lines) =
    let rest = scan lines in if leb (length line) 65535 then drop_return line ∷ rest else []

abbrev with_key : Text → Text → Header → Header
with_key key value h =
    if text_eq (upper key) (codes "VERSION")
    then record h { version = value }
    else if text_eq (upper key) (codes "ENCODING")
    then record h { encoding = value }
    else h

abbrev add_pair : Text × Option Text → Header → Header
add_pair (key, none) h = h
add_pair (key, some value) h = with_key (trim_space key) (trim_space value) h

unfoldable pub read_pairs : List Text → Header → Header
read_pairs [] h = h
read_pairs (raw ∷ lines) h =
    let line = trim_space raw in
    if is_empty line || has_prefix line (codes "<?")
    then read_pairs lines h
    else read_pairs lines (add_pair (split_once b':' line) h)

-- `strings.TrimLeft(rest, "\"' ")` and `strings.IndexAny(rest, "\"' ?>")`
unfoldable pub trim_quotes : Text → Text
trim_quotes [] = []
trim_quotes (c ∷ s) =
    let rest = trim_quotes s in if c == 34 || c == 39 || c == 32 then rest else c ∷ s

unfoldable pub until_quote : Text → Text
until_quote [] = []
until_quote (c ∷ s) =
    let rest = until_quote s in
    if c == 34 || c == 39 || c == 32 || c == b'?' || c == b'>' then [] else c ∷ rest

abbrev attribute_at : Text → Option ℕ → Text
attribute_at pi none = []
attribute_at pi (some n) = until_quote (trim_quotes (drop (8 + n) pi))

-- extractAttr of VERSION
unfoldable pub extract_version : Text → Text
extract_version pi = attribute_at pi (index_of (codes "VERSION=") (upper pi))

abbrev instruction_end : Text → Option ℕ → Text → Text
instruction_end s none old = old
instruction_end s (some n) old = extract_version (take (2 + n) s)

abbrev instruction_at : Text → Option ℕ → Text → Text
instruction_at s none old = old
instruction_at s (some n) old = instruction_end (drop n s) (index_of (codes "?>") (drop n s)) old

abbrev complete_version : Text → Header → Header
complete_version s h =
    if is_empty h.version
    then record h { version = instruction_at s (index_of (codes "<?OFX") s) h.version }
    else h

unfoldable pub parse_header : Text → Header
parse_header s =
    complete_version s (read_pairs (scan (split_lines s)) (record { version = []; encoding = [] }))

unfoldable pub split_header_and_body : Text → Result (Header × Text)
split_header_and_body s = do
  n ← or_error (index_fold (codes "<OFX>") s) invalid_format
  ok (parse_header (take n s), drop n s)

unfoldable pub is_sgml : Header → Bool
is_sgml h = not (has_prefix h.version (codes "2"))

abbrev close_tag : Text → Text → Text → Text
close_tag line tag value =
    if is_empty value || has_prefix value (codes "<")
    then line
    else codes "<" ++ tag ++ codes ">" ++ value ++ codes "</" ++ tag ++ codes ">"

abbrev close_leaf : Text → Text × Option Text → Text
close_leaf line (before, none) = line
close_leaf line (before, some after) = close_tag line (drop 1 before) (trim_space after)

unfoldable pub process_line : Text → Text
process_line line =
    if has_prefix line (codes "</") || not (has_prefix line (codes "<"))
    then line
    else close_leaf line (split_once b'>' line)

unfoldable pub convert_lines : List Text → Text
convert_lines [] = []
convert_lines (raw ∷ lines) =
    let line = trim_space raw in
    let rest = convert_lines lines in if is_empty line then rest else process_line line ++ 10 ∷ rest

unfoldable pub sgml_to_xml : Text → Text
sgml_to_xml s = convert_lines (scan (split_lines s))
