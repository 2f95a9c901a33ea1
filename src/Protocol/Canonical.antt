-- ===== src/Protocol/Canonical.antt =====
-- The canonical form of a request: pm_canonical_query and pm_build_canonical.
-- A C string is the list of its bytes before the terminator; a query that is NULL is empty.
use power_monitor_sensor_hea.Base.{
  ℕ, zero, suc, ◌+◌, ◌-◌, Bool, true, false, not, ◌&&◌, ◌||◌, ◌==◌, ltb, leb, if◌then◌else◌, List,
  [], ◌∷◌, ◌++◌, map, length,
}
use power_monitor_sensor_hea.Base.Esp.{EspErr, ok, invalid_arg, invalid_size, is_ok}
use power_monitor_sensor_hea.HttpResponse.{codes}

abbrev pub canonical_query_max : ℕ
canonical_query_max = 384

abbrev pub part_max : ℕ
part_max = 32

-- isxdigit, and toupper of the C locale.
abbrev pub is_hex_digit : ℕ → Bool
is_hex_digit c =
    (leb b'0' c && leb c b'9') || (leb b'a' c && leb c b'f') || (leb b'A' c && leb c b'F')

abbrev pub to_upper : ℕ → ℕ
to_upper c = if leb b'a' c && leb c b'z' then c - 32 else c

abbrev pub two_hex_digits : List ℕ → Bool
two_hex_digits (a ∷ b ∷ rest) = is_hex_digit a && is_hex_digit b
two_hex_digits _ = false

unfoldable pub valid_encoded_component : List ℕ → Bool
valid_encoded_component [] = true
valid_encoded_component (c ∷ cs) =
    let rest = valid_encoded_component cs in
    if c == b'%' && not (two_hex_digits cs)
    then false
    else if leb c 0x20 || c == 0x7F || c == b'#' || c == b'+'
    then false
    else rest

-- The loop over a part, with the number of characters of an escape that are left.
unfoldable pub upper_escapes : ℕ → List ℕ → List ℕ
upper_escapes pending [] = []
upper_escapes zero (c ∷ cs) = c ∷ upper_escapes (if c == b'%' then 2 else 0) cs
upper_escapes (suc pending) (c ∷ cs) = to_upper c ∷ upper_escapes pending cs

-- The parts between the separators.
abbrev pub extend : ℕ → List (List ℕ) → List (List ℕ)
extend c [] = (c ∷ []) ∷ []
extend c (part ∷ parts) = (c ∷ part) ∷ parts

unfoldable pub query_parts : List ℕ → List (List ℕ)
query_parts [] = [] ∷ []
query_parts (c ∷ cs) = let rest = query_parts cs in if c == b'&' then [] ∷ rest else extend c rest

abbrev pub is_empty : List ℕ → Bool
is_empty [] = true
is_empty (c ∷ cs) = false

unfoldable pub parts_valid : List (List ℕ) → Bool
parts_valid [] = true
parts_valid (part ∷ parts) =
    not (is_empty part) && valid_encoded_component part && parts_valid parts

-- strcmp(left, right) <= 0
unfoldable pub string_le : List ℕ → List ℕ → Bool
string_le [] right = true
string_le (l ∷ left) [] = false
string_le (l ∷ left) (r ∷ right) =
    let rest = string_le left right in if l == r then rest else ltb l r

-- qsort, of which only the order of the result counts: parts that compare as equal are the same.
unfoldable pub insert_part : List ℕ → List (List ℕ) → List (List ℕ)
insert_part part [] = part ∷ []
insert_part part (p ∷ parts) =
    let rest = insert_part part parts in if string_le part p then part ∷ p ∷ parts else p ∷ rest

unfoldable pub sort_parts : List (List ℕ) → List (List ℕ)
sort_parts [] = []
sort_parts (part ∷ parts) = insert_part part (sort_parts parts)

unfoldable pub join_parts : List (List ℕ) → List ℕ
join_parts [] = []
join_parts (part ∷ []) = part
join_parts (part ∷ next ∷ parts) = part ++ b'&' ∷ join_parts (next ∷ parts)

unfoldable pub canonical_query : List ℕ → ℕ → EspErr × List ℕ
canonical_query query output_size =
    let parts = query_parts query in
    let joined = join_parts (sort_parts (map (upper_escapes 0) parts)) in
    if output_size == 0
    then (invalid_arg, [])
    else if is_empty query
    then (ok, [])
    else if leb canonical_query_max (length query) || ltb output_size (length query + 1)
    then (invalid_size, [])
    else if ltb part_max (length parts)
    then (invalid_size, [])
    else if not (parts_valid parts)
    then (invalid_arg, [])
    else if ltb output_size (length joined + 1)
    then (invalid_size, [])
    else (ok, joined)

-- path[0] == '/'
abbrev pub is_absolute : List ℕ → Bool
is_absolute [] = false
is_absolute (c ∷ cs) = c == b'/'

abbrev pub newline : ℕ
newline = 10

unfoldable pub build_canonical :
    List ℕ → List ℕ → List ℕ → List ℕ → List ℕ → List ℕ → ℕ → EspErr × List ℕ
build_canonical method path query timestamp nonce content_sha256 output_size =
    let (error, canonical) = canonical_query query canonical_query_max in
    let target = path ++ (if is_empty canonical then [] else b'?' ∷ canonical) in
    let output =
      codes "PM-HMAC-SHA256-V1"
      ++ newline ∷ map to_upper method
      ++ newline ∷ target
      ++ newline ∷ timestamp
      ++ newline ∷ nonce
      ++ newline ∷ content_sha256 in
    if not (is_absolute path)
    then (invalid_arg, [])
    else if is_empty method || leb 16 (length method)
    then (invalid_size, [])
    else if not (is_ok error)
    then (error, [])
    else if leb 512 (length target)
    then (invalid_size, [])
    else if leb output_size (length output)
    then (invalid_size, [])
    else (ok, output)
