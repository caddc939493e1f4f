-- ===== src/Ipc/Chunks.antt =====
-- The splitting of what arrives into chunks, as _parseResponse of src/console/jsre/deps/web3.js does it.
use ultron.Prelude.{
  ℕ, zero, suc, ◌+◌, ◌-◌, Bool, false, ◌||◌, Option, none, some, List, [], ◌∷◌, ◌++◌, if◌then◌else◌,
  ◌==◌, length, drop,
}
use ultron.Text.{Text, codes, starts_with}

abbrev separator : Text
separator = codes "|--|"

abbrev is_line_end : Text → Bool
is_line_end [] = false
is_line_end (c ∷ s) = c == b'\n' || c == b'\r'

-- The length of a match of close[\n\r]?open at the front of a text.
unfoldable pub gap_length : Text → Text → Text → Option ℕ
unfolding starts_with
gap_length close open_ s =
    let r = drop (length close) s in
    if starts_with close s
    then if starts_with open_ r
      then some (length close + length open_)
      else if is_line_end r
      then if starts_with open_ (drop 1 r) then some (length close + length open_ + 1) else none
      else none
    else none

abbrev replacement : Text → Text → ℕ → Option ℕ → Text
replacement close open_ c none = c ∷ []
replacement close open_ c (some n) = close ++ separator ++ open_

abbrev skipped : Option ℕ → ℕ
skipped none = 0
skipped (some n) = n - 1

-- s.replace(/close[\n\r]?open/g, 'close|--|open'), with characters of a match to pass over.
unfoldable pub replace_gaps : Text → Text → ℕ → Text → Text
unfolding gap_length
replace_gaps close open_ n [] = []
replace_gaps close open_ (suc n) (c ∷ s) = replace_gaps close open_ n s
replace_gaps close open_ zero (c ∷ s) =
    let match = gap_length close open_ (c ∷ s) in
    replacement close open_ c match ++ replace_gaps close open_ (skipped match) s

abbrev parts_list : Text × List Text → List Text
parts_list (first, rest) = first ∷ rest

-- s.split('|--|'): the first part and the others.
unfoldable pub split_parts : ℕ → Text → Text × List Text
unfolding starts_with
split_parts n [] = ([], [])
split_parts (suc n) (c ∷ s) = split_parts n s
split_parts zero (c ∷ s) =
    let ends = starts_with separator (c ∷ s) in
    let (first, rest) = split_parts (if ends then 3 else 0) s in
    if ends then ([], first ∷ rest) else (c ∷ first, rest)

unfoldable pub dechunk : Text → List Text
unfolding replace_gaps split_parts
dechunk s =
    let objects = replace_gaps (codes "}") (codes "{") 0 s in
    let arrays = replace_gaps (codes "}]") (codes "[{") 0 objects in
    let mixed = replace_gaps (codes "}") (codes "[{") 0 arrays in
    parts_list (split_parts 0 (replace_gaps (codes "}]") (codes "{") 0 mixed))
