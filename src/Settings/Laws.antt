-- ===== src/Settings/Laws.antt =====
-- What the list settings hold after they were read.
use cortex_rag.Base.{◌≡◌, false, List, [], ◌∷◌, arith, Text}
use cortex_rag.Base.Str.{is_empty, strip, split_commas}
use cortex_rag.Exec.{Result, ok}
use cortex_rag.Metadata.Laws.{strip-strip}
use cortex_rag.Settings.{RawValue, items, raw_text, strip_items, starts_list, parse_str_list}

-- Each item is its own strip, and none is empty.
abbrev pub AreItems : List Text → Type 0
AreItems [] = Unit
AreItems (x ∷ xs) = (strip x ≡ x) × (is_empty x ≡ false) × AreItems xs

strip_items-AreItems : (xs : List Text) → AreItems (strip_items xs)
unfolding strip_items
strip_items-AreItems [] = tt
strip_items-AreItems (x ∷ xs) = ground (arith, strip_items-AreItems xs, strip-strip x)

-- A text that is read as a list by its commas, not as JSON, gives items that are stripped and not
-- empty, whatever JSON parser is used for the others.
pub parse_str_list_clean :
    (json_loads : Text → Result RawValue) (value : Text) {xs : List Text}
    → starts_list (strip value) ≡ false
    → parse_str_list json_loads (raw_text value) ≡ ok (items xs)
    → AreItems xs
unfolding parse_str_list
parse_str_list_clean json_loads value plain h =
    ground (arith, strip_items-AreItems (split_commas (strip value)))
