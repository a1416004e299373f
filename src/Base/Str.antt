-- ===== src/Base/Str.antt =====
-- Python's `str` as its list of code points, and the methods of `str` that the program uses.
use Prim.Native.Nat.{ℕ, zero, suc, ◌+◌, ◌-◌, ◌/◌, ◌%◌}
use Prim.Native.Char.{code}
use Prim.Native.String.{String}
use mathlib.Core.Path.{◌≡◌, refl, sym, ap₂}
use mathlib.Core.Bool.{Bool, true, false, ◌||◌, ◌&&◌}
use mathlib.Core.List.{List, [], ◌∷◌, ◌++◌, nil≢cons, head-eq_of_cons-eq, tail-eq_of_cons-eq}
use native.Mathlib.Decide.{ℕ_discrete}
use cortex_rag.Base.Equality.{Eq, ◌==◌, nat_eq, if◌then◌else◌, leb, ltb}
use cortex_rag.Base.Lists.{length}

abbrev pub Text : Type 0
Text = List ℕ

abbrev pub text : String → Text
text String.[] = []
text (String.◌∷◌ c s) = code c ∷ text s

cons_dec : {x y : ℕ} {s t : Text} → Dec (x ≡ y) → Dec (s ≡ t) → Dec (◌≡◌ {A = Text} (x ∷ s) (y ∷ t))
cons_dec (yes p) (yes q) = yes (ap₂ ◌∷◌ p q)
cons_dec (yes p) (no n) = no (λ e. n (tail-eq_of_cons-eq e))
cons_dec (no n) _ = no (λ e. n (head-eq_of_cons-eq e))

Text-discrete : Discrete Text
unfolding ℕ_discrete cons_dec
Text-discrete [] [] = yes refl
Text-discrete [] (y ∷ t) = no (λ e. nil≢cons e)
Text-discrete (x ∷ s) [] = no (λ e. nil≢cons (sym e))
Text-discrete (x ∷ s) (y ∷ t) = cons_dec (ℕ_discrete x y) (Text-discrete s t)

instance unfoldable pub text_eq : Eq Text
unfolding Text-discrete
text_eq = record { dec = Text-discrete }

-- `not s`
abbrev pub is_empty : Text → Bool
is_empty [] = true
is_empty (_ ∷ _) = false

-- `x in xs`, for a list of texts
unfoldable pub contains : List Text → Text → Bool
contains [] x = false
contains (y ∷ ys) x = y == x || contains ys x

-- `c in s`, for one character
unfoldable pub has_char : ℕ → Text → Bool
has_char c [] = false
has_char c (x ∷ s) = x == c || has_char c s

-- The code points for which `str.isspace` holds, which `str.strip` removes.
unfoldable pub is_space : ℕ → Bool
is_space c =
    (leb 9 c && leb c 13)
    || (leb 28 c && leb c 32)
    || c == 133
    || c == 160
    || c == 5760
    || (leb 8192 c && leb c 8202)
    || c == 8232
    || c == 8233
    || c == 8239
    || c == 8287
    || c == 12288

unfoldable pub drop_while : (ℕ → Bool) → Text → Text
drop_while p [] = []
drop_while p (c ∷ s) = if p c then drop_while p s else c ∷ s

-- `s.lstrip(".")`
unfoldable pub lstrip_dots : Text → Text
unfolding drop_while
lstrip_dots s = drop_while (λ c. c == b'.') s

-- `s.rstrip()`
unfoldable pub rstrip : Text → Text
rstrip [] = []
rstrip (c ∷ s) = let r = rstrip s in if is_space c && is_empty r then [] else c ∷ r

-- `s.strip()`
unfoldable pub strip : Text → Text
unfolding drop_while rstrip
strip s = rstrip (drop_while is_space s)

-- `s.rsplit(".", 1)[-1]`: what follows the last dot, or all of `s` where there is none.
unfoldable pub after_last_dot : Text → Text
unfolding has_char
after_last_dot [] = []
after_last_dot (c ∷ s) =
    if has_char b'.' s then after_last_dot s else if c == b'.' then s else c ∷ s

-- `s.split(",")`: a character before the first part, which starts a new part at a comma.
abbrev put_char : ℕ → List Text → List Text
put_char c [] = []
put_char c (w ∷ ws) = if c == b',' then [] ∷ w ∷ ws else (c ∷ w) ∷ ws

unfoldable pub split_commas : Text → List Text
split_commas [] = [] ∷ []
split_commas (c ∷ s) = put_char c (split_commas s)

-- The decimal digits of `n` before `rest`; the fuel `n` is enough, since each round divides by 10.
unfoldable pub decimal_onto : ℕ → ℕ → Text → Text
decimal_onto zero n rest = (48 + n % 10) ∷ rest
decimal_onto (suc fuel) n rest =
    let more = decimal_onto fuel (n / 10) ((48 + n % 10) ∷ rest) in
    if ltb n 10 then (48 + n % 10) ∷ rest else more

-- `str(n)`
unfoldable pub decimal : ℕ → Text
unfolding decimal_onto
decimal n = decimal_onto n n []

abbrev pub repeat : ℕ → ℕ → Text
repeat zero c = []
repeat (suc n) c = c ∷ repeat n c

-- `f"{n:0{width}d}"`
unfoldable pub padded : ℕ → ℕ → Text
unfolding decimal
padded width n = let s = decimal n in repeat (width - length s) b'0' ++ s
