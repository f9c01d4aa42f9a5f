-- ===== src/Base/Text.antt =====
-- Texts by their characters: what the program uses of Rust's `str`.
use Prim.Native.Nat.{ℕ, ◌+◌}
use Prim.Native.Char.{code}
use Prim.Native.String.{String}
use mathlib.Core.Bool.{Bool, true, false, not, ◌&&◌, ◌||◌}
use mathlib.Core.Option.{Option, none, some}
use mathlib.Core.List.{List, [], ◌∷◌}
use text.Mathlib.Text.{◌==◌}
use pdt.Base.Lists.{leb, eqb, if◌then◌else◌}

-- The code points of a text.
abbrev pub codes : String → List ℕ
codes String.[] = []
codes (String.◌∷◌ c s) = code c ∷ codes s

-- `char::is_whitespace`: the code points of Unicode's White_Space.
unfoldable pub is_whitespace : ℕ → Bool
is_whitespace c =
    leb 9 c && leb c 13
    || (eqb c 32
        || (eqb c 133
            || (eqb c 160
                || (eqb c 5760
                    || (leb 8192 c && leb c 8202
                        || (eqb c 8232
                            || (eqb c 8233 || (eqb c 8239 || (eqb c 8287 || eqb c 12288)))))))))

-- `str::trim_start`
unfoldable pub trim_start : String → String
unfolding is_whitespace
trim_start String.[] = String.[]
trim_start (String.◌∷◌ c s) = if is_whitespace (code c) then trim_start s else String.◌∷◌ c s

-- `str::trim_end`
unfoldable pub trim_end : String → String
unfolding is_whitespace
trim_end String.[] = String.[]
trim_end (String.◌∷◌ c s) =
    let rest = trim_end s in
    if rest == String.[] && is_whitespace (code c) then String.[] else String.◌∷◌ c rest

-- `str::trim`
unfoldable pub trim : String → String
unfolding trim_start trim_end
trim s = trim_end (trim_start s)

unfoldable pub is_blank : String → Bool
unfolding trim
is_blank s = trim s == String.[]

-- The two texts, one after the other.
abbrev pub concat : String → String → String
concat String.[] t = t
concat (String.◌∷◌ c s) t = String.◌∷◌ c (concat s t)

-- `join`
abbrev pub join : String → List String → String
join sep [] = String.[]
join sep (x ∷ []) = x
join sep (x ∷ y ∷ xs) = concat x (concat sep (join sep (y ∷ xs)))

-- `strip_prefix`
abbrev pub strip_prefix? : String → String → Option String
strip_prefix? String.[] s = some s
strip_prefix? (String.◌∷◌ c p) String.[] = none
strip_prefix? (String.◌∷◌ c p) (String.◌∷◌ d s) =
    let rest = strip_prefix? p s in if eqb (code c) (code d) then rest else none

-- The text before the first character of this code: `split(c).next()`.
abbrev pub before_char : ℕ → String → String
before_char k String.[] = String.[]
before_char k (String.◌∷◌ c s) =
    let rest = before_char k s in if eqb (code c) k then String.[] else String.◌∷◌ c rest

-- Whether no character of the text has this code.
abbrev pub lacks : ℕ → String → Bool
lacks k String.[] = true
lacks k (String.◌∷◌ c s) = not (eqb (code c) k) && lacks k s

-- `to_ascii_lowercase` of one character
unfoldable pub ascii_lower : ℕ → ℕ
ascii_lower c = if leb 65 c && leb c 90 then c + 32 else c

-- `eq_ignore_ascii_case`
unfoldable pub eq_ignore_ascii_case : String → String → Bool
unfolding ascii_lower
eq_ignore_ascii_case String.[] String.[] = true
eq_ignore_ascii_case String.[] (String.◌∷◌ d t) = false
eq_ignore_ascii_case (String.◌∷◌ c s) String.[] = false
eq_ignore_ascii_case (String.◌∷◌ c s) (String.◌∷◌ d t) =
    eqb (ascii_lower (code c)) (ascii_lower (code d)) && eq_ignore_ascii_case s t
