-- ===== src/Base/Text.antt =====
-- Python's `str` as the native text, and the methods of it that the driver calls.
use Prim.Native.Nat.{ℕ, ◌-◌, ◌+◌}
use Prim.Native.Char.{Char, code}
use Prim.Native.String.{String}
use mathlib.Core.Bool.{Bool, true, false, ◌&&◌, ◌||◌}
use mathlib.Core.List.{List, [], ◌∷◌}
use mathlib.Core.Path.{◌≡◌, refl}
use hp34401a_driver.Base.Tests.{leb, ◌==◌, if◌then◌else◌}
use text.Mathlib.Text.{◌==◌ as str_eq}

-- `str.isspace` of one character, which is `\s` of `re` too
unfoldable pub is_space : ℕ → Bool
is_space c =
    leb 9 c && leb c 13
    || leb 28 c && leb c 32
    || c == 133
    || c == 160
    || c == 5760
    || leb 8192 c && leb c 8202
    || c == 8232
    || c == 8233
    || c == 8239
    || c == 8287
    || c == 12288

abbrev pub cons : Char → String → String
cons = String.◌∷◌

abbrev pub nil : String
nil = String.[]

abbrev pub is_empty : String → Bool
is_empty String.[] = true
is_empty (String.◌∷◌ c s) = false

unfoldable pub lstrip : String → String
unfolding is_space
lstrip String.[] = nil
lstrip (String.◌∷◌ c s) = if is_space (code c) then lstrip s else cons c s

-- One character before a text whose spaces at the end are gone.
abbrev rstrip_cons : Char → String → String
rstrip_cons c String.[] = if is_space (code c) then nil else cons c nil
rstrip_cons c (String.◌∷◌ d s) = cons c (cons d s)

unfoldable pub rstrip : String → String
unfolding is_space
rstrip String.[] = nil
rstrip (String.◌∷◌ c s) = rstrip_cons c (rstrip s)

-- `text.strip()`
unfoldable pub strip : String → String
unfolding lstrip rstrip
strip s = rstrip (lstrip s)

-- The pieces of a split, with one more character at the front of the first.
abbrev pub push_first : Char → List String → List String
push_first c [] = cons c nil ∷ []
push_first c (p ∷ ps) = cons c p ∷ ps

-- `text.split(sep)` at one character; never empty
unfoldable pub split : ℕ → String → List String
split sep String.[] = nil ∷ []
split sep (String.◌∷◌ c s) =
    let rest = split sep s in if code c == sep then nil ∷ rest else push_first c rest

-- `text.endswith(c)` for one character
unfoldable pub ends_with : ℕ → String → Bool
ends_with d String.[] = false
ends_with d (String.◌∷◌ c s) = let rest = ends_with d s in if is_empty s then code c == d else rest

-- `str.upper` on ASCII, character by character; what is not ASCII is kept
unfoldable pub upper_code : ℕ → ℕ
upper_code c = if leb b'a' c && leb c b'z' then c - 32 else c

unfoldable pub upper : String → List ℕ
unfolding upper_code
upper String.[] = []
upper (String.◌∷◌ c s) = upper_code (code c) ∷ upper s

-- `str.lower` on ASCII
abbrev lower_code : ℕ → ℕ
lower_code c = if leb b'A' c && leb c b'Z' then c + 32 else c

abbrev pub lower : String → List ℕ
lower String.[] = []
lower (String.◌∷◌ c s) = lower_code (code c) ∷ lower s

abbrev pub codes : String → List ℕ
codes String.[] = []
codes (String.◌∷◌ c s) = code c ∷ codes s

-- `text.startswith(prefix)`
unfoldable pub starts_with : List ℕ → List ℕ → Bool
starts_with text [] = true
starts_with [] (p ∷ ps) = false
starts_with (c ∷ text) (p ∷ ps) = c == p && starts_with text ps

-- `part in text`
unfoldable pub contains : List ℕ → List ℕ → Bool
unfolding starts_with
contains part [] = starts_with [] part
contains part (c ∷ text) = starts_with (c ∷ text) part || contains part text

strip_example : str_eq (strip "  +1.5, 2 \r\n") "+1.5, 2" ≡ true
unfolding strip
strip_example = refl
