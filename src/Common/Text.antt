-- ===== src/Common/Text.antt =====
-- The operations of Python's `str` that the services use. A test of a character is on its code.
use Prim.Native.Nat.{ℕ, ◌+◌, ◌-◌}
use Prim.Native.Char.{Char, code}
use Prim.Native.String.{String, ◌∷◌ as ◌:>◌, ◌++◌ as ◌<>◌}
use text.Mathlib.TextLemmas.{nil-append, cons-append}
use mathlib.Core.Path.{◌≡◌, refl}
use mathlib.Core.Bool.{Bool, true, false, not, ◌&&◌, ◌||◌}
use mathlib.Core.List.{List, [], ◌∷◌, map}
use native.Mathlib.Omega.{arith}
use open_civic.Common.Tests.{leb, ◌==◌, if◌then◌else◌}
use open_civic.Common.Lists.{All}

unfoldable pub is_empty : String → Bool
is_empty String.[] = true
is_empty (c :> s) = false

-- `str.isspace` of one character.
unfoldable pub is_space : Char → Bool
is_space c =
    let n = code c in
    (leb 9 n && leb n 13)
    || (leb 28 n && leb n 32)
    || n == 133
    || n == 160
    || n == 5760
    || (leb 8192 n && leb n 8202)
    || n == 8232
    || n == 8233
    || n == 8239
    || n == 8287
    || n == 12288

-- `s.rstrip()`, by a test of the characters to drop.
unfoldable pub rstrip : (Char → Bool) → String → String
unfolding is_empty
rstrip p String.[] = ""
rstrip p (c :> s) = let rest = rstrip p s in if p c && is_empty rest then "" else c :> rest

unfoldable pub lstrip : (Char → Bool) → String → String
lstrip p String.[] = ""
lstrip p (c :> s) = let rest = lstrip p s in if p c then rest else c :> s

-- `s.strip()`
unfoldable pub strip : String → String
unfolding rstrip lstrip is_space
strip s = rstrip is_space (lstrip is_space s)

add_to_head : Char → List String → List String
add_to_head c [] = (c :> "") ∷ []
add_to_head c (x ∷ xs) = (c :> x) ∷ xs

-- `s.split(c)`, for one character.
unfoldable pub split : ℕ → String → List String
unfolding add_to_head
split sep String.[] = "" ∷ []
split sep (c :> s) =
    let rest = split sep s in if code c == sep then "" ∷ rest else add_to_head c rest

-- `s.partition(c)`: before and after the first.
unfoldable pub partition : ℕ → String → String × String
partition sep String.[] = ("", "")
partition sep (c :> s) =
    let rest = partition sep s in if code c == sep then ("", s) else (c :> rest.0, rest.1)

-- `",".join(xs)`
unfoldable pub join : List String → String
join [] = ""
join (x ∷ []) = x
join (x ∷ y ∷ ys) = let rest = join (y ∷ ys) in x <> ("," <> rest)

-- The codes of a text's characters.
unfoldable pub codes : String → List ℕ
codes String.[] = []
codes (c :> s) = code c ∷ codes s

same_codes : List ℕ → List ℕ → Bool
same_codes [] [] = true
same_codes (x ∷ xs) (y ∷ ys) = x == y && same_codes xs ys
same_codes _ _ = false

-- Upper case, for what becomes an ASCII letter: dotless i and long s do too.
upper_code : ℕ → ℕ
upper_code n =
    if leb 97 n && leb n 122 then n - 32 else if n == 305 then 73 else if n == 383 then 83 else n

-- Lower case, for what becomes an ASCII letter: the Kelvin sign does too.
lower_code : ℕ → ℕ
lower_code n = if leb 65 n && leb n 90 then n + 32 else if n == 8490 then 107 else n

-- `s.upper() == t`, for `t` in ASCII.
unfoldable pub upper_is : String → String → Bool
unfolding codes same_codes upper_code
upper_is s t = same_codes (map upper_code (codes s)) (codes t)

-- `s.lower() == t`, for `t` in ASCII.
unfoldable pub lower_is : String → String → Bool
unfolding codes same_codes lower_code
lower_is s t = same_codes (map lower_code (codes s)) (codes t)

-- `s.lower().endswith(t)`, for `t` in ASCII.
ends_with_codes : List ℕ → List ℕ → Bool
unfolding same_codes
ends_with_codes [] ys = same_codes [] ys
ends_with_codes (x ∷ xs) ys = same_codes (x ∷ xs) ys || ends_with_codes xs ys

unfoldable pub lower_ends_with : String → String → Bool
unfolding codes ends_with_codes lower_code
lower_ends_with s t = ends_with_codes (map lower_code (codes s)) (codes t)

-- `s <= t`: strings are ordered by the codes of their characters.
codes_leb : List ℕ → List ℕ → Bool
codes_leb [] ys = true
codes_leb (x ∷ xs) [] = false
codes_leb (x ∷ xs) (y ∷ ys) = let rest = codes_leb xs ys in if x == y then rest else leb x y

unfoldable pub text_leb : String → String → Bool
unfolding codes codes_leb
text_leb s t = codes_leb (codes s) (codes t)

-- `t in s`, and `t in s.lower()` for `t` in ASCII.
starts_with_codes : List ℕ → List ℕ → Bool
starts_with_codes xs [] = true
starts_with_codes [] (y ∷ ys) = false
starts_with_codes (x ∷ xs) (y ∷ ys) = x == y && starts_with_codes xs ys

has_codes : List ℕ → List ℕ → Bool
unfolding starts_with_codes
has_codes [] ys = starts_with_codes [] ys
has_codes (x ∷ xs) ys = starts_with_codes (x ∷ xs) ys || has_codes xs ys

unfoldable pub mentions : String → String → Bool
unfolding codes has_codes
mentions s t = has_codes (codes s) (codes t)

unfoldable pub lower_mentions : String → String → Bool
unfolding codes has_codes lower_code
lower_mentions s t = has_codes (map lower_code (codes s)) (codes t)

-- A word: no space and no comma.
unfoldable pub is_word_char : Char → Bool
unfolding is_space
is_word_char c = not (is_space c) && not (code c == 44)

unfoldable pub is_word : String → Bool
unfolding is_word_char
is_word String.[] = true
is_word (c :> s) = is_word_char c && is_word s

word_char-code : (c : Char) → is_word_char c ≡ true → (code c == 44) ≡ false
unfolding is_word_char
word_char-code c h = ground arith

word_char-space : (c : Char) → is_word_char c ≡ true → is_space c ≡ false
unfolding is_word_char
word_char-space c h = ground arith

split-word : (x t : String) → is_word x ≡ true → split 44 (x <> ("," <> t)) ≡ x ∷ split 44 t
unfolding split is_word
split-word String.[] t h = rw (nil-append ("," <> t), cons-append, nil-append t) refl
split-word (c :> s) t h =
    let first : is_word_char c ≡ true = ground arith in
    let others : is_word s ≡ true = ground arith in
    rw (cons-append c s ("," <> t), split-word s t others, word_char-code c first) refl

split-one : (x : String) → is_word x ≡ true → split 44 x ≡ x ∷ []
unfolding split is_word
split-one String.[] h = refl
split-one (c :> s) h =
    let first : is_word_char c ≡ true = ground arith in
    let others : is_word s ≡ true = ground arith in
    rw (split-one s others, word_char-code c first) refl

-- Words that are joined by commas are what splitting gives back.
pub split-join :
    (x : String) (xs : List String)
    → All (λ y. is_word y ≡ true) (x ∷ xs)
    → split 44 (join (x ∷ xs)) ≡ x ∷ xs
unfolding join
split-join x [] h = split-one x h.0
split-join x (y ∷ ys) h = rw (split-word x (join (y ∷ ys)) h.0, split-join y ys h.1) refl

rstrip-word : (x : String) → is_word x ≡ true → rstrip is_space x ≡ x
unfolding rstrip is_word
rstrip-word String.[] h = refl
rstrip-word (c :> s) h =
    let first : is_word_char c ≡ true = ground arith in
    let others : is_word s ≡ true = ground arith in
    rw (rstrip-word s others, word_char-space c first) refl

lstrip-word : (x : String) → is_word x ≡ true → lstrip is_space x ≡ x
unfolding lstrip is_word
lstrip-word String.[] h = refl
lstrip-word (c :> s) h =
    let first : is_word_char c ≡ true = ground arith in rw (word_char-space c first) refl

-- Stripping a word changes nothing.
pub strip-word : (x : String) → is_word x ≡ true → strip x ≡ x
unfolding strip
strip-word x h = rw (lstrip-word x h) (rstrip-word x h)
