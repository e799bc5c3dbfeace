-- ===== src/Pages/Escape.antt =====
-- `html_escape` and `json_for_script` of crates/omnivore-server/src/routes/pages/mod.rs.
use omnivore.Prelude.{ℕ, zero, suc, ◌≡◌, ◌≢◌, refl, false, Option, none, some, [], ◌∷◌, ◌++◌, arith}
use omnivore.Prelude.Tests.{◌==◌, if◌then◌else◌}
use omnivore.Prelude.Lists.{All, All-append}
use omnivore.Text.Base.{Text, codes, starts_with, strip_prefix, contains}

html_char : ℕ → Text
html_char c =
    if c == b'&'
    then codes "&amp;"
    else if c == b'<'
    then codes "&lt;"
    else if c == b'>'
    then codes "&gt;"
    else if c == b'"'
    then codes "&quot;"
    else if c == b'\''
    then codes "&#39;"
    else c ∷ []

unfoldable pub html_escape : Text → Text
unfolding html_char
html_escape [] = []
html_escape (c ∷ s) = html_char c ++ html_escape s

script_char : ℕ → Text
script_char c =
    if c == b'<'
    then codes "\\u003c"
    else if c == b'>'
    then codes "\\u003e"
    else if c == b'&'
    then codes "\\u0026"
    else if c == 0x2028
    then codes "\\u2028"
    else if c == 0x2029
    then codes "\\u2029"
    else c ∷ []

script_escape : Text → Text
unfolding script_char
script_escape [] = []
script_escape (c ∷ s) = script_char c ++ script_escape s

-- The first argument is what the serializer of `serde_json` answers.
unfoldable pub json_for_script : Option Text → Text → Text
unfolding script_escape
json_for_script none fallback = fallback
json_for_script (some raw) fallback = script_escape raw

-- The character references of HTML among those that are used, as a browser reads them: what a text
-- behind an ampersand stands for, and the number of characters that it takes.
reference : Text → Option (ℕ × ℕ)
reference s =
    if starts_with (codes "amp;") s
    then some (b'&', 4)
    else if starts_with (codes "lt;") s
    then some (b'<', 3)
    else if starts_with (codes "gt;") s
    then some (b'>', 3)
    else if starts_with (codes "quot;") s
    then some (b'"', 5)
    else if starts_with (codes "#39;") s
    then some (b'\'', 4)
    else none

-- the text that is read, after so many characters that are passed over
unfoldable pub decode : ℕ → Text → Text
unfolding reference starts_with strip_prefix
decode skip [] = []
decode (suc skip) (c ∷ s) = decode skip s
decode zero (c ∷ s) = elim (if c == b'&' then reference s else none) [
  | none ↦ c ∷ decode zero s
  | some (d, n) ↦ d ∷ decode n s
]

-- neither a tag nor the end of an attribute
abbrev pub IsInert : ℕ → Type 0
IsInert c = (c ≢ b'<') × (c ≢ b'>') × (c ≢ b'"') × (c ≢ b'\'')

html_char-IsInert : (c : ℕ) → All IsInert (html_char c)
unfolding html_char
html_char-IsInert c = ground arith

html_char-decode : (c : ℕ) (s : Text) → decode zero (html_char c ++ s) ≡ c ∷ decode zero s
unfolding html_char decode
html_char-decode c s = ground arith

html_escape-IsInert : (s : Text) → All IsInert (html_escape s)
unfolding html_escape
html_escape-IsInert [] = tt
html_escape-IsInert (c ∷ s) =
    All-append IsInert (html_char c) (html_escape s) (html_char-IsInert c) (html_escape-IsInert s)

html_escape-decode : (s : Text) → decode zero (html_escape s) ≡ s
unfolding html_escape decode
html_escape-decode [] = refl
html_escape-decode (c ∷ s) =
    ground (arith, html_char-decode c (html_escape s), html_escape-decode s)

-- An escaped text has nothing that opens a tag or closes an attribute, and a browser that decodes its
-- character references reads the original.
pub html_escape-safe : (s : Text) → All IsInert (html_escape s) × (decode zero (html_escape s) ≡ s)
html_escape-safe s = (html_escape-IsInert s, html_escape-decode s)

-- no character that ends a script element, begins a reference or ends a line of JavaScript
abbrev pub IsEmbeddable : ℕ → Type 0
IsEmbeddable c = (c ≢ b'<') × (c ≢ b'>') × (c ≢ b'&') × (c ≢ 0x2028) × (c ≢ 0x2029)

script_char-IsEmbeddable : (c : ℕ) → All IsEmbeddable (script_char c)
unfolding script_char
script_char-IsEmbeddable c = ground arith

script_escape-IsEmbeddable : (s : Text) → All IsEmbeddable (script_escape s)
unfolding script_escape
script_escape-IsEmbeddable [] = tt
script_escape-IsEmbeddable (c ∷ s) =
    All-append IsEmbeddable (script_char c) (script_escape s) (script_char-IsEmbeddable c)
      (script_escape-IsEmbeddable s)

contains-lacking : (p s : Text) → All IsEmbeddable s → contains (b'<' ∷ p) s ≡ false
unfolding contains starts_with strip_prefix
contains-lacking p [] h = refl
contains-lacking p (c ∷ s) (q, h) = ground (arith, q, contains-lacking p s h)

-- What is serialized for a script block never closes the element or opens another.
pub json_for_script-no_tag :
    (raw fallback p : Text) → contains (b'<' ∷ p) (json_for_script (some raw) fallback) ≡ false
unfolding json_for_script
json_for_script-no_tag raw fallback p =
    contains-lacking p (script_escape raw) (script_escape-IsEmbeddable raw)
