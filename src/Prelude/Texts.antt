-- ===== src/Prelude/Texts.antt =====
-- Methods of the standard library on texts: `split_once`, `rsplit_once`, `strip_prefix`,
-- `eq_ignore_ascii_case` and the parser of u16.
use Prim.Native.Nat.{ℕ, ◌+◌, ◌-◌, ◌*◌}
use Prim.Native.Char.{Char, code}
use Prim.Native.String.{String, len, slice, [] as text_nil, ◌∷◌ as text_cons}
use text.Mathlib.Text.{starts_with}
use mathlib.Core.Bool.{Bool, true, false, ◌&&◌}
use mathlib.Core.Option.{Option, none, some}
use rrq.Prelude.Tests.{◌==◌, leb, nat_eq, if◌then◌else◌, unwrap_or}

-- `text.strip_prefix(prefix)`.
abbrev pub strip_prefix : String → String → Option String
strip_prefix text prefix =
    if starts_with text prefix then some (slice text (len prefix) (len text)) else none

abbrev pub after_char : Char → Option (String × String) → Option (String × String)
after_char c none = none
after_char c (some (left, right)) = some (text_cons c left, right)

abbrev pub or_split : Option String → Option (String × String) → Option (String × String)
or_split none later = later
or_split (some right) later = some ("", right)

-- `text.split_once(separator)` of a separator that is not empty.
abbrev pub split_once : String → String → Option (String × String)
split_once text_nil separator = none
split_once (text_cons c rest) separator =
    or_split (strip_prefix (text_cons c rest) separator) (after_char c (split_once rest separator))

abbrev pub or_here : Option (String × String) → Option String → Option (String × String)
or_here none none = none
or_here none (some right) = some ("", right)
or_here (some split) here = some split

-- `text.rsplit_once(separator)` of a separator that is not empty.
abbrev pub rsplit_once : String → String → Option (String × String)
rsplit_once text_nil separator = none
rsplit_once (text_cons c rest) separator =
    or_here (after_char c (rsplit_once rest separator)) (strip_prefix (text_cons c rest) separator)

abbrev ascii_lower : ℕ → ℕ
ascii_lower c = if leb 65 c && leb c 90 then c + 32 else c

abbrev pub eq_ignore_ascii_case : String → String → Bool
eq_ignore_ascii_case text_nil text_nil = true
eq_ignore_ascii_case text_nil (text_cons d t) = false
eq_ignore_ascii_case (text_cons c s) text_nil = false
eq_ignore_ascii_case (text_cons c s) (text_cons d t) =
    nat_eq (ascii_lower (code c)) (ascii_lower (code d)) && eq_ignore_ascii_case s t

-- The digits of a u16 after those that make the given number.
abbrev pub digits_u16 : ℕ → String → Option ℕ
digits_u16 n text_nil = some n
digits_u16 n (text_cons c rest) =
    let next = n * 10 + (code c - 48) in
    let later = digits_u16 next rest in
    if leb 48 (code c) && leb (code c) 57 && leb next 65535 then later else none

-- `text.parse::<u16>()`.
unfoldable pub parse_u16 : String → Option ℕ
parse_u16 text =
    let unsigned = unwrap_or (strip_prefix text "+") text in
    if unsigned == "" then none else digits_u16 0 unsigned
