-- ===== src/Calendar/Address.antt =====
-- Which addresses a calendar may be fetched from (api/src/lib/safeIcsFetch.ts).
pub mod Ranges
use intern_logenhelfer_de.Base.{
  ℕ, ◌+◌, ◌-◌, ◌*◌, String, Bool, true, false, not, ◌&&◌, ◌||◌, Option, none, some, List, [], ◌∷◌,
  length, all, ltb, leb, ◌==◌, nat_eq, string_eq, if◌then◌else◌,
}
use Prim.Native.String
use Prim.Native.String.{slice, len}
use Prim.Native.Char.{Char, code}
use text.Mathlib.Text.{starts_with}

pub record IPv4Octets : Type 0 where
  pub a : ℕ
  pub b : ℕ
  pub c : ℕ
  pub d : ℕ

unfoldable pub is_ipv4_blocked : IPv4Octets → Bool
is_ipv4_blocked o =
    o.a == 127
    || (o.a == 10
        || ((o.a == 172 && (leb 16 o.b && leb o.b 31))
            || ((o.a == 192 && o.b == 168)
                || ((o.a == 169 && o.b == 254)
                    || (o.a == 0 && (o.b == 0 && (o.c == 0 && o.d == 0)))))))

-- `text.split(separator)`, for a separator of one character given by its code.
abbrev pub split : ℕ → String → List String
split separator String.[] = "" ∷ []
split separator (String.◌∷◌ c s) =
    let rest = split separator s in
    if code c == separator
    then "" ∷ rest
    else elim rest [ [] ↦ String.◌∷◌ c "" ∷ [] | part ∷ parts ↦ String.◌∷◌ c part ∷ parts ]

-- A digit by its code, in base ten and in base sixteen.
abbrev pub digit : ℕ → Option ℕ
digit k = if leb 48 k && leb k 57 then some (k - 48) else none

abbrev pub hex_digit : ℕ → Option ℕ
hex_digit k =
    if leb 48 k && leb k 57
    then some (k - 48)
    else if leb 97 k && leb k 102
    then some (k - 87)
    else none

-- The value of a text of digits, read on from a value, or none at another character.
abbrev pub read_digits : (ℕ → Option ℕ) → ℕ → ℕ → String → Option ℕ
read_digits value base n String.[] = some n
read_digits value base n (String.◌∷◌ c s) = elim (value (code c)) [
  | none ↦ none
  | some v ↦ read_digits value base (n * base + v) s
]

-- `Number(part)` on the characters that an address has: an empty text is 0. The other forms that
-- `Number` reads have a sign, an exponent, spaces or a prefix, which no address has.
abbrev pub number : String → Option ℕ
number part = read_digits digit 10 0 part

-- `Number.isInteger(n) && n >= 0 && n <= 255`
abbrev pub octet : String → Option ℕ
octet part = elim (number part) [ none ↦ none | some n ↦ if leb n 255 then some n else none ]

abbrev pub octets : Option ℕ → Option ℕ → Option ℕ → Option ℕ → Option IPv4Octets
octets (some a) (some b) (some c) (some d) = some (record { a = a; b = b; c = c; d = d })
octets _ _ _ _ = none

abbrev pub four_octets : List String → Option IPv4Octets
four_octets (p ∷ q ∷ r ∷ s ∷ []) = octets (octet p) (octet q) (octet r) (octet s)
four_octets _ = none

unfoldable pub parse_ipv4 : String → Option IPv4Octets
parse_ipv4 address = four_octets (split 46 address)

abbrev pub mapped_prefix : String
mapped_prefix = "::ffff:"

abbrev pub is_digits : String → Bool
is_digits String.[] = false
is_digits part = elim (number part) [ none ↦ false | some _ ↦ true ]

-- `/^::ffff:(\d+\.\d+\.\d+\.\d+)$/`
unfoldable pub embedded_ipv4 : String → Option String
embedded_ipv4 address =
    if starts_with address mapped_prefix
    then (let rest = slice address (len mapped_prefix) (len address) in
        let parts = split 46 rest in
        if length parts == 4 && all is_digits parts then some rest else none)
    else none

-- `lower.split(':', 1)[0]`, if it has one to four hexadecimal digits.
abbrev pub first_part : List String → String
first_part [] = ""
first_part (p ∷ ps) = p

unfoldable pub first_group : String → Option ℕ
first_group address =
    let text = first_part (split 58 address) in
    if leb 1 (len text) && leb (len text) 4 then read_digits hex_digit 16 0 text else none

abbrev pub is_local_group : Option ℕ → Bool
is_local_group none = false
is_local_group (some g) = (leb 65_152 g && leb g 65_215) || (leb 64_512 g && leb g 65_023)

-- An embedded address that cannot be read is blocked.
abbrev pub blocked_octets : Option IPv4Octets → Bool
blocked_octets none = true
blocked_octets (some o) = is_ipv4_blocked o

-- The address in lower case.
unfoldable pub is_blocked_address : String → Bool
unfolding is_ipv4_blocked parse_ipv4 embedded_ipv4 first_group
is_blocked_address lower = elim (embedded_ipv4 lower) [
  | some embedded ↦ blocked_octets (parse_ipv4 embedded)
  | none ↦ elim (parse_ipv4 lower) [
    | some o ↦ is_ipv4_blocked o
    | none ↦ lower == "::1" || (lower == "::" || is_local_group (first_group lower))
  ]
]
