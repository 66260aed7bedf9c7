-- ===== src/Base/Text.antt =====
-- Texts: membership, the identifier and digest patterns, and `tuple(dict.fromkeys(...))`.
use Prim.Native.Nat.{ℕ, zero, suc, ◌/◌, ◌%◌}
use Prim.Native.Char.{code}
use Prim.Native.String.{String, ◌++◌ as join}
use mathlib.Core.Path.{◌≡◌, refl}
use mathlib.Core.Bool.{Bool, true, false, ◌||◌, ◌&&◌}
use mathlib.Core.List.{List, [], ◌∷◌, ◌++◌}
use native.Mathlib.Omega.{arith}
use text.Mathlib.Text.{◌==◌ as str_eq}
use text.Mathlib.TextEquality.{eq_iff}
use text.Mathlib.TextPositions.{eq_refl}
use job_slayer.Base.Tests.{leb, ◌==◌, if◌then◌else◌}

pub String-discrete : Discrete String
String-discrete s t = decided (str_eq s t) refl
  where
    decided : (b : Bool) → str_eq s t ≡ b → Dec (s ≡ t)
    decided true e = yes ((eq_iff s t).0 e)
    decided false e = no (λ same. ground (arith, (eq_iff s t).1 same))

-- `x in xs` on a tuple or a set of texts.
abbrev pub contains : String → List String → Bool
contains x [] = false
contains x (y ∷ ys) = str_eq y x || contains x ys

-- A set-like tuple is refused when `len(xs) != len(set(xs))`.
abbrev pub is_unique : List String → Bool
is_unique [] = true
is_unique (x ∷ xs) = (if contains x xs then false else true) && is_unique xs

without : String → List String → List String
without x [] = []
without x (y ∷ ys) = let rest = without x ys in if str_eq y x then rest else y ∷ rest

-- `tuple(dict.fromkeys(xs))`: the first occurrence of each text, in order.
unfoldable pub from_keys : List String → List String
unfolding without
from_keys [] = []
from_keys (x ∷ xs) = x ∷ without x (from_keys xs)

contains-without :
    (x y : String) (ys : List String)
    → contains y (without x ys) ≡ (if str_eq x y then false else contains y ys)
unfolding without
contains-without x y [] = ground arith
contains-without x y (z ∷ ys) =
    ground (arith, contains-without x y ys, eq_iff z x, eq_iff z y, eq_iff x y)

pub contains-from_keys : (y : String) (xs : List String) → contains y (from_keys xs) ≡ contains y xs
unfolding from_keys
contains-from_keys y [] = refl
contains-from_keys y (x ∷ xs) =
    ground (arith, contains-without x y (from_keys xs), contains-from_keys y xs, eq_iff x y)

is_unique-without :
    (x : String) (ys : List String) → is_unique ys ≡ true → is_unique (without x ys) ≡ true
unfolding without
is_unique-without x [] h = refl
is_unique-without x (y ∷ ys) h =
    ground (arith, is_unique-without x ys, contains-without x y ys, eq_iff x y, eq_iff y x)

pub is_unique-from_keys : (xs : List String) → is_unique (from_keys xs) ≡ true
unfolding from_keys
is_unique-from_keys [] = refl
is_unique-from_keys (x ∷ xs) = ground (
  arith,
  contains-without x x (from_keys xs),
  is_unique-without x (from_keys xs),
  is_unique-from_keys xs,
  eq_refl x,
)

pub contains-append :
    (x : String) (xs ys : List String) → contains x (xs ++ ys) ≡ (contains x xs || contains x ys)
contains-append x [] ys = refl
contains-append x (y ∷ xs) ys = ground (arith, contains-append x xs ys)

-- The code points of a text.
abbrev pub codes : String → List ℕ
codes String.[] = []
codes (String.◌∷◌ c s) = code c ∷ codes s

abbrev is_between : ℕ → ℕ → ℕ → Bool
is_between low high c = leb low c && leb c high

abbrev is_alphanumeric : ℕ → Bool
is_alphanumeric c = is_between b'A' b'Z' c || is_between b'a' b'z' c || is_between b'0' b'9' c

abbrev is_identifier_part : ℕ → Bool
is_identifier_part c = is_alphanumeric c || c == b'.' || c == b'_' || c == b'-'

abbrev every : (ℕ → Bool) → List ℕ → Bool
every test [] = true
every test (c ∷ cs) = test c && every test cs

abbrev starts_identifier : List ℕ → Bool
starts_identifier [] = false
starts_identifier (c ∷ cs) = is_alphanumeric c && every is_identifier_part cs

-- The pattern `^[A-Za-z0-9][A-Za-z0-9._-]*$`.
unfoldable pub is_identifier : String → Bool
is_identifier s = starts_identifier (codes s)

abbrev is_hex : ℕ → Bool
is_hex c = is_between b'0' b'9' c || is_between b'a' b'f' c

abbrev size : List ℕ → ℕ
size [] = 0
size (c ∷ cs) = suc (size cs)

-- The pattern `^[0-9a-f]{64}$`.
unfoldable pub is_sha256 : String → Bool
is_sha256 s = size (codes s) == 64 && every is_hex (codes s)

-- The characters that `str.strip` removes.
abbrev pub is_space : ℕ → Bool
is_space c =
    is_between 9 13 c
    || is_between 28 32 c
    || c == 133
    || c == 160
    || c == 5760
    || is_between 8192 8202 c
    || c == 8232
    || c == 8233
    || c == 8239
    || c == 8287
    || c == 12288

-- `not text.strip()`
unfoldable pub is_blank : String → Bool
is_blank text = every is_space (codes text)

strip_left : String → String
strip_left String.[] = ""
strip_left (String.◌∷◌ c s) =
    let rest = strip_left s in if is_space (code c) then rest else String.◌∷◌ c s

strip_right : String → String
strip_right String.[] = ""
strip_right (String.◌∷◌ c s) =
    let rest = strip_right s in
    if is_space (code c) && str_eq rest "" then "" else String.◌∷◌ c rest

-- `text.strip()`
unfoldable pub strip : String → String
unfolding strip_left strip_right
strip text = strip_right (strip_left text)

item : ℕ → List String → String
item n [] = ""
item zero (x ∷ xs) = x
item (suc n) (x ∷ xs) = item n xs

digit : ℕ → String
unfolding item
digit n = item n ("0" ∷ "1" ∷ "2" ∷ "3" ∷ "4" ∷ "5" ∷ "6" ∷ "7" ∷ "8" ∷ "9" ∷ [])

-- The decimal digits of a number before a text, on a fuel that exceeds the number.
digits_before : ℕ → ℕ → String → String
unfolding digit
digits_before zero n text = text
digits_before (suc fuel) n text =
    let with_last = join (digit (n % 10)) text in
    elim (leb n 9) [ true ↦ with_last | false ↦ digits_before fuel (n / 10) with_last ]

-- `str(n)`
unfoldable pub decimal : ℕ → String
unfolding digits_before
decimal n = digits_before (suc n) n ""
