-- ===== src/Common/Urls/Read.antt =====
-- How a client reads a URL of the form that net/url writes: the delimiters, and the percent encoding.
use Prim.Native.Nat.{ℕ, zero, suc, ◌+◌, ◌-◌, ◌*◌, ◌/◌, ◌%◌, ◌<◌}
use Prim.Native.Char.{Char, char, code}
use Prim.Native.String
use Prim.Native.String.{String, [], ◌∷◌}
use mathlib.Core.Path.{◌≡◌, refl, sym, ap, ◌∙◌}
use mathlib.Core.Bool.{true, false, ◌||◌}
use mathlib.Core.Logic.{inl, inr}
use mathlib.Core.List
use mathlib.Core.List.{List}
use native.Mathlib.Omega.{arith}
use text.Mathlib.Text.{◌==◌}
use text.Mathlib.TextEquality.{eq_iff}
use text.Mathlib.TextLemmas.{append-nil, nil-append, cons-append, append_assoc}
use provider_cloudnative_pg.Common.Lists.{All}
use provider_cloudnative_pg.Common.Tests.{Bool-cases, eqb, leb, ltb, if◌then◌else◌}
use provider_cloudnative_pg.Common.Sha256.{encode_char, bytes}
use provider_cloudnative_pg.Common.Texts.{hex_digit}
use provider_cloudnative_pg.Common.Urls.{
  one_of, is_alphanumeric, upper_hex, percent, escape_char, escape_with, escape_user, escape_host,
  escape_path, user_kept, host_kept, path_kept,
}

pub char_bound : (c : Char) → code c < 1114112
char_bound (char n p) = ground arith

-- The value of a hexadecimal digit in upper case.
abbrev pub hex_value : Char → ℕ
hex_value c = if leb b'A' (code c) then code c - 55 else code c - b'0'

-- What a percent sign and the digits after it still wait for.
pub data Mode : Type 0 where
  plain percent_sign : Mode
  high : ℕ → Mode

-- The bytes that a percent-encoded text stands for.
unescape_in : Mode → String → List ℕ
unescape_in m [] = List.[]
unescape_in plain (c ∷ s) = elim (eqb (code c) b'%') [
  | true ↦ unescape_in percent_sign s
  | false ↦ List.◌∷◌ (code c) (unescape_in plain s)
]
unescape_in percent_sign (c ∷ s) = unescape_in (high (hex_value c)) s
unescape_in (high h) (c ∷ s) = List.◌∷◌ (16 * h + hex_value c) (unescape_in plain s)

unfoldable pub unescape : String → List ℕ
unfolding unescape_in
unescape s = unescape_in plain s

-- One digit is one letter or figure, and reads as its value.
pub upper_hex_digit :
    (d : ℕ)
    → d < 16
    → (c : Char) × (upper_hex d ≡ c ∷ []) × (hex_value c ≡ d) × (is_alphanumeric (code c) ≡ true)
unfolding upper_hex hex_digit is_alphanumeric
upper_hex_digit zero h = ("0", refl, refl, refl)
upper_hex_digit (suc zero) h = ("1", refl, refl, refl)
upper_hex_digit (suc (suc zero)) h = ("2", refl, refl, refl)
upper_hex_digit (suc (suc (suc zero))) h = ("3", refl, refl, refl)
upper_hex_digit (suc (suc (suc (suc zero)))) h = ("4", refl, refl, refl)
upper_hex_digit (suc (suc (suc (suc (suc zero))))) h = ("5", refl, refl, refl)
upper_hex_digit (suc (suc (suc (suc (suc (suc zero)))))) h = ("6", refl, refl, refl)
upper_hex_digit (suc (suc (suc (suc (suc (suc (suc zero))))))) h = ("7", refl, refl, refl)
upper_hex_digit (suc (suc (suc (suc (suc (suc (suc (suc zero)))))))) h = ("8", refl, refl, refl)
upper_hex_digit (suc (suc (suc (suc (suc (suc (suc (suc (suc zero))))))))) h =
    ("9", refl, refl, refl)
upper_hex_digit (suc (suc (suc (suc (suc (suc (suc (suc (suc (suc zero)))))))))) h =
    ("A", refl, refl, refl)
upper_hex_digit (suc (suc (suc (suc (suc (suc (suc (suc (suc (suc (suc zero))))))))))) h =
    ("B", refl, refl, refl)
upper_hex_digit (suc (suc (suc (suc (suc (suc (suc (suc (suc (suc (suc (suc zero)))))))))))) h =
    ("C", refl, refl, refl)
upper_hex_digit (suc (suc (suc (suc (suc (suc (suc (suc (suc (suc (suc (suc (suc zero)))))))))))))
      h =
    ("D", refl, refl, refl)
upper_hex_digit
      (suc (suc (suc (suc (suc (suc (suc (suc (suc (suc (suc (suc (suc (suc zero)))))))))))))) h =
    ("E", refl, refl, refl)
upper_hex_digit
      (suc (suc (suc (suc (suc (suc (suc (suc (suc (suc (suc (suc (suc (suc (suc zero)))))))))))))))
      h =
    ("F", refl, refl, refl)
upper_hex_digit
      (suc
        (suc (suc (suc (suc (suc (suc (suc (suc (suc (suc (suc (suc (suc (suc (suc n))))))))))))))))
      h =
    absurd (omega arith)

abbrev pub Bytes : List ℕ → Type 0
Bytes = All (λ b. b < 256)

pub one-append : (c : Char) (s : String) → String.◌++◌ (c ∷ []) s ≡ c ∷ s
one-append c s = cons-append c [] s ∙ ap (λ r. c ∷ r) (nil-append s)

percent-append :
    (b : ℕ) (bs : List ℕ) (rest : String) (c d : Char)
    → upper_hex (b / 16) ≡ c ∷ []
    → upper_hex (b % 16) ≡ d ∷ []
    → String.◌++◌ (percent (List.◌∷◌ b bs)) rest ≡ "%" ∷ (c ∷ (d ∷ String.◌++◌ (percent bs) rest))
unfolding percent
percent-append b bs rest c d e e' =
    rw (e, e', one-append "%", one-append c, one-append d)
      (cons-append "%" _ rest
        ∙ ap (λ r. "%" ∷ r) (cons-append c _ rest ∙ ap (λ r. c ∷ r) (cons-append d _ rest)))

unescape-percent :
    (bs : List ℕ) (rest : String)
    → Bytes bs
    → unescape_in plain (String.◌++◌ (percent bs) rest) ≡ List.◌++◌ bs (unescape_in plain rest)
unfolding percent unescape_in
unescape-percent List.[] rest h = ap (unescape_in plain) (nil-append rest)
unescape-percent (List.◌∷◌ b bs) rest h =
    let (c, e, v, _) = upper_hex_digit (b / 16) (omega arith) in
    let (d, e', v', _) = upper_hex_digit (b % 16) (omega arith) in
    rw (percent-append b bs rest c d e e')
      (cons_lem (16 * hex_value c + hex_value d) b (omega arith) (unescape-percent bs rest h.1))
  where
    cons_lem : (x y : ℕ) → x ≡ y → {u v : List ℕ} → u ≡ v → List.◌∷◌ x u ≡ List.◌∷◌ y v
    cons_lem x y e k = cc

pub encode_char-Bytes : (n : ℕ) → n < 1114112 → Bytes (encode_char n)
unfolding encode_char
encode_char-Bytes n h = elim (Bool-cases (ltb n 0x80)) [
  | inl one ↦ rw (one, encode_char) (ground arith)
  | inr more ↦ elim (Bool-cases (ltb n 0x800)) [
    | inl two ↦ rw (more, two, encode_char) (ground arith)
    | inr more' ↦ elim (Bool-cases (ltb n 0x10000)) [
      | inl three ↦ rw (more, more', three, encode_char) (ground arith)
      | inr four ↦ rw (more, more', four, encode_char) (ground arith)
    ]
  ]
]

encode_char_ascii : (n : ℕ) → n < 128 → encode_char n ≡ List.◌∷◌ n List.[]
unfolding encode_char
encode_char_ascii n h = ground arith

-- The characters that are kept as they are: ASCII, and no percent sign.
abbrev IsPlain : String → Type 0
IsPlain kept = (n : ℕ) → one_of kept n ≡ true → (n < 128) × (eqb n b'%' ≡ false)

alphanumeric_plain : (n : ℕ) → is_alphanumeric n ≡ true → (n < 128) × (eqb n b'%' ≡ false)
unfolding is_alphanumeric
alphanumeric_plain n h = ground arith

kept_plain :
    (kept : String) (n : ℕ)
    → IsPlain kept
    → (is_alphanumeric n || one_of kept n) ≡ true
    → (n < 128) × (eqb n b'%' ≡ false)
kept_plain kept n p h = elim (Bool-cases (is_alphanumeric n)) [
  | inl yes' ↦ alphanumeric_plain n yes'
  | inr other ↦ p n (rw other at h)
]

unescape-escape_char :
    (kept : String) (c : Char) (rest : String)
    → IsPlain kept
    → unescape_in plain (String.◌++◌ (escape_char kept c) rest)
      ≡ List.◌++◌ (encode_char (code c)) (unescape_in plain rest)
unfolding escape_char unescape_in
unescape-escape_char kept c rest p =
    elim (Bool-cases (is_alphanumeric (code c) || one_of kept (code c))) [
      | inl keep ↦
          let (small, no_sign) = kept_plain kept (code c) p keep in
          rw (keep, escape_char)
            (rw (one-append c rest, encode_char_ascii (code c) small)
              (rw (no_sign, unescape_in) refl))
      | inr other ↦
          rw (other, escape_char)
            (unescape-percent (encode_char (code c)) rest
              (encode_char-Bytes (code c) (char_bound c)))
    ]

unescape-escape_with :
    (kept s rest : String)
    → IsPlain kept
    → unescape_in plain (String.◌++◌ (escape_with kept s) rest)
      ≡ List.◌++◌ (bytes s) (unescape_in plain rest)
unfolding escape_with bytes
unescape-escape_with kept [] rest p = ap (unescape_in plain) (nil-append rest)
unescape-escape_with kept (c ∷ s) rest p =
    ap (unescape_in plain) (append_assoc (escape_char kept c) (escape_with kept s) rest)
    ∙ unescape-escape_char kept c (String.◌++◌ (escape_with kept s) rest) p
    ∙ ap (List.◌++◌ (encode_char (code c))) (unescape-escape_with kept s rest p)
    ∙ sym (List.append_assoc (encode_char (code c)) (bytes s) (unescape_in plain rest))

unescape_whole : (kept s : String) → IsPlain kept → unescape (escape_with kept s) ≡ bytes s
unfolding unescape
unescape_whole kept s p =
    ap (unescape_in plain) (sym (append-nil (escape_with kept s)))
    ∙ unescape-escape_with kept s [] p
    ∙ List.append-nil (bytes s)

user-IsPlain : IsPlain user_kept
unfolding one_of
user-IsPlain n h = ground arith

host-IsPlain : IsPlain host_kept
unfolding one_of
host-IsPlain n h = ground arith

path-IsPlain : IsPlain path_kept
unfolding one_of
path-IsPlain n h = ground arith

-- Each escaped part reads as the bytes of what was escaped.
pub unescape-escape_user : (s : String) → unescape (escape_user s) ≡ bytes s
unfolding escape_user
unescape-escape_user s = unescape_whole user_kept s user-IsPlain

pub unescape-escape_host : (s : String) → unescape (escape_host s) ≡ bytes s
unfolding escape_host
unescape-escape_host s = unescape_whole host_kept s host-IsPlain

pub unescape-escape_path : (s : String) → unescape (escape_path s) ≡ bytes s
unfolding escape_path
unescape-escape_path s = elim (Bool-cases (s == "*")) [
  | inl star ↦
      rw (star, escape_path)
        (rw ((eq_iff s "*").0 star) (unfold unescape unescape_in bytes encode_char in refl))
  | inr other ↦ rw (other, escape_path) (unescape_whole path_kept s path-IsPlain)
]
