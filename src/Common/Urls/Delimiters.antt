-- ===== src/Common/Urls/Delimiters.antt =====
-- The characters that delimit the parts of a URL: where a client cuts it, and that the parts which net/url
-- escapes have none of them.
use Prim.Native.Nat.{ℕ, ◌<◌, ◌/◌, ◌%◌}
use Prim.Native.Char.{Char, code}
use Prim.Native.String
use Prim.Native.String.{String, [], ◌∷◌}
use mathlib.Core.Path.{◌≡◌, refl, sym, ap, ◌∙◌}
use mathlib.Core.Bool.{true, false, ◌||◌}
use mathlib.Core.Logic.{inl, inr, ◌≢◌}
use mathlib.Core.Option.{Option, none, some}
use mathlib.Core.List.{List}
use native.Mathlib.Omega.{arith}
use text.Mathlib.TextLemmas.{nil-append, cons-append}
use provider_cloudnative_pg.Common.Tests.{Bool-cases, eqb, eqb_iff}
use provider_cloudnative_pg.Common.Sha256.{encode_char}
use provider_cloudnative_pg.Common.Urls.{
  one_of, is_alphanumeric, upper_hex, percent, escape_char, escape_with,
}
use provider_cloudnative_pg.Common.Urls.Read.{Bytes, char_bound, encode_char-Bytes, upper_hex_digit}

-- A text before and after its first character with the code.
unfoldable pub cut : ℕ → String → Option (String × String)
cut d [] = none
cut d (c ∷ s) = elim (eqb (code c) d) [
  | true ↦ some ([], s)
  | false ↦ elim (cut d s) [ none ↦ none | some (before, after) ↦ some (c ∷ before, after) ]
]

abbrev pub Free : ℕ → String → Type 0
Free d s = one_of s d ≡ false

pub one_of-append : (s t : String) (d : ℕ) → Free d s → Free d t → Free d (String.◌++◌ s t)
unfolding one_of
one_of-append [] t d h k = rw (nil-append t) k
one_of-append (c ∷ s) t d h k = rw (cons-append c s t) (ground (arith, one_of-append s t d))

pub cut-append :
    (d : ℕ) (s : String) (c : Char) (t : String)
    → Free d s
    → code c ≡ d
    → cut d (String.◌++◌ s (c ∷ t)) ≡ some (s, t)
unfolding cut one_of
cut-append d [] c t h e = rw (nil-append (c ∷ t), (eqb_iff (code c) d).1 e, cut) refl
cut-append d (x ∷ s) c t h e = rw (cons-append x s (c ∷ t)) (elim (Bool-cases (eqb (code x) d)) [
  | inl hit ↦ cc (rw hit at h)
  | inr miss ↦ rw (miss, cut) (rw (cut-append d s c t (rw miss at h) e) refl)
])

-- A character that only an escape could write.
pub record IsDelimiter (kept : String) (d : ℕ) : Type 0 where
  pub not_alphanumeric : is_alphanumeric d ≡ false
  pub not_sign : eqb b'%' d ≡ false
  pub not_kept : one_of kept d ≡ false

one-Free : (c : Char) (d : ℕ) → code c ≢ d → Free d (c ∷ [])
unfolding one_of
one-Free c d h = elim (Bool-cases (eqb (code c) d)) [
  | inl hit ↦ absurd (h ((eqb_iff (code c) d).0 hit))
  | inr miss ↦ rw (miss, one_of) refl
]

upper_hex-Free : (x d : ℕ) → x < 16 → is_alphanumeric d ≡ false → Free d (upper_hex x)
upper_hex-Free x d small h =
    let (c, e, _, a) = upper_hex_digit x small in
    rw e (one-Free c d (λ (same : code c ≡ d). cc (sym a ∙ ap is_alphanumeric same ∙ h)))

percent-Free :
    (bs : List ℕ) (d : ℕ)
    → Bytes bs
    → is_alphanumeric d ≡ false
    → eqb b'%' d ≡ false
    → Free d (percent bs)
unfolding percent one_of
percent-Free List.[] d m h k = refl
percent-Free (List.◌∷◌ b bs) d m h k = one_of-append "%" _ d (rw k refl) (
    one_of-append (upper_hex (b / 16)) _ d (upper_hex-Free (b / 16) d (omega arith) h) (
      one_of-append (upper_hex (b % 16)) (percent bs) d (upper_hex-Free (b % 16) d (omega arith) h)
        (percent-Free bs d m.1 h k)))

kept_char :
    (kept : String) (n d : ℕ)
    → IsDelimiter kept d
    → (is_alphanumeric n || one_of kept n) ≡ true
    → n ≢ d
kept_char kept n d h keep same =
    let neither : (is_alphanumeric d || one_of kept d) ≡ false =
      rw (h.not_alphanumeric, h.not_kept) refl in
    cc (sym keep ∙ ap (λ x. is_alphanumeric x || one_of kept x) same ∙ neither)

escape_char-Free :
    (kept : String) (c : Char) (d : ℕ) → IsDelimiter kept d → Free d (escape_char kept c)
unfolding escape_char
escape_char-Free kept c d h = elim (Bool-cases (is_alphanumeric (code c) || one_of kept (code c))) [
  | inl keep ↦ rw (keep, escape_char) (one-Free c d (kept_char kept (code c) d h keep))
  | inr other ↦
      rw (other, escape_char)
        (percent-Free (encode_char (code c)) d (encode_char-Bytes (code c) (char_bound c))
          h.not_alphanumeric h.not_sign)
]

-- No delimiter is left in an escaped text.
pub escape_with-Free : (kept s : String) (d : ℕ) → IsDelimiter kept d → Free d (escape_with kept s)
unfolding escape_with one_of
escape_with-Free kept [] d h = refl
escape_with-Free kept (c ∷ s) d h =
    one_of-append (escape_char kept c) (escape_with kept s) d (escape_char-Free kept c d h)
      (escape_with-Free kept s d h)
