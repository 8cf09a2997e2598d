-- ===== src/Barman/Names.antt =====
-- Names that must fit 63 bytes: a long one is cut, and ends in eight digits of its hash.
use Prim.Native.Nat.{ℕ, ◌+◌, ◌-◌, ◌≤◌}
use Prim.Native.Char.{Char, code, len_utf8}
use Prim.Native.String.len
use Prim.Native.String.{[], ◌∷◌}
use text.Mathlib.TextPositions.{len-append}
use provider_cloudnative_pg.Common.{
  String, len, ◌<>◌, Bool, ◌||◌, ◌&&◌, ◌≡◌, inl, inr, Bool-cases, leb, leb→le, eqb, is_empty, arith,
  if◌then◌else◌,
}
use provider_cloudnative_pg.Common.Texts.{trim_right}

-- The first bytes of a text; a character that the cut would split is left out.
unfoldable pub take_bytes : ℕ → String → String
take_bytes n [] = []
take_bytes n (c ∷ s) =
    let rest = take_bytes (n - len_utf8 c) s in if leb (len_utf8 c) n then c ∷ rest else []

unfoldable pub is_dash_or_dot : Char → Bool
is_dash_or_dot c = eqb (code c) b'-' || eqb (code c) b'.'

-- `strings.TrimRight(name[:63-8-1], "-.") + "-" + hash[:8]`
unfoldable pub cut_name : String → String → String
unfolding take_bytes trim_right is_dash_or_dot
cut_name name digest =
    trim_right is_dash_or_dot (take_bytes 54 name) <> ("-" <> take_bytes 8 digest)

len-cons : (c : Char) (s : String) → len (c ∷ s) ≡ len_utf8 c + len s
len-cons c s = len.cons c s

len-take_bytes : (n : ℕ) (s : String) → len (take_bytes n s) ≤ n
unfolding take_bytes
len-take_bytes n [] = omega arith
len-take_bytes n (c ∷ s) =
    let rest = take_bytes (n - len_utf8 c) s in
    elim (Bool-cases (leb (len_utf8 c) n)) [
      | inl fits ↦
          rw (fits, take_bytes)
            (omega (
              arith,
              len-cons c rest,
              len-take_bytes (n - len_utf8 c) s,
              leb→le (len_utf8 c) n fits,
            ))
      | inr long ↦ rw (long, take_bytes) (omega arith)
    ]

len-trim_right : (cut : Char → Bool) (s : String) → len (trim_right cut s) ≤ len s
unfolding trim_right
len-trim_right cut [] = omega arith
len-trim_right cut (c ∷ s) = elim (Bool-cases (is_empty (trim_right cut s) && cut c)) [
  | inl gone ↦ rw (gone, trim_right) (omega arith)
  | inr kept ↦
      rw (kept, trim_right)
        (omega (arith, len-cons c s, len-cons c (trim_right cut s), len-trim_right cut s))
]

pub len-cut_name : (name digest : String) → len (cut_name name digest) ≤ 63
unfolding cut_name
len-cut_name name digest =
    let front = trim_right is_dash_or_dot (take_bytes 54 name) in
    let back = take_bytes 8 digest in
    omega (
      arith,
      len-append front ("-" <> back),
      len-append "-" back,
      len-take_bytes 8 digest,
      len-take_bytes 54 name,
      len-trim_right is_dash_or_dot (take_bytes 54 name),
    )
