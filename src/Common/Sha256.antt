-- ===== src/Common/Sha256.antt =====
-- `sha256.Sum256` and `hex.EncodeToString` of the Go library, over the UTF-8 bytes of a text.
use Prim.Native.Nat.{ℕ, zero, suc, ◌+◌, ◌-◌, ◌*◌, ◌/◌, ◌%◌, ◌^◌, bit_and, bit_xor}
use Prim.Native.Char.{code}
use Prim.Native.String
use Prim.Native.String.{String, [], ◌∷◌}
use mathlib.Core.Path.{◌≡◌, refl}
use mathlib.Core.List.{List, [], ◌∷◌, ◌++◌}
use provider_cloudnative_pg.Common.Tests.{ltb, if◌then◌else◌}
use provider_cloudnative_pg.Common.Lists.{length}
use provider_cloudnative_pg.Common.Texts.{hex_digit}

-- The UTF-8 bytes of a character.
unfoldable pub encode_char : ℕ → List ℕ
encode_char n =
    if ltb n 0x80
    then n ∷ []
    else if ltb n 0x800
    then (0xc0 + n / 64) ∷ (0x80 + n % 64) ∷ []
    else if ltb n 0x10000
    then (0xe0 + n / 4096) ∷ (0x80 + n / 64 % 64) ∷ (0x80 + n % 64) ∷ []
    else (0xf0 + n / 262144) ∷ (0x80 + n / 4096 % 64) ∷ (0x80 + n / 64 % 64) ∷ (0x80 + n % 64) ∷ []

unfoldable pub bytes : String → List ℕ
bytes [] = []
bytes (c ∷ s) = encode_char (code c) ++ bytes s

abbrev word : ℕ
word = 2 ^ 32

add32 : ℕ → ℕ → ℕ
add32 a b = (a + b) % word

rotr : ℕ → ℕ → ℕ
rotr k x = x / 2 ^ k + x % 2 ^ k * 2 ^ (32 - k)

not32 : ℕ → ℕ
not32 x = bit_xor x 0xffffffff

small0 : ℕ → ℕ
unfolding rotr
small0 x = bit_xor (bit_xor (rotr 7 x) (rotr 18 x)) (x / 2 ^ 3)

small1 : ℕ → ℕ
unfolding rotr
small1 x = bit_xor (bit_xor (rotr 17 x) (rotr 19 x)) (x / 2 ^ 10)

big0 : ℕ → ℕ
unfolding rotr
big0 x = bit_xor (bit_xor (rotr 2 x) (rotr 13 x)) (rotr 22 x)

big1 : ℕ → ℕ
unfolding rotr
big1 x = bit_xor (bit_xor (rotr 6 x) (rotr 11 x)) (rotr 25 x)

choose : ℕ → ℕ → ℕ → ℕ
unfolding not32
choose e f g = bit_xor (bit_and e f) (bit_and (not32 e) g)

majority : ℕ → ℕ → ℕ → ℕ
majority a b c = bit_xor (bit_xor (bit_and a b) (bit_and a c)) (bit_and b c)

record Digest : Type 0 where
  a : ℕ
  b : ℕ
  c : ℕ
  d : ℕ
  e : ℕ
  f : ℕ
  g : ℕ
  h : ℕ

abbrev start : Digest
start = record {
  a = 0x6a09e667;
  b = 0xbb67ae85;
  c = 0x3c6ef372;
  d = 0xa54ff53a;
  e = 0x510e527f;
  f = 0x9b05688c;
  g = 0x1f83d9ab;
  h = 0x5be0cd19;
}

abbrev constants : List ℕ
constants =
    0x428a2f98 ∷ 0x71374491 ∷ 0xb5c0fbcf ∷ 0xe9b5dba5 ∷ 0x3956c25b ∷ 0x59f111f1 ∷ 0x923f82a4
    ∷ 0xab1c5ed5 ∷ 0xd807aa98 ∷ 0x12835b01 ∷ 0x243185be ∷ 0x550c7dc3 ∷ 0x72be5d74 ∷ 0x80deb1fe
    ∷ 0x9bdc06a7 ∷ 0xc19bf174 ∷ 0xe49b69c1 ∷ 0xefbe4786 ∷ 0x0fc19dc6 ∷ 0x240ca1cc ∷ 0x2de92c6f
    ∷ 0x4a7484aa ∷ 0x5cb0a9dc ∷ 0x76f988da ∷ 0x983e5152 ∷ 0xa831c66d ∷ 0xb00327c8 ∷ 0xbf597fc7
    ∷ 0xc6e00bf3 ∷ 0xd5a79147 ∷ 0x06ca6351 ∷ 0x14292967 ∷ 0x27b70a85 ∷ 0x2e1b2138 ∷ 0x4d2c6dfc
    ∷ 0x53380d13 ∷ 0x650a7354 ∷ 0x766a0abb ∷ 0x81c2c92e ∷ 0x92722c85 ∷ 0xa2bfe8a1 ∷ 0xa81a664b
    ∷ 0xc24b8b70 ∷ 0xc76c51a3 ∷ 0xd192e819 ∷ 0xd6990624 ∷ 0xf40e3585 ∷ 0x106aa070 ∷ 0x19a4c116
    ∷ 0x1e376c08 ∷ 0x2748774c ∷ 0x34b0bcb5 ∷ 0x391c0cb3 ∷ 0x4ed8aa4a ∷ 0x5b9cca4f ∷ 0x682e6ff3
    ∷ 0x748f82ee ∷ 0x78a5636f ∷ 0x84c87814 ∷ 0x8cc70208 ∷ 0x90befffa ∷ 0xa4506ceb ∷ 0xbef9a3f7
    ∷ 0xc67178f2 ∷ []

-- One round with its constant and its word of the message schedule.
round : ℕ → ℕ → Digest → Digest
unfolding add32 big0 big1 choose majority
round k w s =
    let t1 = add32 (add32 (add32 (add32 s.h (big1 s.e)) (choose s.e s.f s.g)) k) w in
    let t2 = add32 (big0 s.a) (majority s.a s.b s.c) in
    record {
      a = add32 t1 t2;
      b = s.a;
      c = s.b;
      d = s.c;
      e = add32 s.d t1;
      f = s.e;
      g = s.f;
      h = s.g;
    }

-- The rounds over the constants left, with the next sixteen words of the schedule.
rounds : List ℕ → List ℕ → Digest → Digest
unfolding round add32 small0 small1
rounds (k ∷ ks)
      (w0 ∷ w1 ∷ w2 ∷ w3 ∷ w4 ∷ w5 ∷ w6 ∷ w7 ∷ w8 ∷ w9 ∷ w10 ∷ w11 ∷ w12 ∷ w13 ∷ w14 ∷ w15 ∷ []) s =
    rounds ks
      (w1
        ∷ w2
        ∷ w3
        ∷ w4
        ∷ w5
        ∷ w6
        ∷ w7
        ∷ w8
        ∷ w9
        ∷ w10
        ∷ w11
        ∷ w12
        ∷ w13
        ∷ w14
        ∷ w15
        ∷ (add32 (add32 (add32 (small1 w14) w9) (small0 w1)) w0)
        ∷ [])
      (round k w0 s)
rounds _ _ s = s

block : List ℕ → Digest → Digest
unfolding rounds add32
block ws s =
    let t = rounds constants ws s in
    record {
      a = add32 s.a t.a;
      b = add32 s.b t.b;
      c = add32 s.c t.c;
      d = add32 s.d t.d;
      e = add32 s.e t.e;
      f = add32 s.f t.f;
      g = add32 s.g t.g;
      h = add32 s.h t.h;
    }

zeros : ℕ → List ℕ
zeros zero = []
zeros (suc n) = 0 ∷ zeros n

-- The 64 bits of a length, as bytes from the highest.
length_bytes : ℕ → ℕ → List ℕ
length_bytes zero n = []
length_bytes (suc k) n = (n / 256 ^ k % 256) ∷ length_bytes k n

pad : List ℕ → List ℕ
unfolding zeros length_bytes
pad message =
    let n = length message in
    message ++ (0x80 ∷ (zeros ((119 - n % 64) % 64) ++ length_bytes 8 (n * 8)))

words : List ℕ → List ℕ
words (p ∷ q ∷ r ∷ s ∷ rest) = (p * 2 ^ 24 + q * 2 ^ 16 + r * 2 ^ 8 + s) ∷ words rest
words _ = []

-- The blocks of sixteen words, one after the other.
blocks : List ℕ → Digest → Digest
unfolding block
blocks (w0 ∷ w1 ∷ w2 ∷ w3 ∷ w4 ∷ w5 ∷ w6 ∷ w7 ∷ w8 ∷ w9 ∷ w10 ∷ w11 ∷ w12 ∷ w13 ∷ w14 ∷ w15 ∷ rest)
      s =
    blocks rest (
      block
        (w0 ∷ w1 ∷ w2 ∷ w3 ∷ w4 ∷ w5 ∷ w6 ∷ w7 ∷ w8 ∷ w9 ∷ w10 ∷ w11 ∷ w12 ∷ w13 ∷ w14 ∷ w15 ∷ [])
        s)
blocks _ s = s

hex_word : ℕ → ℕ → String
unfolding hex_digit
hex_word zero x = ""
hex_word (suc k) x = String.◌++◌ (hex_digit (x / 16 ^ k % 16)) (hex_word k x)

-- The digest of a text in hexadecimal.
unfoldable pub sha256_hex : String → String
unfolding encode_char bytes pad words blocks hex_word
sha256_hex s =
    let r = blocks (words (pad (bytes s))) start in
    String.◌++◌ (hex_word 8 r.a) (
      String.◌++◌ (hex_word 8 r.b) (
        String.◌++◌ (hex_word 8 r.c) (
          String.◌++◌ (hex_word 8 r.d) (
            String.◌++◌ (hex_word 8 r.e)
              (String.◌++◌ (hex_word 8 r.f) (String.◌++◌ (hex_word 8 r.g) (hex_word 8 r.h)))))))

digest_abc : sha256_hex "abc" ≡ "ba7816bf8f01cfea414140de5dae2223b00361a396177a9cb410ff61f20015ad"
unfolding sha256_hex
digest_abc = refl
