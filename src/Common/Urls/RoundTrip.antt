-- ===== src/Common/Urls/RoundTrip.antt =====
-- A client that cuts a URL at its delimiters and decodes the parts reads what `URL.String` of net/url has
-- written.
use Prim.Native.Nat.{ℕ}
use Prim.Native.Char.{Char, code}
use Prim.Native.String
use Prim.Native.String.{String, [], ◌∷◌}
use mathlib.Core.Path.{◌≡◌, refl, sym, ap, ◌∙◌}
use mathlib.Core.Bool.{false, ◌||◌}
use mathlib.Core.Logic.{inl, inr}
use mathlib.Core.Option.{Option, none, some}
use mathlib.Core.List.{List}
use text.Mathlib.Text.{◌==◌}
use text.Mathlib.TextLemmas.{nil-append, cons-append, append_assoc}
use provider_cloudnative_pg.Common.Tests.{Bool-cases, eqb, ltb, if◌then◌else◌, is_empty}
use provider_cloudnative_pg.Common.Sha256.{bytes, encode_char}
use provider_cloudnative_pg.Common.Urls.{
  one_of, is_alphanumeric, percent, escape_with, escape_char, escape_user, escape_host, escape_path,
  escape_query, path_text, url_text, user_kept, host_kept, path_kept,
}
use provider_cloudnative_pg.Common.Urls.Read.{
  one-append, unescape, unescape-escape_user, unescape-escape_host, unescape-escape_path,
}
use provider_cloudnative_pg.Common.Urls.Delimiters.{
  cut, cut-append, Free, one_of-append, escape_with-Free,
}

-- What a client has read: the bytes of each part, and the text of the parameters.
pub record Parts : Type 0 where
  pub scheme : String
  pub user : List ℕ
  pub password : List ℕ
  pub authority : List ℕ
  pub path : List ℕ
  pub parameters : String

-- The text after the two slashes.
abbrev after_slashes : String → Option String
after_slashes (a ∷ b ∷ s) =
    if eqb (code a) b'/' then (if eqb (code b) b'/' then some s else none) else none
after_slashes _ = none

infixl 5 ◌>>=◌
abbrev ◌>>=◌ : {A B : Type 0} → Option A → (A → Option B) → Option B
none >>= f = none
some a >>= f = f a

-- A client that cuts a URL at its delimiters, as RFC 3986 has it, and decodes the parts.
unfoldable pub read_url : String → Option Parts
read_url s = do
  start ← cut b':' s
  rest ← after_slashes start.1
  split ← cut b'@' rest
  secret ← cut b':' split.0
  target ← cut b'/' split.1
  query ← cut b'?' target.1
  some (record {
    scheme = start.0;
    user = unescape secret.0;
    password = unescape secret.1;
    authority = unescape target.0;
    path = unescape query.0;
    parameters = query.1;
  })

user_delimiter :
    (d : ℕ)
    → is_alphanumeric d ≡ false
    → eqb b'%' d ≡ false
    → one_of user_kept d ≡ false
    → (s : String) → Free d (escape_user s)
unfolding escape_user
user_delimiter d a b k s =
    escape_with-Free user_kept s d (record { not_alphanumeric = a; not_sign = b; not_kept = k })

host-slash : (s : String) → Free b'/' (escape_host s)
unfolding escape_host is_alphanumeric one_of
host-slash s =
    escape_with-Free host_kept s b'/'
      (record { not_alphanumeric = refl; not_sign = refl; not_kept = refl })

path-question : (s : String) → Free b'?' (escape_path s)
unfolding escape_path is_alphanumeric one_of
path-question s = elim (Bool-cases (s == "*")) [
  | inl star ↦ rw (star, escape_path) refl
  | inr other ↦
      rw (other, escape_path)
        (escape_with-Free path_kept s b'?'
          (record { not_alphanumeric = refl; not_sign = refl; not_kept = refl }))
]

-- The six cuts, one after the other.
read_parts :
    (scheme user password host path query : String)
    → Free b':' scheme
    → Free b':' user
    → Free b'@' user
    → Free b'@' password
    → Free b'/' host
    → Free b'?' path
    → read_url (
        String.◌++◌ scheme (
          ":"
          ∷ ("/"
              ∷ ("/"
                  ∷ String.◌++◌
                      (String.◌++◌ user (":" ∷ password))
                      ("@" ∷ String.◌++◌ host ("/" ∷ String.◌++◌ path ("?" ∷ query)))))))
      ≡ some (record {
        scheme = scheme;
        user = unescape user;
        password = unescape password;
        authority = unescape host;
        path = unescape path;
        parameters = query;
      })
unfolding read_url
read_parts scheme user password host path query fs fu fu' fp fh fq =
    rw
      (
        cut-append b':' scheme ":" _ fs refl,
        cut-append b'@' (String.◌++◌ user (":" ∷ password)) "@" _
            (one_of-append user _ b'@' fu' (colon fp)) refl,
        cut-append b':' user ":" password fu refl,
        cut-append b'/' host "/" _ fh refl,
        cut-append b'?' path "?" query fq refl,
      )
      refl
  where
    colon : Free b'@' password → Free b'@' (":" ∷ password)
    colon h = unfold one_of in h

-- A text that does not begin with a slash, and is not empty.
abbrev pub IsRelative : String → Type 0
IsRelative [] = ⊥
IsRelative (c ∷ s) = eqb (code c) b'/' ≡ false

cons-IsRelative :
    (b : ℕ) (bs : List ℕ) (rest : String) → IsRelative (String.◌++◌ (percent (List.◌∷◌ b bs)) rest)
unfolding percent
cons-IsRelative b bs rest = rw (append_assoc "%" _ rest, cons-append "%" [] _) refl

percent-IsRelative :
    (n : ℕ) (rest : String) → IsRelative (String.◌++◌ (percent (encode_char n)) rest)
unfolding encode_char
percent-IsRelative n rest = elim (Bool-cases (ltb n 0x80)) [
  | inl one ↦ rw (one, encode_char) (cons-IsRelative _ _ rest)
  | inr more ↦ elim (Bool-cases (ltb n 0x800)) [
    | inl two ↦ rw (more, two, encode_char) (cons-IsRelative _ _ rest)
    | inr more' ↦ elim (Bool-cases (ltb n 0x10000)) [
      | inl three ↦ rw (more, more', three, encode_char) (cons-IsRelative _ _ rest)
      | inr four ↦ rw (more, more', four, encode_char) (cons-IsRelative _ _ rest)
    ]
  ]
]

escape_char-IsRelative :
    (kept : String) (c : Char) (rest : String)
    → eqb (code c) b'/' ≡ false
    → IsRelative (String.◌++◌ (escape_char kept c) rest)
unfolding escape_char
escape_char-IsRelative kept c rest h =
    elim (Bool-cases (is_alphanumeric (code c) || one_of kept (code c))) [
      | inl keep ↦ rw (keep, escape_char) (rw (cons-append c [] rest) h)
      | inr other ↦ rw (other, escape_char) (percent-IsRelative (code c) rest)
    ]

path_text-IsRelative :
    (host path : String)
    → is_empty host ≡ false
    → IsRelative path
    → path_text host path ≡ "/" ∷ path
unfolding path_text
path_text-IsRelative host [] named h = absurd h
path_text-IsRelative host (c ∷ s) named h =
    rw (h, named, path_text) (cons-append "/" [] (c ∷ s) ∙ ap (λ r. "/" ∷ r) (nil-append (c ∷ s)))

escape_path-IsRelative : (path : String) → IsRelative path → IsRelative (escape_path path)
unfolding escape_path escape_with
escape_path-IsRelative [] h = absurd h
escape_path-IsRelative (c ∷ s) h = elim (Bool-cases ((c ∷ s) == "*")) [
  | inl star ↦ rw (star, escape_path) refl
  | inr other ↦
      rw (other, escape_path) (escape_char-IsRelative path_kept c (escape_with path_kept s) h)
]

slashes : (s : String) → String.◌++◌ "://" s ≡ ":" ∷ ("/" ∷ ("/" ∷ s))
slashes s =
    cons-append ":" "//" s
    ∙ ap (λ r. ":" ∷ r) (cons-append "/" "/" s ∙ ap (λ r. "/" ∷ r) (one-append "/" s))

-- The text of a URL with its delimiters in sight.
written :
    (scheme user password authority host path query : String)
    → is_empty host ≡ false
    → IsRelative path
    → String.◌++◌ scheme (
        String.◌++◌ "://" (
          String.◌++◌ user (
            String.◌++◌ ":" (
              String.◌++◌ password (
                String.◌++◌ "@" (
                  String.◌++◌ authority
                    (String.◌++◌ (path_text host path) (String.◌++◌ "?" query))))))))
      ≡ String.◌++◌ scheme (
          ":"
          ∷ ("/"
              ∷ ("/"
                  ∷ String.◌++◌
                      (String.◌++◌ user (":" ∷ password))
                      ("@" ∷ String.◌++◌ authority ("/" ∷ String.◌++◌ path ("?" ∷ query))))))
written scheme user password authority host path query named relative =
    let target = "@" ∷ String.◌++◌ authority ("/" ∷ String.◌++◌ path ("?" ∷ query)) in
    rw
      (
        path_text-IsRelative host path named relative,
        slashes,
        one-append ":",
        one-append "@",
        one-append "?",
        cons-append "/" path,
      )
      (ap (λ r. String.◌++◌ scheme (":" ∷ ("/" ∷ ("/" ∷ r))))
        (ap (String.◌++◌ user) (sym (cons-append ":" password target))
          ∙ sym (append_assoc user (":" ∷ password) target)))

-- `read_url` gives back the user, the password, the host and the path of every URL that `URL.String` writes
-- with a host and a path that does not begin with a slash.
pub read_url-url_text :
    (scheme user password host path key parameter : String)
    → Free b':' scheme
    → is_empty host ≡ false
    → IsRelative path
    → read_url (url_text scheme user password host path key parameter)
      ≡ some (record {
        scheme = scheme;
        user = bytes user;
        password = bytes password;
        authority = bytes host;
        path = bytes path;
        parameters = String.◌++◌ (escape_query key) (String.◌++◌ "=" (escape_query parameter));
      })
unfolding url_text
read_url-url_text scheme user password host path key parameter free named relative =
    let u = escape_user user in
    let p = escape_user password in
    let h = escape_host host in
    let d = escape_path path in
    let query = String.◌++◌ (escape_query key) (String.◌++◌ "=" (escape_query parameter)) in
    ap read_url (written scheme u p h host d query named (escape_path-IsRelative path relative))
    ∙ read_parts scheme u p h d query free (user_delimiter b':' refl refl refl user)
        (user_delimiter b'@' refl refl refl user) (user_delimiter b'@' refl refl refl password)
        (host-slash host) (path-question path)
    ∙ rw
        (
          unescape-escape_user user,
          unescape-escape_user password,
          unescape-escape_host host,
          unescape-escape_path path,
        )
        refl
