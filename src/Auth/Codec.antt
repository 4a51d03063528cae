-- ===== src/Auth/Codec.antt =====
-- Functions that keep the promises of `IsCrypto`, for the runs of Auth/Examples: a claim is written
-- as a sequence of marked characters, and a dot is replaced by a pair without one.
use Prim.Native.Char.{Char, char, code}
use text.Mathlib.TextEquality.{Char-path}
use open_data_analysis.Common.{
  ℕ, zero, suc, String, false, Option, some, eqb, ◌≡◌, refl, ap, ◌∙◌, arith, Bool-cases, inl, inr,
  if◌then◌else◌,
}
use open_data_analysis.Common.Int.{ℤ, pos, negsuc}
use open_data_analysis.Auth.Token.{Claims, Crypto, has_dot}
use open_data_analysis.Auth.Token.Laws.{IsCrypto}

abbrev x : Char
x = char 120 tt

abbrev y : Char
y = char 121 tt

abbrev dot : Char
dot = char 46 tt

-- Each character is marked, and the end has a mark of its own.
unfoldable pub write : String → String → String
write String.[] t = String.◌∷◌ y t
write (String.◌∷◌ c s) t = String.◌∷◌ x (String.◌∷◌ c (write s t))

unfoldable pub read : String → String × String
read String.[] = ("", "")
read (String.◌∷◌ a String.[]) = ("", "")
read (String.◌∷◌ a (String.◌∷◌ c s)) =
    let (first, rest) = read s in
    if eqb (code a) 121 then ("", String.◌∷◌ c s) else (String.◌∷◌ c first, rest)

read-write : (s t : String) → read (write s t) ≡ (s, t)
unfolding write read
read-write String.[] String.[] = refl
read-write String.[] (String.◌∷◌ c t) = refl
read-write (String.◌∷◌ c s) t = rw (read-write s t) refl

unfoldable pub units : ℕ → String
units zero = ""
units (suc n) = let rest = units n in String.◌∷◌ x rest

unfoldable pub count : String → ℕ
count String.[] = 0
count (String.◌∷◌ c s) = suc (count s)

count-units : (n : ℕ) → count (units n) ≡ n
unfolding units count
count-units zero = refl
count-units (suc n) = ap suc (count-units n)

unfoldable pub int_text : ℤ → String
int_text (pos n) = String.◌∷◌ x (units n)
int_text (negsuc n) = String.◌∷◌ y (units n)

unfoldable pub int_of : String → ℤ
int_of String.[] = pos 0
int_of (String.◌∷◌ c s) = if eqb (code c) 121 then negsuc (count s) else pos (count s)

int_of-int_text : (z : ℤ) → int_of (int_text z) ≡ z
unfolding int_of int_text
int_of-int_text (pos n) = ap pos (count-units n)
int_of-int_text (negsuc n) = ap negsuc (count-units n)

unfoldable pub marshal : Claims → String
marshal c = write c.jwt_id (
    write c.issuer (
      write c.subject (
        write c.user_id (
          write c.user_name (
            write c.user_email (
              write c.workspace_id (
                write c.workspace
                  (write (int_text c.issued_at) (write (int_text c.expires_at) "")))))))))

unfoldable pub unmarshal : String → Option Claims
unmarshal s0 =
    let (jwt_id, s1) = read s0 in
    let (issuer, s2) = read s1 in
    let (subject, s3) = read s2 in
    let (user_id, s4) = read s3 in
    let (user_name, s5) = read s4 in
    let (user_email, s6) = read s5 in
    let (workspace_id, s7) = read s6 in
    let (workspace, s8) = read s7 in
    let (issued_at, s9) = read s8 in
    let (expires_at, s10) = read s9 in
    some record {
      jwt_id = jwt_id;
      issuer = issuer;
      subject = subject;
      user_id = user_id;
      user_name = user_name;
      user_email = user_email;
      workspace_id = workspace_id;
      workspace = workspace;
      issued_at = int_of issued_at;
      expires_at = int_of expires_at;
    }

unmarshal-marshal : (c : Claims) → unmarshal (marshal c) ≡ some c
unfolding unmarshal marshal
unmarshal-marshal c = simp (read-write, int_of-int_text)

unfoldable pub encode : String → String
encode String.[] = ""
encode (String.◌∷◌ c s) =
    let rest = encode s in
    if eqb (code c) 46 then String.◌∷◌ y (String.◌∷◌ y rest) else String.◌∷◌ x (String.◌∷◌ c rest)

unfoldable pub decoded : String → String
decoded String.[] = ""
decoded (String.◌∷◌ a String.[]) = ""
decoded (String.◌∷◌ a (String.◌∷◌ c s)) =
    let rest = decoded s in if eqb (code a) 121 then String.◌∷◌ dot rest else String.◌∷◌ c rest

decoded-encode : (s : String) → decoded (encode s) ≡ s
unfolding decoded encode
decoded-encode String.[] = refl
decoded-encode (String.◌∷◌ c s) = elim (Bool-cases (eqb (code c) 46)) [
  | inl e ↦ rw e (
      ap (λ t. String.◌∷◌ dot t) (decoded-encode s)
      ∙ ap (λ a. String.◌∷◌ a s) (Char-path dot c (ground arith)))
  | inr e ↦ rw e (ap (λ t. String.◌∷◌ c t) (decoded-encode s))
]

has_dot-encode : (s : String) → has_dot (encode s) ≡ false
unfolding has_dot encode
has_dot-encode String.[] = refl
has_dot-encode (String.◌∷◌ c s) = elim (Bool-cases (eqb (code c) 46)) [
  | inl e ↦ rw e (has_dot-encode s)
  | inr e ↦ rw (e, e) (has_dot-encode s)
]

-- The MAC of a text is its encoded key.
abbrev pub codec : Crypto
codec = record {
  mac = λ key s. encode key;
  encode = encode;
  decode = λ s. some (decoded s);
  marshal = marshal;
  unmarshal = unmarshal;
}

pub codec-IsCrypto : IsCrypto codec
codec-IsCrypto = (
  λ s. ap some (decoded-encode s),
  unmarshal-marshal,
  has_dot-encode,
  λ key s. has_dot-encode key,
)

-- Opens all that the runs compute with.
unfoldable pub codec_run : Unit {0}
unfolding write read units count int_text int_of marshal unmarshal encode decoded
codec_run = tt
