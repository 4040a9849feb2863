-- ===== src/Tokens/Written.antt =====
-- An implementation of the interface `Jwt`, for the examples: a token is the secret, the algorithm
-- and the claims, written out.
use Prim.Native.Char.{code}
use fastapi_project_structur.Common.{
  ℕ, zero, suc, ◌+◌, ◌≤◌, ◌<◌, String, ◌≡◌, refl, sym, ap, ◌∙◌, Bool, true, false, ◌&&◌, Option,
  none, some, eqb, ltb, leb, ◌==◌, eq_refl, eq_iff, arith, if◌then◌else◌,
}
use mathlib.Core.Path.{subst}
use fastapi_project_structur.Json.{Json, null, text, flag, number}
use fastapi_project_structur.Tokens.{Claims, Jwt}

abbrev Reader : Type 0 → Type 0
Reader A = Option (A × String)

abbrev bind : {A B : Type 0} → Reader A → (A × String → Reader B) → Reader B
bind none f = none
bind (some a) f = f a

put_nat : ℕ → String → String
put_nat zero s = String.◌∷◌ "z" s
put_nat (suc n) s = String.◌∷◌ "s" (put_nat n s)

get_nat : String → Reader ℕ
get_nat String.[] = none
get_nat (String.◌∷◌ c s) =
    let rest = get_nat s in
    if eqb (code c) b's' then bind rest (λ (n, t). some (suc n, t)) else some (0, s)

put_text : String → String → String
put_text String.[] s = String.◌∷◌ "e" (String.◌∷◌ "e" s)
put_text (String.◌∷◌ c t) s = String.◌∷◌ "c" (String.◌∷◌ c (put_text t s))

get_text : String → Reader String
get_text String.[] = none
get_text (String.◌∷◌ c String.[]) = none
get_text (String.◌∷◌ c (String.◌∷◌ d s)) =
    let rest = get_text s in
    if eqb (code c) b'e'
    then some (String.[], s)
    else bind rest (λ (t, u). some (String.◌∷◌ d t, u))

get_nat-put_nat : (n : ℕ) (s : String) → get_nat (put_nat n s) ≡ some (n, s)
unfolding get_nat put_nat
get_nat-put_nat zero s = refl
get_nat-put_nat (suc n) s = rw (get_nat-put_nat n s) refl

get_text-put_text : (t s : String) → get_text (put_text t s) ≡ some (t, s)
unfolding get_text put_text
get_text-put_text String.[] s = refl
get_text-put_text (String.◌∷◌ c t) s = rw (get_text-put_text t s) refl

put_json : Option Json → String → String
put_json none s = put_nat 0 s
put_json (some null) s = put_nat 1 s
put_json (some (text t)) s = put_nat 2 (put_text t s)
put_json (some (flag b)) s = put_nat 3 (put_nat (if b then 1 else 0) s)
put_json (some (number n)) s = put_nat 4 (put_nat n s)

get_tagged : ℕ × String → Reader (Option Json)
get_tagged (zero, s) = some (none, s)
get_tagged (suc zero, s) = some (some null, s)
get_tagged (suc (suc zero), s) = bind (get_text s) (λ (t, u). some (some (text t), u))
get_tagged (suc (suc (suc zero)), s) = bind (get_nat s) (λ (n, u). some (some (flag (eqb n 1)), u))
get_tagged (suc (suc (suc (suc k))), s) = bind (get_nat s) (λ (n, u). some (some (number n), u))

get_json : String → Reader (Option Json)
get_json s = bind (get_nat s) get_tagged

get_json-put_json : (o : Option Json) (s : String) → get_json (put_json o s) ≡ some (o, s)
unfolding get_json put_json get_tagged
get_json-put_json none s = simp (get_nat-put_nat) refl
get_json-put_json (some null) s = simp (get_nat-put_nat) refl
get_json-put_json (some (text t)) s = simp (get_nat-put_nat, get_text-put_text) refl
get_json-put_json (some (flag true)) s = simp (get_nat-put_nat) refl
get_json-put_json (some (flag false)) s = simp (get_nat-put_nat) refl
get_json-put_json (some (number n)) s = simp (get_nat-put_nat) refl

put_claims : Claims → String → String
put_claims c s = put_text c.sub (
    put_json (some c.kind) (
      put_nat c.iat (
        put_nat c.nbf (
          put_nat c.exp (
            put_text c.jti (
              put_text c.iss
                (put_text c.aud (put_json c.username (put_json c.su (put_json c.fam s))))))))))

abbrev or_null : Option Json → Json
or_null none = null
or_null (some v) = v

get_claims : String → Reader Claims
get_claims s0 = bind (get_text s0) λ (sub', s1). bind (get_json s1) λ (kind', s2).
    bind (get_nat s2) λ (iat', s3). bind (get_nat s3) λ (nbf', s4). bind (get_nat s4) λ (exp', s5).
      bind (get_text s5) λ (jti', s6). bind (get_text s6) λ (iss', s7).
        bind (get_text s7) λ (aud', s8). bind (get_json s8) λ (username', s9).
          bind (get_json s9) λ (su', s10). bind (get_json s10) λ (fam', s11). some (
            record {
              sub = sub';
              kind = or_null kind';
              iat = iat';
              nbf = nbf';
              exp = exp';
              jti = jti';
              iss = iss';
              aud = aud';
              username = username';
              su = su';
              fam = fam';
            },
            s11,
          )

get_claims-put_claims : (c : Claims) (s : String) → get_claims (put_claims c s) ≡ some (c, s)
unfolding get_claims put_claims
get_claims-put_claims c s = simp (get_nat-put_nat, get_text-put_text, get_json-put_json) refl

encode : Claims → String → String → String
encode c secret algorithm = put_text secret (put_text algorithm (put_claims c String.[]))

-- What a token was made of.
record Parts : Type 0 where
  secret : String
  algorithm : String
  claims : Claims

parts : String → Reader Parts
parts token = bind (get_text token) λ (s, s1). bind (get_text s1) λ (a, s2).
    bind (get_claims s2) λ (c, s3). some (record { secret = s; algorithm = a; claims = c }, s3)

parts-encode :
    (c : Claims) (s a : String)
    → parts (encode c s a) ≡ some (record { secret = s; algorithm = a; claims = c }, String.[])
unfolding parts encode
parts-encode c s a = simp (get_text-put_text, get_claims-put_claims) refl

-- The claims of a token under this secret and this algorithm.
pick : String → String → Reader Parts → Option Claims
pick secret algorithm none = none
pick secret algorithm (some (p, rest)) =
    if p.secret == secret && p.algorithm == algorithm then some p.claims else none

read : String → String → String → Option Claims
read token secret algorithm = pick secret algorithm (parts token)

valid : String → String → ℕ → ℕ → Claims → Bool
valid audience issuer leeway now c =
    (c.aud == audience && c.iss == issuer)
    && (ltb now (c.exp + leeway) && (leb c.nbf (now + leeway) && leb c.iat (now + leeway)))

if_valid : String → String → ℕ → ℕ → Option Claims → Option Claims
if_valid audience issuer leeway now none = none
if_valid audience issuer leeway now (some c) =
    if valid audience issuer leeway now c then some c else none

decode : String → String → String → String → String → ℕ → ℕ → Option Claims
decode token secret algorithm audience issuer leeway now =
    if_valid audience issuer leeway now (read token secret algorithm)

read-encode :
    (c : Claims) (s a t b : String)
    → read (encode c s a) t b ≡ (if s == t && a == b then some c else none)
unfolding read pick
read-encode c s a t b = ap (pick t b) (parts-encode c s a)

decode-encode :
    (c : Claims) (secret algorithm : String) (leeway now : ℕ)
    → c.iat ≤ now + leeway
    → c.nbf ≤ now + leeway
    → now < c.exp + leeway
    → decode (encode c secret algorithm) secret algorithm c.aud c.iss leeway now ≡ some c
unfolding decode if_valid valid
decode-encode c secret algorithm leeway now h k l =
    rw (read-encode c secret algorithm secret algorithm)
      (ground (arith, h, k, l, eq_refl secret, eq_refl algorithm, eq_refl c.aud, eq_refl c.iss))

same_of :
    (s t a b audience issuer : String) (leeway now : ℕ) (c c' : Claims)
    → if_valid audience issuer leeway now (if s == t && a == b then some c else none) ≡ some c'
    → c ≡ c'
unfolding if_valid
same_of s t a b audience issuer leeway now c c' h = ground (arith, h)

decode_payload :
    (c c' : Claims) (secret algorithm secret' algorithm' audience issuer : String) (leeway now : ℕ)
    → decode (encode c secret algorithm) secret' algorithm' audience issuer leeway now ≡ some c'
    → c ≡ c'
unfolding decode if_valid
decode_payload c c' secret algorithm secret' algorithm' audience issuer leeway now h =
    let opened =
      ap (if_valid audience issuer leeway now)
        (read-encode c secret algorithm secret' algorithm') in
    same_of secret secret' algorithm algorithm' audience issuer leeway now c c' (sym opened ∙ h)

taken_if : (b : Bool) (d c : Claims) → (if b then some d else none) ≡ some c → (b ≡ true) × (d ≡ c)
taken_if true d c h = (refl, cc)
taken_if false d c h = absurd (cc h)

taken : (p : Claims → Bool) (d c : Claims) → (if p d then some d else none) ≡ some c → p c ≡ true
taken p d c h = let (e, same) = taken_if (p d) d c h in subst (λ x. p x ≡ true) same e

if_valid-some :
    (audience issuer : String) (leeway now : ℕ) (o : Option Claims) (c : Claims)
    → if_valid audience issuer leeway now o ≡ some c
    → valid audience issuer leeway now c ≡ true
unfolding if_valid
if_valid-some audience issuer leeway now none c h = ground (arith, h)
if_valid-some audience issuer leeway now (some d) c h =
    taken (valid audience issuer leeway now) d c h

decode_valid :
    (token secret algorithm audience issuer : String) (leeway now : ℕ) (c : Claims)
    → decode token secret algorithm audience issuer leeway now ≡ some c
    → (now < c.exp + leeway) × (c.nbf ≤ now + leeway) × (c.aud ≡ audience) × (c.iss ≡ issuer)
unfolding decode valid
decode_valid token secret algorithm audience issuer leeway now c h =
    let v = if_valid-some audience issuer leeway now (read token secret algorithm) c h in
    ground (arith, v, eq_iff c.aud audience, eq_iff c.iss issuer)

pub written : Jwt
written = record {
  encode = encode;
  decode = decode;
  decode-encode = decode-encode;
  decode_payload = decode_payload;
  decode_valid = decode_valid;
}
