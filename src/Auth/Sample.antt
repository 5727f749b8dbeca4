-- ===== src/Auth/Sample.antt =====
-- A token format, a hash and decimal digits that keep the laws, for runs of the model.
use aithena.Base.{
  ℕ, zero, suc, ◌+◌, ◌-◌, ◌≡◌, refl, ap, Bool, true, false, ◌&&◌, Option, none, some, [], ◌∷◌, ◌++◌,
  map, length, arith, ◌==◌, leb, ltb, if◌then◌else◌,
}
use aithena.Base.Text.{Text, is_space, text_eq, text_eq→eq, text_eq_refl}
use aithena.Auth.{Claims, Decoded, payload, expired_signature, invalid, Jwt}
use aithena.Auth.Users.{Hasher}
use aithena.Auth.Laws.{NoSpace, JwtLaws, HasherLaws, DecimalLaws}

-- Numbers are shifted past every whitespace character.
abbrev shift : ℕ → ℕ
shift n = 12289 + n

abbrev unshift : ℕ → ℕ
unshift c = c - 12289

abbrev put_flag : Bool → ℕ
put_flag true = shift 1
put_flag false = shift 0

abbrev put_id : Option ℕ → ℕ
put_id none = shift 0
put_id (some n) = shift (suc n)

abbrev get_id : ℕ → Option ℕ
get_id zero = none
get_id (suc n) = some n

abbrev put_text : Option Text → Text → Text
put_text none rest = shift 0 ∷ rest
put_text (some text) rest = shift (suc (length text)) ∷ (map shift text ++ rest)

unfoldable read_text : ℕ → Text → Text × Text
read_text zero rest = ([], rest)
read_text (suc n) [] = ([], [])
read_text (suc n) (c ∷ rest) = let (text, left) = read_text n rest in (unshift c ∷ text, left)

abbrev get_tagged : ℕ → Text → Option Text × Text
get_tagged zero rest = (none, rest)
get_tagged (suc n) rest = let (text, left) = read_text n rest in (some text, left)

unfoldable get_text : Text → Option Text × Text
unfolding read_text
get_text [] = (none, [])
get_text (c ∷ rest) = get_tagged (unshift c) rest

unfoldable pub encode : Text → Claims → Text
encode secret claims =
    put_flag claims.rmb
    ∷ shift claims.iat
    ∷ shift claims.exp
    ∷ put_id claims.user_id
    ∷ put_text claims.sub (put_text claims.role [])

abbrev claims_at : ℕ → ℕ → ℕ → ℕ → Option Text × Text → Claims
claims_at rmb iat exp id (sub, rest) = record {
  sub = sub;
  user_id = get_id (unshift id);
  role = (get_text rest).0;
  rmb = unshift rmb == 1;
  iat = unshift iat;
  exp = unshift exp;
}

unfoldable pub decode : Text → ℕ → Text → Decoded
unfolding get_text
decode secret now [] = invalid
decode secret now (rmb ∷ []) = invalid
decode secret now (rmb ∷ iat ∷ []) = invalid
decode secret now (rmb ∷ iat ∷ exp ∷ []) = invalid
decode secret now (rmb ∷ iat ∷ exp ∷ id ∷ rest) =
    if ltb now (unshift exp)
    then payload (claims_at rmb iat exp id (get_text rest))
    else expired_signature

abbrev pub sample_jwt : Jwt
sample_jwt = record { encode = encode; decode = decode }

shift-NoSpace : (n : ℕ) → is_space (shift n) ≡ false
unfolding is_space
shift-NoSpace n = ground arith

map-shift-NoSpace : (text rest : Text) → NoSpace rest → NoSpace (map shift text ++ rest)
map-shift-NoSpace [] rest h = h
map-shift-NoSpace (c ∷ text) rest h = (shift-NoSpace c, map-shift-NoSpace text rest h)

put_text-NoSpace : (text : Option Text) (rest : Text) → NoSpace rest → NoSpace (put_text text rest)
put_text-NoSpace none rest h = (shift-NoSpace 0, h)
put_text-NoSpace (some text) rest h =
    (shift-NoSpace (suc (length text)), map-shift-NoSpace text rest h)

put_flag-NoSpace : (b : Bool) → is_space (put_flag b) ≡ false
put_flag-NoSpace true = shift-NoSpace 1
put_flag-NoSpace false = shift-NoSpace 0

put_id-NoSpace : (id : Option ℕ) → is_space (put_id id) ≡ false
put_id-NoSpace none = shift-NoSpace 0
put_id-NoSpace (some n) = shift-NoSpace (suc n)

unshift-shift : (n : ℕ) → unshift (shift n) ≡ n
unshift-shift n = omega arith

read_text-map : (text rest : Text) → read_text (length text) (map shift text ++ rest) ≡ (text, rest)
unfolding read_text
read_text-map [] rest = refl
read_text-map (c ∷ text) rest = rw (read_text-map text rest, unshift-shift c) refl

get_text-put_text :
    (text : Option Text) (rest : Text) → get_text (put_text text rest) ≡ (text, rest)
unfolding get_text
get_text-put_text none rest = refl
get_text-put_text (some text) rest =
    rw (unshift-shift (suc (length text))) (rw (read_text-map text rest) refl)

get_id-put_id : (id : Option ℕ) → get_id (unshift (put_id id)) ≡ id
get_id-put_id none = refl
get_id-put_id (some n) = rw (unshift-shift (suc n)) refl

get_flag-put_flag : (b : Bool) → (unshift (put_flag b) == 1) ≡ b
get_flag-put_flag true = refl
get_flag-put_flag false = refl

claims_at-encode :
    (claims : Claims)
    → claims_at
        (put_flag claims.rmb)
        (shift claims.iat)
        (shift claims.exp)
        (put_id claims.user_id)
        (get_text (put_text claims.sub (put_text claims.role [])))
      ≡ claims
claims_at-encode claims =
    let role = get_text-put_text claims.role [] in
    rw
      (
        get_text-put_text claims.sub (put_text claims.role []),
        role,
        unshift-shift claims.iat,
        unshift-shift claims.exp,
        get_id-put_id claims.user_id,
        get_flag-put_flag claims.rmb,
      )
      refl

encode-NoSpace : (secret : Text) (claims : Claims) → NoSpace (encode secret claims)
unfolding encode
encode-NoSpace secret claims =
    let texts =
      put_text-NoSpace claims.sub (put_text claims.role []) (put_text-NoSpace claims.role [] tt) in
    (
      put_flag-NoSpace claims.rmb,
      (
        shift-NoSpace claims.iat,
        (shift-NoSpace claims.exp, (put_id-NoSpace claims.user_id, texts)),
      ),
    )

pub sample_jwt_laws : JwtLaws sample_jwt
unfolding encode decode
sample_jwt_laws = record {
  given = λ secret claims. refl;
  compact = λ secret claims. encode-NoSpace secret claims;
  decodes = λ secret claims now issued valid.
      let before : ltb now (unshift (shift claims.exp)) ≡ true = ground arith in
      rw before (ap payload (claims_at-encode claims));
  expires = λ secret claims now issued past.
      let after : ltb now (unshift (shift claims.exp)) ≡ false = ground arith in rw after refl;
}

abbrev pub sample_hasher : Hasher
sample_hasher = record {
  hash_password = λ salt password. password;
  verify_password = text_eq;
  check_needs_rehash = λ hash. false;
}

pub sample_hasher_laws : HasherLaws sample_hasher
sample_hasher_laws = record {
  verifies = λ salt password. text_eq_refl password;
  separates = λ salt password other h. text_eq→eq password other h;
}

abbrev pub sample_decimal : ℕ → Option ℕ
sample_decimal c = if leb 48 c && leb c 57 then some (c - 48) else none

pub sample_decimal_laws : DecimalLaws sample_decimal
sample_decimal_laws = record { digit = λ d h. ground arith; letter = λ c h. ground arith }
