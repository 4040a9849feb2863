-- ===== src/RefreshStore/Keys.antt =====
-- The three families of keys never meet, and a family determines its key.
use text.Mathlib.TextLemmas.{append_cancel_left, append_cancel_right}
use fastapi_project_structur.Common.{
  String, ◌≡◌, refl, false, arith, ◌==◌, eq_iff, ◌+++◌, append-ne_of_differ, eq_false,
}
use fastapi_project_structur.RefreshStore.{token_key, user_key, revoked_key}

pub token_key-ne-revoked_key : (jti fam : String) → (token_key jti == revoked_key fam) ≡ false
unfolding token_key revoked_key
token_key-ne-revoked_key jti fam =
    eq_false _ _ (append-ne_of_differ "auth:rt:" "auth:fam:" jti (fam +++ ":revoked") refl)

pub user_key-ne-revoked_key : (sub fam : String) → (user_key sub == revoked_key fam) ≡ false
unfolding user_key revoked_key
user_key-ne-revoked_key sub fam =
    eq_false _ _
      (append-ne_of_differ "auth:user:" "auth:fam:" (sub +++ ":fams") (fam +++ ":revoked") refl)

pub revoked_key-ne-user_key : (fam sub : String) → (revoked_key fam == user_key sub) ≡ false
unfolding user_key revoked_key
revoked_key-ne-user_key fam sub =
    eq_false _ _
      (append-ne_of_differ "auth:fam:" "auth:user:" (fam +++ ":revoked") (sub +++ ":fams") refl)

pub token_key-ne-user_key : (jti sub : String) → (token_key jti == user_key sub) ≡ false
unfolding token_key user_key
token_key-ne-user_key jti sub =
    eq_false _ _ (append-ne_of_differ "auth:rt:" "auth:user:" jti (sub +++ ":fams") refl)

pub user_key-ne-token_key : (sub jti : String) → (user_key sub == token_key jti) ≡ false
unfolding token_key user_key
user_key-ne-token_key sub jti =
    eq_false _ _ (append-ne_of_differ "auth:user:" "auth:rt:" (sub +++ ":fams") jti refl)

pub revoked_key-ne-token_key : (fam jti : String) → (revoked_key fam == token_key jti) ≡ false
unfolding token_key revoked_key
revoked_key-ne-token_key fam jti =
    eq_false _ _ (append-ne_of_differ "auth:fam:" "auth:rt:" (fam +++ ":revoked") jti refl)

-- A test on keys is the test on what they are made of.
pub revoked_key-eq : (a b : String) → (revoked_key a == revoked_key b) ≡ (a == b)
unfolding revoked_key
revoked_key-eq a b = ground (
  arith,
  eq_iff a b,
  eq_iff (revoked_key a) (revoked_key b),
  λ (h : revoked_key a ≡ revoked_key b).
      append_cancel_right _ _ ":revoked" (append_cancel_left "auth:fam:" _ _ h),
)

pub token_key-eq : (a b : String) → (token_key a == token_key b) ≡ (a == b)
unfolding token_key
token_key-eq a b = ground (
  arith,
  eq_iff a b,
  eq_iff (token_key a) (token_key b),
  λ (h : token_key a ≡ token_key b). append_cancel_left "auth:rt:" a b h,
)

pub user_key-eq : (a b : String) → (user_key a == user_key b) ≡ (a == b)
unfolding user_key
user_key-eq a b = ground (
  arith,
  eq_iff a b,
  eq_iff (user_key a) (user_key b),
  λ (h : user_key a ≡ user_key b).
      append_cancel_right _ _ ":fams" (append_cancel_left "auth:user:" _ _ h),
)
