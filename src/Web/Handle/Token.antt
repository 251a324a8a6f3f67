-- ===== src/Web/Handle/Token.antt =====
-- What the CSRF test of rust/src/web.rs has found where it passes.
use jbl_aura_play_together.Base.{
  ℕ, ◌≡◌, ◌∙◌, sym, refl, inl, inr, arith, ap, Bool, true, false, ◌&&◌, ◌==◌, some, List, length,
  codes, same, same_eq, Option-cases,
}
use jbl_aura_play_together.Web.Request.{ParsedRequest, single_header}
use jbl_aura_play_together.Web.Authority.{csrf_cookie_value, constant_time_eq}
use jbl_aura_play_together.Web.Handle.{WebSecurity, valid_csrf}

-- The token stands in the header and in the cookie.
pub record HasToken (security : WebSecurity) (request : ParsedRequest) : Type 0 where
  pub header : single_header (codes "x-csrf-token") request ≡ some security.csrf_token
  pub cookie : List ℕ
  pub cookie_header : single_header (codes "cookie") request ≡ some cookie
  pub cookie_token : csrf_cookie_value cookie ≡ some security.csrf_token

false-true : ¬ (false ≡ true)
false-true e = ground arith

second : (a b : Bool) → (a && b) ≡ true → b ≡ true
second a b h = ground arith

three : (a b c : Bool) → (a && b && c) ≡ true → (a ≡ true) × (b ≡ true) × (c ≡ true)
three a b c h = ground arith

constant_time_eq-eq : (a b : List ℕ) → constant_time_eq a b ≡ true → a ≡ b
unfolding constant_time_eq
constant_time_eq-eq a b h = same_eq a b (second (length a == length b) (same a b) h)

pub valid_csrf-HasToken :
    (security : WebSecurity) (request : ParsedRequest)
    → valid_csrf security request ≡ true
    → HasToken security request
unfolding valid_csrf
valid_csrf-HasToken security request h =
    elim (Option-cases (single_header (codes "x-csrf-token") request)) [
      | inl n ↦ absurd (false-true (sym (rw (valid_csrf, n) refl) ∙ h))
      | inr (header, a) ↦ elim (Option-cases (single_header (codes "cookie") request)) [
        | inl n ↦ absurd (false-true (sym (rw (valid_csrf, a, n) refl) ∙ h))
        | inr (cookie, b) ↦ elim (Option-cases (csrf_cookie_value cookie)) [
          | inl n ↦ absurd (false-true (sym (rw (valid_csrf, a, b, n) refl) ∙ h))
          | inr (token, c) ↦
              let (same_token, in_header, in_cookie) =
                three (constant_time_eq header token) (constant_time_eq header security.csrf_token)
                  (constant_time_eq token security.csrf_token)
                  (sym (rw (valid_csrf, a, b, c) refl) ∙ h) in
              record {
                header = a ∙ ap some (constant_time_eq-eq header security.csrf_token in_header);
                cookie = cookie;
                cookie_header = b;
                cookie_token =
                    c ∙ ap some (constant_time_eq-eq token security.csrf_token in_cookie);
              }
        ]
      ]
    ]
