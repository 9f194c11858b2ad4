-- ===== src/Auth/Tokens/Accepted.antt =====
-- What the tokens that Issue of services/auth/internal/service/impl/token_service_impl.go gives are
-- good for.
use mathlib.Core.Path.{subst}
use secu_msg_server.Auth.Verify.{read_access, verify_access, verify_read}
use secu_msg_server.Common.{
  ℕ, ◌+◌, ◌≤◌, ◌<◌, ◌^◌, true, nat_eq, list_eq, Option, none, some, List, [], ◌∷◌, ok, ◌≡◌, refl,
  sym, ap, ◌∙◌, arith,
}
use secu_msg_server.Bytes.{Bytes}
use secu_msg_server.Auth.Types.{User, Session, Tables, TokenResponse, VerifyResponse}
use secu_msg_server.Auth.Store.Sessions.{get_session}
use secu_msg_server.Auth.Claims.{
  AccessClaims, RefreshClaims, all_utf8, texts_of, or_empty, as_access,
}
use secu_msg_server.Auth.Tokens.{
  TokenService, Draws, issue, new_session, access_claims, refresh_claims, text_of,
}
use secu_msg_server.Auth.Tokens.Issued.{
  IsSound, of_mint, of_issue, read_access_lem, get_session-added, verify_session-added,
}

module _ (s : TokenService) where
  before : (p q : ℕ) → IsSound s → p + 10 ^ 9 ≤ q → p < s.jwt.numeric_date q
  before p q sound soon = omega (arith, sound.jwt.date_cut q)

  utf8_text :
      (device : Option ℕ) → IsSound s → s.jwt.is_utf8 (or_empty (text_of s.uuids device)) ≡ true
  utf8_text none sound = let (issuer, audience, scope, empty, printed) = sound.utf8_texts in empty
  utf8_text (some id) sound =
      let (issuer, audience, scope, empty, printed) = sound.utf8_texts in printed id

  utf8_access :
      (e : Draws) (user : ℕ) (sess : Session)
      → IsSound s
      → let c : AccessClaims = access_claims s e user sess in
        all_utf8 s.jwt (c.sid ∷ or_empty c.did ∷ c.scope ∷ texts_of c.registered) ≡ true
  utf8_access e user sess sound =
      let (issuer, audience, scope, none_s, printed) = sound.utf8_texts in
      ground (
        arith,
        issuer,
        audience,
        scope,
        printed sess.id,
        printed user,
        printed e.access_id,
        utf8_text sess.device_id sound,
      )

  utf8_refresh :
      (e : Draws) (user : ℕ) (sess : Session)
      → IsSound s
      → let c : RefreshClaims = refresh_claims s e user sess in
        all_utf8 s.jwt (c.sid ∷ texts_of c.registered) ≡ true
  utf8_refresh e user sess sound =
      let (issuer, audience, scope, none_s, printed) = sound.utf8_texts in
      ground (arith, issuer, audience, printed sess.id, printed user, printed sess.refresh_id)

  -- What VerifyAccess answers for a token of a session: it is valid, and names user and session.
  abbrev pub accepted : Draws → User → Bytes → VerifyResponse
  accepted e user device_id = record {
    valid = true;
    user_id = s.uuids.to_string user.id;
    session_id = s.uuids.to_string e.session_id;
    token_device_id = device_id;
    device_authorized = true;
  }

  -- The access token that Issue gives is verified, for no device, until a second before it expires
  -- and until its session expires: VerifyAccess answers that it is valid, with the user's, the
  -- session's and the device's identifiers. Packages and database behave as documented, and no
  -- query fails.
  pub verify_access-issue :
      (e e' : Draws) (user : User) (device : Option ℕ) (ip : Bytes) (ua : List ℕ) (t t' : Tables)
      (tok : TokenResponse)
      → IsSound s
      → issue s e user device ip ua t ≡ (ok tok, t')
      → e'.parsed_at + 10 ^ 9 ≤ e.now + s.cfg.access_ttl
      → e'.now ≤ e.now + s.cfg.refresh_ttl
      → verify_access s e' (record { token = tok.access_token; device_id = [] }) t'
        ≡ (ok (accepted e user (or_empty (text_of s.uuids device))), t')
  unfolding verify_access
  verify_access-issue e e' user device ip ua t t' tok sound issued soon alive =
      let sess : Session = new_session s e user.id device ip ua in
      let c : AccessClaims = access_claims s e user.id sess in
      let (free, at, shape, minted) = of_issue s e user device ip ua t t' tok sound.laws issued in
      let (signed, other, same) = of_mint s e sess t' t' tok minted in
      let (trimmed, full) = sound.jwt.access_text s.cfg.signing_key c tok.access_token signed in
      let read =
        sound.jwt.access_read s.cfg.signing_key c tok.access_token e'.parsed_at signed
          (utf8_access e user.id sess sound)
          (before e'.parsed_at (e.now + s.cfg.access_ttl) sound soon) in
      let named =
        read_access_lem s e'.parsed_at e.session_id tok.access_token c sound.printed full read refl
          refl refl in
      let found =
        subst (λ x. get_session s.db e.session_id x ≡ (ok sess, x)) (sym shape)
          (get_session-added s sess at t sound free) in
      ap (λ x. verify_read s e' [] x t') (ap (read_access s e'.parsed_at) trimmed ∙ named)
      ∙ verify_session-added s e' c sess t' found (ground (arith, alive))

  -- A refresh token that Issue gives is verified as an access token as well, as long as its session
  -- lasts, and names no device even if the session has one: the claims of the two kinds of token are
  -- told apart by nothing. Packages and database behave as documented, and no query fails.
  pub verify_access-issue_refresh :
      (e e' : Draws) (user : User) (device : Option ℕ) (ip : Bytes) (ua : List ℕ) (t t' : Tables)
      (tok : TokenResponse)
      → IsSound s
      → issue s e user device ip ua t ≡ (ok tok, t')
      → e'.parsed_at + 10 ^ 9 ≤ e.now + s.cfg.refresh_ttl
      → e'.now ≤ e.now + s.cfg.refresh_ttl
      → verify_access s e' (record { token = tok.refresh_token; device_id = [] }) t'
        ≡ (ok (accepted e user []), t')
  unfolding verify_access
  verify_access-issue_refresh e e' user device ip ua t t' tok sound issued soon alive =
      let sess : Session = new_session s e user.id device ip ua in
      let c : RefreshClaims = refresh_claims s e user.id sess in
      let (free, at, shape, minted) = of_issue s e user device ip ua t t' tok sound.laws issued in
      let (other, signed, same) = of_mint s e sess t' t' tok minted in
      let (trimmed, full) = sound.jwt.refresh_text s.cfg.signing_key c tok.refresh_token signed in
      let read =
        sound.jwt.refresh_read_as_access s.cfg.signing_key c tok.refresh_token e'.parsed_at signed
          (utf8_refresh e user.id sess sound)
          (before e'.parsed_at (e.now + s.cfg.refresh_ttl) sound soon) in
      let named =
        read_access_lem s e'.parsed_at e.session_id tok.refresh_token (as_access c) sound.printed
          full read refl refl refl in
      let found =
        subst (λ x. get_session s.db e.session_id x ≡ (ok sess, x)) (sym shape)
          (get_session-added s sess at t sound free) in
      ap (λ x. verify_read s e' [] x t') (ap (read_access s e'.parsed_at) trimmed ∙ named)
      ∙ verify_session-added s e' (as_access c) sess t' found (ground (arith, alive))
