-- ===== src/Auth/Tokens.antt =====
-- services/auth/internal/service/impl/token_service_impl.go: tokens bound to sessions. What
-- time.Now and uuid.New give in a call stands in `Draws`; the metrics and the log are left out.
pub mod Issued
pub mod Accepted
pub mod Steps
pub mod Reads
pub mod Revoked
pub mod Lasting
pub mod Replay
pub mod Once
pub mod Race
use secu_msg_server.Common.{
  ℕ, ◌+◌, ◌*◌, ◌/◌, ◌^◌, Bool, true, false, if◌then◌else◌, ◌==◌, nat_eq, list_eq, ◌&&◌, ◌||◌, not,
  ltb, Option, none, some, List, [], ◌∷◌, Action, Result, ok, err, pure, raise, raise_if, or_raise,
  lift, ◌>>=◌, ◌>>◌,
}
use secu_msg_server.Bytes.{Bytes, utf8}
use secu_msg_server.Text.{trim_space}
use secu_msg_server.Uuid.{Uuids}
use secu_msg_server.Database.{Gorm}
use secu_msg_server.Auth.Types.{
  User, Device, Session, Tables, TokenResponse, VerifyRequest, VerifyResponse, AuthError,
  store_record_not_found, gorm_record_not_found, invalid_token, session_expired_or_revoked,
  signing_failed, panicked,
}
use secu_msg_server.Auth.Ip.{Netip, session_ip}
use secu_msg_server.Auth.UserAgent.{truncate_user_agent}
use secu_msg_server.Auth.Claims.{RegisteredClaims, AccessClaims, RefreshClaims, Jwt, or_empty}
use secu_msg_server.Auth.Store.Sessions.{
  is_null, create_session, get_by_refresh_id, get_session, revoke_session_row, rotate_session,
}
use secu_msg_server.Auth.Store.Devices.{get_active}

pub record TokenConfig : Type 0 where
  pub issuer : Bytes
  pub audience : Bytes
  pub access_ttl : ℕ
  pub refresh_ttl : ℕ
  pub signing_key : Bytes

-- The configuration, and the packages that the service uses.
pub record TokenService : Type 1 where
  pub cfg : TokenConfig
  pub db : Gorm AuthError
  pub uuids : Uuids Bytes
  pub jwt : Jwt
  pub netip : Netip

-- The code's time.Now, the later one of the parser, and the identifiers drawn.
pub record Draws : Type 0 where
  pub now : ℕ
  pub parsed_at : ℕ
  pub session_id : ℕ
  pub refresh_id : ℕ
  pub access_id : ℕ

-- The error of a call, as a value.
abbrev pub attempt : {S E A : Type 0} → Action S E A → Action S E (Result E A)
attempt m s = let (r, s') = m s in (ok r, s')

-- Any error of a call becomes the one given.
abbrev pub masked : {S E A : Type 0} → E → Action S E A → Action S E A
masked e m s = let (r, s') = m s in (elim r [ ok a ↦ ok a | err x ↦ err e ], s')

unfoldable pub contains_audience : List Bytes → Bytes → Bool
contains_audience [] expected = false
contains_audience (a ∷ aud) expected =
    if a == expected then true else contains_audience aud expected

-- `sess.RevokedAt != nil || now.After(sess.ExpiresAt)`
abbrev pub is_over : ℕ → Session → Bool
is_over now sess = not (is_null sess.revoked_at) || ltb sess.expires_at now

abbrev pub text_of : Uuids Bytes → Option ℕ → Option Bytes
text_of u none = none
text_of u (some id) = some (u.to_string id)

-- `errors.Is(err, store.ErrRecordNotFound)`
abbrev pub is_missing : AuthError → Bool
is_missing store_record_not_found = true
is_missing other = false

module _ (s : TokenService) where
  abbrev pub access_claims : Draws → ℕ → Session → AccessClaims
  access_claims e user sess = record {
    sid = s.uuids.to_string sess.id;
    did = text_of s.uuids sess.device_id;
    scope = utf8 "user";
    registered = record {
      issuer = s.cfg.issuer;
      subject = s.uuids.to_string user;
      audience = s.cfg.audience ∷ [];
      expires_at = s.jwt.numeric_date (e.now + s.cfg.access_ttl);
      issued_at = s.jwt.numeric_date e.now;
      id = s.uuids.to_string e.access_id;
    };
  }

  abbrev pub refresh_claims : Draws → ℕ → Session → RefreshClaims
  refresh_claims e user sess = record {
    sid = s.uuids.to_string sess.id;
    registered = record {
      issuer = s.cfg.issuer;
      subject = s.uuids.to_string user;
      audience = s.cfg.audience ∷ [];
      expires_at = s.jwt.numeric_date sess.expires_at;
      issued_at = s.jwt.numeric_date e.now;
      id = s.uuids.to_string sess.refresh_id;
    };
  }

  -- signAccess and signRefresh, and the response.
  unfoldable pub mint : Draws → Session → Action Tables AuthError TokenResponse
  mint e sess = do
    access ←
        or_raise (s.jwt.sign_access s.cfg.signing_key (access_claims e sess.user_id sess))
          signing_failed
    refresh ←
        or_raise (s.jwt.sign_refresh s.cfg.signing_key (refresh_claims e sess.user_id sess))
          signing_failed
    pure (record {
      access_token = access;
      refresh_token = refresh;
      expires_in = s.cfg.access_ttl / 10 ^ 9;
    })

  -- The session that Issue creates.
  abbrev pub new_session : Draws → ℕ → Option ℕ → Bytes → List ℕ → Session
  new_session e user device ip ua = record {
    id = e.session_id;
    user_id = user;
    device_id = device;
    refresh_id = e.refresh_id;
    expires_at = e.now + s.cfg.refresh_ttl;
    revoked_at = none;
    created_at = e.now;
    ip = session_ip s.netip ip;
    user_agent = truncate_user_agent ua;
  }

  unfoldable pub issue :
      Draws → User → Option ℕ → Bytes → List ℕ → Action Tables AuthError TokenResponse
  issue e user device ip ua = do
    let sess : Session = new_session e user.id device ip ua
    create_session s.db sess
    mint e sess

  abbrev pub is_ours : RegisteredClaims → Bool
  is_ours c = c.issuer == s.cfg.issuer && contains_audience c.audience s.cfg.audience

  unfoldable pub parse_refresh : ℕ → Bytes → Option RefreshClaims
  parse_refresh now token = elim (s.jwt.parse_refresh s.cfg.signing_key now token) [
    | none ↦ none
    | some c ↦ if is_ours c.registered then some c else none
  ]

  -- Refresh up to the reading of the session: steps 1 and 2.
  unfoldable pub find_refreshed : Draws → Bytes → Action Tables AuthError Session
  find_refreshed e token = do
    claims ← or_raise (parse_refresh e.parsed_at token) invalid_token
    rid ← or_raise (s.uuids.parse claims.registered.id) panicked
    sess ← masked invalid_token (get_by_refresh_id s.db rid)
    raise_if (is_over e.now sess) session_expired_or_revoked
    pure sess

  -- The session with what Refresh assigns to it.
  abbrev pub moved_session : Draws → Session → Bytes → List ℕ → Session
  moved_session e sess ip ua = record sess {
    refresh_id = e.refresh_id;
    expires_at = e.now + s.cfg.refresh_ttl;
    ip = session_ip s.netip ip;
    user_agent = truncate_user_agent ua;
  }

  -- SessionStore.Rotate as Refresh calls it.
  abbrev pub rotate_row : Draws → Session → Bytes → List ℕ → Action Tables AuthError (Unit {0})
  rotate_row e sess ip ua =
      rotate_session s.db sess.id e.refresh_id (e.now + s.cfg.refresh_ttl) (session_ip s.netip ip)
        (truncate_user_agent ua)

  -- The rest of Refresh: steps 3 and 4.
  unfoldable pub rotate : Draws → Session → Bytes → List ℕ → Action Tables AuthError TokenResponse
  rotate e sess ip ua = do rotate_row e sess ip ua; mint e (moved_session e sess ip ua)

  unfoldable pub refresh : Draws → Bytes → Bytes → List ℕ → Action Tables AuthError TokenResponse
  refresh e token ip ua = do sess ← find_refreshed e token; rotate e sess ip ua

  unfoldable pub revoke_session : Draws → ℕ → Action Tables AuthError (Unit {0})
  revoke_session e id = revoke_session_row s.db id e.now
