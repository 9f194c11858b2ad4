-- ===== src/Auth/TokenTests.antt =====
-- Witnesses for the tokens, sessions and devices of services/auth.
use secu_msg_server.Auth.Verify.{check_device, read_access, verify_access, verify_session}
use secu_msg_server.Common.{
  ℕ, ◌+◌, ◌*◌, ◌≤◌, ◌^◌, true, false, ◌==◌, nat_eq, list_eq, Option, none, some, [], ◌∷◌, ◌≢◌, ok,
  ◌≡◌, refl, sym, ap, ◌∙◌, arith,
}
use secu_msg_server.Bytes.{Bytes, utf8}
use secu_msg_server.Database.{count_rows}
use secu_msg_server.Database.Sample.{db-Laws, db-IsUp}
use secu_msg_server.Auth.Types.{User, Session, Tables, TokenResponse, database}
use secu_msg_server.Auth.Ip.{normalize_ip, read_host, normalize_ip_idempotent}
use secu_msg_server.Auth.Claims.{AccessClaims, RefreshClaims, Signs}
use secu_msg_server.Auth.Store.Sessions.{
  create_session, get_by_refresh_id, get_session, revoke_session_row, rotate_session,
}
use secu_msg_server.Auth.Tokens.{
  TokenService, Draws, new_session, issue, mint, refresh, find_refreshed, rotate, parse_refresh,
  contains_audience, revoke_session,
}
use secu_msg_server.Auth.Tokens.Accepted.{
  accepted, verify_access-issue, verify_access-issue_refresh,
}
use secu_msg_server.Auth.Tokens.Steps.{Reach, here, next, rotated_to}
use secu_msg_server.Auth.Tokens.Revoked.{IsRevoked}
use secu_msg_server.Auth.Tokens.Lasting.{Reach-IsRevoked, verify_access-revoke_session}
use secu_msg_server.Auth.Tokens.Once.{IsFresh, refresh_once}
use secu_msg_server.Auth.Tokens.Race.{refresh_race}
use secu_msg_server.Auth.Tokens.Replay.{IsUnused}
use secu_msg_server.Auth.Sample.{
  netip, netip-IpLaws, service, service-IsSound, uuids, access_text, refresh_text, old_text,
}

normalized : normalize_ip netip (32 ∷ 105 ∷ []) ≡ (105 ∷ [], true)
unfolding normalize_ip read_host
normalized = refl

normalize_ip_idempotent_example : normalize_ip netip (105 ∷ []) ≡ (105 ∷ [], true)
normalize_ip_idempotent_example =
    normalize_ip_idempotent netip (32 ∷ 105 ∷ []) (105 ∷ []) netip-IpLaws normalized

abbrev pub draws : Draws
draws = record { now = 1000; parsed_at = 1000; session_id = 7; refresh_id = 8; access_id = 9 }

abbrev pub later : Draws
later = record { now = 2000; parsed_at = 2000; session_id = 17; refresh_id = 18; access_id = 19 }

abbrev pub alice : User
alice = record {
  id = 3;
  email = utf8 "a@b.c";
  email_verified = false;
  username = utf8 "alice";
  is_disabled = false;
  created_at = 900;
  updated_at = 900;
}

abbrev pub no_tables : Tables
no_tables = record { users = []; credentials = []; devices = []; sessions = [] }

-- The claims of the first tokens of Alice's session, for her device 4.
abbrev pub first_access : AccessClaims
first_access = record {
  sid = 7 ∷ [];
  did = some (4 ∷ []);
  scope = utf8 "user";
  registered = record {
    issuer = utf8 "auth";
    subject = 3 ∷ [];
    audience = utf8 "clients" ∷ [];
    expires_at = 1000 + 900 * 10 ^ 9;
    issued_at = 1000;
    id = 9 ∷ [];
  };
}

abbrev pub refresh_at : ℕ → ℕ → RefreshClaims
refresh_at now id = record {
  sid = 7 ∷ [];
  registered = record {
    issuer = utf8 "auth";
    subject = 3 ∷ [];
    audience = utf8 "clients" ∷ [];
    expires_at = now + 2592000 * 10 ^ 9;
    issued_at = now;
    id = id ∷ [];
  };
}

abbrev at_first : TokenService
at_first = service first_access (refresh_at 1000 8) (refresh_at 1000 8)

abbrev pub tokens : TokenResponse
tokens = record { access_token = access_text; refresh_token = refresh_text; expires_in = 900 }

abbrev session : Session
session = new_session at_first draws 3 (some 4) (utf8 "x") []

abbrev holding : Session → Tables
holding s = record no_tables { sessions = record { value = s; created_at = 0 } ∷ [] }

issued : issue at_first draws alice (some 4) (utf8 "x") [] no_tables ≡ (ok tokens, holding session)
unfolding issue mint create_session normalize_ip read_host
issued = refl

verify_access-issue_example :
    verify_access at_first later (record { token = access_text; device_id = [] }) (holding session)
    ≡ (ok (accepted at_first draws alice (4 ∷ [])), holding session)
verify_access-issue_example =
    verify_access-issue at_first draws later alice (some 4) (utf8 "x") [] no_tables
      (holding session) tokens
      (service-IsSound first_access (refresh_at 1000 8) (refresh_at 1000 8)) issued (omega arith)
      (omega arith)

verify_access-issue_refresh_example :
    verify_access at_first later (record { token = refresh_text; device_id = [] }) (holding session)
    ≡ (ok (accepted at_first draws alice []), holding session)
verify_access-issue_refresh_example =
    verify_access-issue_refresh at_first draws later alice (some 4) (utf8 "x") [] no_tables
      (holding session) tokens
      (service-IsSound first_access (refresh_at 1000 8) (refresh_at 1000 8)) issued (omega arith)
      (omega arith)

-- The tables in which another session, 5, was revoked by a call while one of session 7 was verified.
abbrev other_session : Session
other_session = record session { id = 5; refresh_id = 6 }

abbrev two_sessions : Option ℕ → Tables
two_sessions at = record no_tables {
  sessions =
      record { value = record other_session { revoked_at = at }; created_at = 0 }
      ∷ record { value = session; created_at = 0 }
      ∷ [];
}

abbrev AnyDraws : Draws → Type 0
AnyDraws d = Unit {0}

abbrev revoked_tables : Tables
revoked_tables = two_sessions (some 2000)

revoked_five : revoke_session at_first later 5 (two_sessions none) ≡ (ok tt, revoked_tables)
unfolding revoke_session revoke_session_row
revoked_five = refl

-- A refresh that had read the session before it was revoked goes on.
in_flight :
    Reach at_first AnyDraws revoked_tables
      (rotate at_first later other_session [] [] revoked_tables).1
in_flight =
    next revoked_tables _ _ (rotated_to later other_session [] [] revoked_tables tt)
      (here (rotate at_first later other_session [] [] revoked_tables).1)

Reach-IsRevoked_example : IsRevoked 5 (rotate at_first later other_session [] [] revoked_tables).1
Reach-IsRevoked_example =
    Reach-IsRevoked at_first AnyDraws 5 revoked_tables
      (rotate at_first later other_session [] [] revoked_tables).1
      (db-Laws (database "duplicate key")) in_flight (refl, refl)

verified_seven :
    verify_access at_first later (record { token = access_text; device_id = [] }) revoked_tables
    ≡ (ok (accepted at_first draws alice (4 ∷ [])), revoked_tables)
unfolding verify_access read_access contains_audience verify_session get_session check_device
verified_seven = refl

verify_access-revoke_session_example : ◌≢◌ {A = Bytes} (7 ∷ []) (5 ∷ [])
verify_access-revoke_session_example =
    verify_access-revoke_session at_first AnyDraws later later 5
      (record { token = access_text; device_id = [] }) (two_sessions none) revoked_tables
      revoked_tables revoked_tables tt (accepted at_first draws alice (4 ∷ [])) (λ id. refl)
      (db-Laws (database "duplicate key")) refl revoked_five (here revoked_tables) verified_seven
      refl

-- The service that signs what a refresh of the first refresh token asks for.
abbrev at_second : TokenService
at_second =
    service
      (record first_access {
        registered = record first_access.registered {
          expires_at = 2000 + 900 * 10 ^ 9;
          issued_at = 2000;
          id = 19 ∷ [];
        };
      })
      (refresh_at 2000 18) (refresh_at 1000 8)

abbrev moved : Tables
moved =
    holding
      (record session { refresh_id = 18; expires_at = 2000 + 2592000 * 10 ^ 9; ip = utf8 "y" })

refreshed : refresh at_second later old_text (utf8 "y") [] (holding session) ≡ (ok tokens, moved)
unfolding refresh find_refreshed parse_refresh contains_audience get_by_refresh_id rotate
    rotate_session mint normalize_ip read_host
refreshed = refl

abbrev NotEight : Draws → Type 0
NotEight d = d.refresh_id ≢ 8

old_rid :
    (c : RefreshClaims) (rid : ℕ)
    → parse_refresh at_second 2000 old_text ≡ some c
    → uuids.parse c.registered.id ≡ some rid
    → rid ≡ 8
unfolding parse_refresh contains_audience
old_rid c rid read named =
    let same : refresh_at 1000 8 ≡ c = ground (arith, read) in
    let e : some rid ≡ some 8 =
      sym named ∙ ap (λ (x : RefreshClaims). uuids.parse x.registered.id) (sym same) in
    ground (arith, e)

old-IsFresh : IsFresh at_second NotEight old_text later
old-IsFresh = record {
  own = λ c rid read named e. let is = old_rid c rid read named in absurd (omega (arith, e, is));
  drawn = λ d c rid read named other e. other (e ∙ old_rid c rid read named);
}

one_rid :
    (rid : ℕ) → count_rows (λ (x : Session). x.refresh_id == rid) (holding session).sessions ≤ 1
one_rid rid = ground arith

refresh_once_example : refresh at_second later old_text [] [] moved ≢ (ok tokens, moved)
refresh_once_example =
    refresh_once at_second NotEight later later old_text (utf8 "y") [] [] [] (holding session) moved
      moved moved tokens tokens
      (service-IsSound
        (record first_access {
          registered = record first_access.registered {
            expires_at = 2000 + 900 * 10 ^ 9;
            issued_at = 2000;
            id = 19 ∷ [];
          };
        })
        (refresh_at 2000 18) (refresh_at 1000 8)).jwt
      (db-Laws (database "duplicate key")) one_rid old-IsFresh refreshed (here moved)

-- The service that signs all claims.
abbrev signing : TokenService
signing = record at_second {
  jwt = record at_second.jwt {
    sign_access = λ key c. some access_text;
    sign_refresh = λ key c. some refresh_text;
  };
}

signing-Signs : Signs signing.jwt
signing-Signs = record {
  access_signed = λ key c. (access_text, refl);
  refresh_signed = λ key c. (refresh_text, refl);
}

found_session :
    find_refreshed signing later old_text (holding session) ≡ (ok session, holding session)
unfolding find_refreshed parse_refresh contains_audience get_by_refresh_id
found_session = refl

abbrev third : Draws
third = record later { refresh_id = 28; access_id = 29 }

refresh_race_example :
    (tok : TokenResponse) × (t1 : Tables) × (tok' : TokenResponse) × (t2 : Tables) × (refresh
        signing later old_text [] []
        (holding session)
      ≡ (ok tok, t1))
    × (rotate signing third session [] [] t1 ≡ (ok tok', t2))
    × IsUnused 18 t2
refresh_race_example =
    refresh_race signing (db-IsUp (database "duplicate key")) signing-Signs later third old_text []
      [] [] [] session (holding session) (db-Laws (database "duplicate key")) found_session
      (omega arith) refl
