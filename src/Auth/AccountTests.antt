-- ===== src/Auth/AccountTests.antt =====
-- Witnesses for the accounts and devices of services/auth.
use secu_msg_server.Common.{
  some, ==_refl, true, false, ◌==◌, nat_eq, list_eq, none, [], ◌∷◌, ok, err, ◌≡◌, refl, ◌++◌, sym,
  ap, arith,
}
use secu_msg_server.Auth.Types.{
  RegisterRequest, RegisterResponse, TokenResponse, User, PasswordCredential, Device, Tables,
  LoginRequest, AuthError, database,
}
use secu_msg_server.Auth.Accounts.{
  new_user, register_account, store_account, store_password, AuthService, AccountDraws,
  looks_like_email, find_user, admit, log_in, login,
}
use secu_msg_server.Auth.Claims.{Signs}
use secu_msg_server.Auth.Accounts.FirstLogin.{IsNameOf, login-register_account}
use secu_msg_server.Auth.TokenTests.{
  later, draws, alice, no_tables, first_access, refresh_at, tokens,
}
use secu_msg_server.Bytes.{Bytes, utf8}
use secu_msg_server.Database.{Row}
use secu_msg_server.Database.Rows.{Found}
use secu_msg_server.Database.Sample.{db, db-Laws, db-IsUp}
use secu_msg_server.Auth.Password.{hash, verify, new_password_service}
use secu_msg_server.Auth.Ip.{normalize_ip}
use secu_msg_server.Auth.Store.Sessions.{create_session}
use secu_msg_server.Auth.Store.Users.{create_user, upsert_password, get_by_username, get_password}
use secu_msg_server.Auth.Tokens.{new_session, issue, mint}
use secu_msg_server.Auth.Accounts.Login.{answers, login-verified}
use secu_msg_server.Auth.Store.Devices.{Stamp}
use secu_msg_server.Auth.Tokens.Issued.{IsIssued}
use secu_msg_server.Auth.Devices.{revoke_device}
use secu_msg_server.Auth.Devices.Revocation.{revoke_device-fails}
use secu_msg_server.Auth.Sample.{service}
use secu_msg_server.Auth.Tests.{secret, hashing, stored, written_params, read_params}
use secu_msg_server.Auth.Accounts.Registered.{IsKept}

abbrev phone : Device
phone = record {
  id = 4;
  user_id = 3;
  name = utf8 "phone";
  platform = utf8 "ios";
  push_token = none;
  created_at = 950;
  updated_at = 950;
  revoked_at = none;
}

abbrev with_phone : Tables
with_phone = record no_tables { devices = record { value = phone; created_at = 950 } ∷ [] }

abbrev first_stamp : Stamp
first_stamp = record { now = 1000; saved_at = 1001 }

abbrev second_stamp : Stamp
second_stamp = record { now = 1002; saved_at = 1003 }

revoke_device-fails_example :
    (x : AuthError) × (revoke_device
        (db (database "duplicate key"))
        first_stamp
        second_stamp
        4
        with_phone
      ≡ (err x, with_phone))
revoke_device-fails_example =
    revoke_device-fails (db (database "duplicate key")) (db-Laws (database "duplicate key"))
      first_stamp second_stamp 4 with_phone

-- The text that is read from a jsonb column, where it ends with a newline.
abbrev ended : Bytes → Bytes
ended b = b ++ 10 ∷ []

hashing-IsKept : IsKept hashing ended
hashing-IsKept q b e =
    let same : written_params q ≡ b = ground (arith, e) in
    sym (ap (λ b. read_params (ended b)) same)

abbrev accounts : AuthService
accounts = record {
  tokens = service (record first_access { did = none }) (refresh_at 1000 8) (refresh_at 1000 8);
  passwords = new_password_service;
  hashing = hashing;
  citext = λ s t. s == t;
  jsonb = ended;
}

abbrev account_draws : AccountDraws
account_draws = record {
  now = 1000;
  stored_at = 1000;
  user_id = 3;
  credential_id = 30;
  issued = draws;
}

abbrev alice_stored : Tables
alice_stored = record no_tables {
  users = record { value = alice; created_at = 900 } ∷ [];
  credentials =
      record {
        value = record {
          id = 30;
          user_id = 3;
          credential = stored;
          created_at = 900;
          updated_at = 900;
        };
        created_at = 900;
      }
      ∷ [];
}

abbrev request : LoginRequest
request = record { email_or_username = utf8 "alice"; password = secret }

abbrev alice_in : Tables
alice_in = record alice_stored {
  sessions = record { value = new_session accounts.tokens draws 3 none [] []; created_at = 0 } ∷ [];
}

alice_logs_in : login accounts account_draws request [] [] alice_stored ≡ (ok tokens, alice_in)
unfolding login log_in find_user looks_like_email get_by_username get_password admit verify issue
    create_session mint normalize_ip
alice_logs_in = refl

login-verified_example :
    (u : Row User) × (c : Row PasswordCredential) × Found
      (answers accounts (utf8 "alice"))
      alice_stored.users
      u
    × (u.value.is_disabled ≡ false)
    × Found (λ x. x.value.user_id == u.value.id) alice_stored.credentials c
    × ((verify hashing new_password_service secret c.value.credential).1 ≡ true)
    × IsIssued accounts.tokens draws u.value.id none [] [] alice_stored.sessions alice_in.sessions
        tokens
login-verified_example =
    login-verified accounts account_draws request [] [] alice_stored alice_in tokens
      (db-Laws (database "duplicate key")) alice_logs_in

-- The same accounts with a service that signs all claims.
abbrev signing_accounts : AuthService
signing_accounts = record accounts {
  tokens = record accounts.tokens {
    jwt = record accounts.tokens.jwt {
      sign_access = λ key c. some (utf8 "a");
      sign_refresh = λ key c. some (utf8 "r");
    };
  };
}

abbrev bob_draws : AccountDraws
bob_draws = record { now = 1000; stored_at = 1000; user_id = 6; credential_id = 31; issued = draws }

abbrev bob : RegisterRequest
bob = record { email = utf8 "b@c.d"; username = utf8 "bob"; password = utf8 "password" }

abbrev bob_registered : Tables
bob_registered = record alice_stored {
  users =
      record { value = alice; created_at = 900 }
      ∷ record { value = new_user signing_accounts bob_draws bob; created_at = 0 }
      ∷ [];
  credentials =
      record {
        value = record {
          id = 30;
          user_id = 3;
          credential = stored;
          created_at = 900;
          updated_at = 900;
        };
        created_at = 900;
      }
      ∷ record {
        value = record {
          id = 31;
          user_id = 6;
          credential = record stored {
            hash = 3 ∷ 65536 ∷ utf8 "password";
            params_json = ended stored.params_json;
          };
          created_at = 1000;
          updated_at = 1000;
        };
        created_at = 0;
      }
      ∷ [];
  sessions =
      record { value = new_session signing_accounts.tokens draws 6 none [] []; created_at = 0 }
      ∷ [];
}

abbrev bob_response : RegisterResponse
bob_response = record {
  user_id = 6 ∷ [];
  requires_email_verification = true;
  access_token = utf8 "a";
  refresh_token = utf8 "r";
  expires_in = 900;
}

bob_registers :
    register_account signing_accounts bob_draws bob [] [] alice_stored
    ≡ (ok bob_response, bob_registered)
unfolding register_account store_account create_user store_password upsert_password hash issue
    create_session mint normalize_ip
bob_registers = refl

signing_accounts-Signs : Signs signing_accounts.tokens.jwt
signing_accounts-Signs = record {
  access_signed = λ key c. (utf8 "a", refl);
  refresh_signed = λ key c. (utf8 "r", refl);
}

bob_named :
    IsNameOf signing_accounts
      (db-Laws (database "duplicate key"))
      (db-IsUp (database "duplicate key"))
      bob
      (utf8 "bob")
unfolding looks_like_email
bob_named = refl

login-register_account_example :
    (tok : TokenResponse) × (t : Tables) × (login signing_accounts
        (record bob_draws { issued = later })
        (record { email_or_username = utf8 "bob"; password = utf8 "password" })
        []
        []
        bob_registered
      ≡ (ok tok, t))
login-register_account_example =
    login-register_account signing_accounts (db-Laws (database "duplicate key"))
      (db-IsUp (database "duplicate key")) bob_draws (record bob_draws { issued = later }) bob
      (utf8 "bob") [] [] [] [] alice_stored bob_registered bob_response hashing-IsKept
      signing_accounts-Signs (λ s. ==_refl s) bob_named refl bob_registers refl
