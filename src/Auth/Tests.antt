-- ===== src/Auth/Tests.antt =====
-- Witnesses for the passwords and the client data of services/auth.
use secu_msg_server.Common.{
  true, none, some, Option, sym, ap, [], ◌∷◌, ok, ◌≡◌, refl, arith, take, replicate,
}
use secu_msg_server.Bytes.{Bytes, utf8}
use secu_msg_server.Auth.Password.{
  Argon2Params, PasswordService, Credential, Hashing, IsJson, new_password_service, is_outdated,
  hash, verify, verify-hash,
}
use secu_msg_server.Auth.UserAgent.{
  truncate_user_agent, truncate_user_agent_lem, max_user_agent_length,
}

abbrev pub secret : Bytes
secret = utf8 "secret"

abbrev pub read_params : Bytes → Option Argon2Params
read_params (t ∷ m ∷ p ∷ k ∷ s ∷ more) =
    some (record { time = t; memory = m; threads = p; key_len = k; salt_len = s })
read_params b = none

abbrev pub written_params : Argon2Params → Bytes
written_params q = q.time ∷ q.memory ∷ q.threads ∷ q.key_len ∷ q.salt_len ∷ []

-- A hash that is two parameters before the password, and parameters written as their numbers;
-- what follows them is not read.
abbrev pub hashing : Hashing
hashing = record {
  id_key = λ password salt t m p k. t ∷ m ∷ password;
  random = λ n. some (replicate n 7);
  marshal = λ q. some (written_params q);
  unmarshal = read_params;
}

hashing-IsJson : IsJson hashing
hashing-IsJson q b e =
    let same : written_params q ≡ b = ground (arith, e) in sym (ap read_params same)

abbrev stronger : PasswordService
stronger = record new_password_service { cur = record new_password_service.cur { time = 4 } }

abbrev pub stored : Credential
stored = record {
  hash = 3 ∷ 65536 ∷ secret;
  salt = replicate 16 7;
  params_json = written_params new_password_service.cur;
  algo = "argon2id";
  password_ver = 1;
}

secret_hashed : hash hashing new_password_service secret ≡ ok stored
unfolding hash
secret_hashed = refl

verify-hash_example :
    verify hashing stronger secret stored
    ≡ (is_outdated stronger stored new_password_service.cur, true)
verify-hash_example =
    verify-hash hashing new_password_service stronger secret stored hashing-IsJson refl
      secret_hashed

stronger_is_newer : is_outdated stronger stored new_password_service.cur ≡ true
stronger_is_newer = refl

truncate_user_agent_lem_example :
    truncate_user_agent (replicate 600 97) ≡ take max_user_agent_length (replicate 600 97)
truncate_user_agent_lem_example = truncate_user_agent_lem (replicate 600 97)
