-- ===== src/Auth/Password.antt =====
-- services/auth/internal/service/impl/password_service_impl.go. Argon2id, the random source and
-- encoding/json are a record of parameters.
use mathlib.Core.Path.{subst}
use secu_msg_server.Common.{
  ℕ, ◌*◌, Bool, true, false, if◌then◌else◌, ◌==◌, nat_eq, string_eq, list_eq, ◌&&◌, ◌||◌, not,
  Option, none, some, String, Result, ok, err, ◌≡◌, refl, arith, ==_refl, Bool-cases, Option-cases,
  inl, inr, ap, ◌∙◌, length,
}
use secu_msg_server.Bytes.{Bytes}

pub record Argon2Params : Type 0 where
  pub time : ℕ
  pub memory : ℕ
  pub threads : ℕ
  pub key_len : ℕ
  pub salt_len : ℕ

pub record PasswordService : Type 0 where
  pub current_ver : ℕ
  pub cur : Argon2Params
  pub algo_name : String

-- What Hash returns and the account keeps.
pub record Credential : Type 0 where
  pub hash : Bytes
  pub salt : Bytes
  pub params_json : Bytes
  pub algo : String
  pub password_ver : ℕ

pub data PasswordError : Type 0 where
  empty_password random_failed marshal_failed : PasswordError

pub record Hashing : Type 0 where
  -- argon2.IDKey of password, salt, time, memory, threads and key length.
  pub id_key : Bytes → Bytes → ℕ → ℕ → ℕ → ℕ → Bytes
  -- The bytes that rand.Read gives in the call; none is its error.
  pub random : ℕ → Option Bytes
  pub marshal : Argon2Params → Option Bytes
  pub unmarshal : Bytes → Option Argon2Params

-- encoding/json reads back the struct that it wrote.
abbrev pub IsJson : Hashing → Type 0
IsJson h = (q : Argon2Params) (b : Bytes) → h.marshal q ≡ some b → h.unmarshal b ≡ some q

abbrev pub new_password_service : PasswordService
new_password_service = record {
  current_ver = 1;
  cur = record { time = 3; memory = 64 * 1024; threads = 1; key_len = 32; salt_len = 16 };
  algo_name = "argon2id";
}

abbrev pub key_of : Hashing → Bytes → Bytes → Argon2Params → Bytes
key_of h password salt q = h.id_key password salt q.time q.memory q.threads q.key_len

-- The part of `Hash` that has its salt.
abbrev hash_with : Hashing → PasswordService → Bytes → Bytes → Result PasswordError Credential
hash_with h p password salt = elim (h.marshal p.cur) [
  | none ↦ err marshal_failed
  | some b ↦ ok (record {
    hash = key_of h password salt p.cur;
    salt = salt;
    params_json = b;
    algo = p.algo_name;
    password_ver = p.current_ver;
  })
]

unfoldable pub hash : Hashing → PasswordService → Bytes → Result PasswordError Credential
hash h p password =
    if length password == 0 then err empty_password else elim (h.random p.cur.salt_len) [
      | none ↦ err random_failed
      | some salt ↦ hash_with h p password salt
    ]

-- The policy under which a hash was made is not the current one.
abbrev pub is_outdated : PasswordService → Credential → Argon2Params → Bool
is_outdated p cred stored =
    not (cred.password_ver == p.current_ver)
    || (not (stored.time == p.cur.time)
        || (not (stored.memory == p.cur.memory)
            || (not (stored.threads == p.cur.threads)
                || (not (stored.key_len == p.cur.key_len)
                    || not (stored.salt_len == p.cur.salt_len)))))

-- `Verify` with the parameters that stand with the hash: rehash needed, and password right.
abbrev verify_with : Hashing → PasswordService → Bytes → Credential → Argon2Params → Bool × Bool
verify_with h p password cred stored =
    let right = key_of h password cred.salt stored == cred.hash in
    (right && is_outdated p cred stored, right)

unfoldable pub verify : Hashing → PasswordService → Bytes → Credential → Bool × Bool
verify h p password cred =
    if not (cred.algo == p.algo_name) then (true, false) else elim (h.unmarshal cred.params_json) [
      | none ↦ (true, false)
      | some stored ↦ verify_with h p password cred stored
    ]

-- A password that a service has hashed is right at every service of the same algorithm, whatever its
-- policy; a new hash is asked for exactly if the version or a parameter of the policy differs.
pub verify-hash :
    (h : Hashing) (p q : PasswordService) (password : Bytes) (cred : Credential)
    → IsJson h
    → q.algo_name ≡ p.algo_name
    → hash h p password ≡ ok cred
    → verify h q password cred ≡ (is_outdated q cred p.cur, true)
unfolding hash verify
verify-hash h p q password cred json algo made = elim (Bool-cases (length password == 0)) [
  | inl empty ↦ absurd (ground (arith, empty, made))
  | inr full ↦ elim (Option-cases (h.random p.cur.salt_len)) [
    | inl dry ↦ absurd (ground (arith, full, dry, made))
    | inr (salt, drawn) ↦ elim (Option-cases (h.marshal p.cur)) [
      | inl failed ↦ absurd (ground (arith, full, drawn, failed, made))
      | inr (b, written) ↦
          let kept : Credential = record {
            hash = key_of h password salt p.cur;
            salt = salt;
            params_json = b;
            algo = p.algo_name;
            password_ver = p.current_ver;
          } in
          let same : kept ≡ cred = ground (arith, full, drawn, written, made) in
          let right = ==_refl (key_of h password salt p.cur) in
          let alike : (kept.algo == q.algo_name) ≡ true =
            ap (λ a. p.algo_name == a) algo ∙ ==_refl p.algo_name in
          subst (λ c. verify h q password c ≡ (is_outdated q c p.cur, true)) same
            (rw (alike, json p.cur b written, right) refl)
    ]
  ]
]
