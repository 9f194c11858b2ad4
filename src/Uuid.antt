-- ===== src/Uuid.antt =====
-- github.com/google/uuid as a record of parameters, over the type of texts that the caller uses. A
-- uuid.UUID is a number, and uuid.Nil is 0.
use secu_msg_server.Common.{ℕ, Option, some, ◌≡◌, sym, ap, ◌∙◌, arith}

-- uuid.Parse, uuid.UUID.String and the identifiers that uuid.New draws, one after the other.
pub record Uuids (T : Type 0) : Type 0 where
  pub parse : T → Option ℕ
  pub to_string : ℕ → T
  pub drawn : ℕ → ℕ

-- What google/uuid documents: a printed identifier is read back.
abbrev pub IsPrinted : {T : Type 0} → Uuids T → Type 0
IsPrinted u = (id : ℕ) → u.parse (u.to_string id) ≡ some id

pub to_string_injective :
    {T : Type 0} (u : Uuids T) → IsPrinted u → (i j : ℕ) → u.to_string i ≡ u.to_string j → i ≡ j
to_string_injective u printed i j e =
    let same : some i ≡ some j = sym (printed i) ∙ ap u.parse e ∙ printed j in ground (arith, same)
