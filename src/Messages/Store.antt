-- ===== src/Messages/Store.antt =====
-- services/messages/internal/store/message.go. gorm and Postgres are a record of parameters; a query
-- on this model leaves out the rows with a deleted_at, which is how gorm treats gorm.DeletedAt. A
-- uuid.UUID and a time.Time are numbers, and uuid.Nil and the zero time are 0. A row of the table is a
-- Message with what the columns keep: the text of a jsonb column is not the one that was written, and
-- a timestamptz is coarser than a time.Time. json.Valid is a parameter too.
use secu_msg_server.Common.{
  ℕ, zero, suc, Bool, true, false, if◌then◌else◌, ◌==◌, nat_eq, ◌&&◌, ◌||◌, ltb, Option, none, some,
  List, [], ◌∷◌, ◌++◌, get_elem?, String, Action, Result, ok, err, pure, lift, get, modify, ◌>>=◌,
  ◌>>◌, ◌≡◌,
}
use secu_msg_server.Bytes.{Bytes}
use secu_msg_server.Messages.Json.{JsonError, json_value}

pub record Message : Type 0 where
  pub id : ℕ
  pub conv_id : ℕ
  pub from_device_id : ℕ
  pub to_device_id : ℕ
  pub ciphertext : Bytes
  pub header : Bytes
  pub sent_at : ℕ
  pub received_at : Option ℕ
  pub delivered_at : Option ℕ
  pub deleted_at : Option ℕ

pub data MessagesError : Type 0 where
  invalid_request : MessagesError
  database : String → MessagesError

abbrev pub is_null : Option ℕ → Bool
is_null none = true
is_null (some at) = false

abbrev pub is_live : Message → Bool
is_live m = is_null m.deleted_at

-- The live rows that pass the test, rewritten.
abbrev pub update_live : (Message → Bool) → (Message → Message) → List Message → List Message
update_live test f [] = []
update_live test f (m ∷ t) = (if is_live m && test m then f m else m) ∷ update_live test f t

abbrev pub count_live : (Message → Bool) → List Message → ℕ
count_live test [] = 0
count_live test (m ∷ t) = if is_live m && test m then suc (count_live test t) else count_live test t

pub record MessageDb : Type 0 where
  -- json.Valid of encoding/json.
  pub json_valid : Bytes → Bool
  -- The text that Postgres gives out for a jsonb column into which a document was written.
  pub jsonb : Bytes → Bytes
  -- A time as a timestamptz column keeps it.
  pub timestamptz : ℕ → ℕ
  -- Create, which fills in the identifier and, since it has a default too, the time of sending.
  pub create : Message → List Message → Result MessagesError (Message × List Message)
  -- Find with Where, Order and Limit (no limit is none).
  pub find :
      (Message → Bool)
      → (Message → Message → Bool)
      → Option ℕ
      → List Message
      → Result MessagesError (List Message)
  -- Select of distinct conv_id with Where, in ascending order.
  pub scan_conversations : (Message → Bool) → List Message → Result MessagesError (List ℕ)
  pub update :
      (Message → Bool) → (Message → Message) → List Message → Result MessagesError (List Message)
  -- Delete with Where: a soft delete at the time given, with the number of rows.
  pub delete : ℕ → (Message → Bool) → List Message → Result MessagesError (ℕ × List Message)

-- A message that Create has filled in, as it is read from the table.
abbrev pub as_stored : MessageDb → Message → Message
as_stored db m = record m { header = db.jsonb m.header }

-- What gorm and Postgres document of the statements that succeed.
pub record Laws (db : MessageDb) : Type 0 where
  pub created :
      (m m' : Message) (t t' : List Message)
      → db.create m t ≡ ok (m', t')
      → (m' ≡ record m { id = m'.id; sent_at = db.timestamptz m.sent_at })
        × (t' ≡ t ++ as_stored db m' ∷ [])
  pub found :
      (test : Message → Bool) (before : Message → Message → Bool) (limit : Option ℕ)
      (t ms : List Message) (i : ℕ) (m : Message)
      → db.find test before limit t ≡ ok ms
      → get_elem? ms i ≡ some m
      → (j : ℕ) × (get_elem? t j ≡ some m) × (is_live m ≡ true) × (test m ≡ true)
  pub found_all :
      (test : Message → Bool) (before : Message → Message → Bool) (t ms : List Message) (j : ℕ)
      (m : Message)
      → db.find test before none t ≡ ok ms
      → get_elem? t j ≡ some m
      → is_live m ≡ true
      → test m ≡ true
      → (i : ℕ) × (get_elem? ms i ≡ some m)
  pub updated :
      (test : Message → Bool) (f : Message → Message) (t t' : List Message)
      → db.update test f t ≡ ok t'
      → t' ≡ update_live test f t
  pub deleted :
      (now : ℕ) (test : Message → Bool) (n : ℕ) (t t' : List Message)
      → db.delete now test t ≡ ok (n, t')
      → (t' ≡ update_live test (λ m. record m { deleted_at = some (db.timestamptz now) }) t)
        × (n ≡ count_live test t)

-- No query and no insertion fails.
pub record IsUp (db : MessageDb) : Type 0 where
  pub create_ok :
      (m : Message) (t : List Message)
      → (m' : Message) × (t' : List Message) × (db.create m t ≡ ok (m', t'))
  pub find_ok :
      (test : Message → Bool) (before : Message → Message → Bool) (limit : Option ℕ)
      (t : List Message)
      → (ms : List Message) × (db.find test before limit t ≡ ok ms)

abbrev pub older : Message → Message → Bool
older m n = ltb m.sent_at n.sent_at

-- `if limit > 0 { tx = tx.Limit(limit) }`; a negative limit is none, as 0 is.
abbrev pub limit_of : ℕ → Option ℕ
limit_of zero = none
limit_of (suc n) = some (suc n)

abbrev pub member : ℕ → List ℕ → Bool
member k [] = false
member k (x ∷ xs) = x == k || member k xs

pub record HistoryFilter : Type 0 where
  pub device_id : ℕ
  pub conv_id : ℕ
  pub since : ℕ
  pub limit : ℕ

abbrev pub is_pending : ℕ → Message → Bool
is_pending device m = m.to_device_id == device && is_null m.delivered_at

abbrev pub in_history : (ℕ → ℕ) → HistoryFilter → Message → Bool
in_history timestamptz f m =
    m.to_device_id == f.device_id
    && (f.conv_id == 0 || m.conv_id == f.conv_id)
    && (f.since == 0 || ltb (timestamptz f.since) m.sent_at)

abbrev pub touches : ℕ → Message → Bool
touches device m = m.to_device_id == device || m.from_device_id == device

-- An error of a driver.Valuer is the error of the statement.
abbrev pub driver_value : Result JsonError Bytes → Result MessagesError Bytes
driver_value (ok document) = ok document
driver_value (err e) = err (database "msgjson.JSON: invalid JSON value")

module _ (db : MessageDb) where
  -- Store.Create
  -- The header is written as msgjson.JSON's Value gives it out; the message keeps its own.
  unfoldable pub create_message : Message → Action (List Message) MessagesError Message
  create_message m = do
    document ← lift (driver_value (json_value db.json_valid m.header))
    t ← get
    (m', t') ← lift (db.create (record m { header = document }) t)
    modify (λ _. t')
    pure (record m { id = m'.id; sent_at = m'.sent_at })

  -- Store.PendingForDevice
  unfoldable pub pending_for_device : ℕ → ℕ → Action (List Message) MessagesError (List Message)
  pending_for_device device limit = do
    t ← get
    lift (db.find (is_pending device) older (limit_of limit) t)

  -- Store.ConversationsForDevice
  unfoldable pub conversations_for_device : ℕ → Action (List Message) MessagesError (List ℕ)
  conversations_for_device device = do
    t ← get
    lift (db.scan_conversations (λ m. m.to_device_id == device) t)

  -- Store.History
  unfoldable pub find_history : HistoryFilter → Action (List Message) MessagesError (List Message)
  find_history f = do
    t ← get
    lift (db.find (in_history db.timestamptz f) older (limit_of f.limit) t)

  -- Store.MarkDelivered
  unfoldable pub set_delivered : List ℕ → ℕ → Action (List Message) MessagesError (Unit {0})
  set_delivered [] at = pure tt
  set_delivered (id ∷ ids) at = do
    t ← get
    t' ← lift (
        db.update (λ m. member m.id (id ∷ ids))
          (λ m. record m { delivered_at = some (db.timestamptz at) }) t)
    modify (λ _. t')

  -- The query of Store.DeleteForDevice.
  unfoldable pub soft_delete : ℕ → ℕ → Action (List Message) MessagesError ℕ
  soft_delete now device = do
    t ← get
    (n, t') ← lift (db.delete now (touches device) t)
    modify (λ _. t')
    pure n

  -- Store.DeleteForDevice
  unfoldable pub delete_messages : ℕ → ℕ → Action (List Message) MessagesError ℕ
  delete_messages now device = if device == 0 then pure 0 else soft_delete now device
