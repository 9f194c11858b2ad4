-- ===== src/Messages/HttpTests.antt =====
-- Witnesses for the HTTP handlers of services/messages.
use secu_msg_server.Messages.Http.{
  Claims, handle_delete_me, deletion_device, Web, Handler, Credentials, SendRequest, SendResponse,
  OutboundEnvelope, HistoryParams, extract_token, require_auth, store_message, handle_send,
  handle_history, limit_param, envelope_of,
}
use secu_msg_server.Messages.Http.Deletion.{handle_delete_me_lem}
use secu_msg_server.Messages.Store.{
  update_live, touches, delete_messages, soft_delete, Message, is_live, create_message,
  find_history,
}
use secu_msg_server.Messages.Json.{json_value}
use secu_msg_server.Messages.Service.{delete_for_device, enqueue, history}
use secu_msg_server.Common.{
  ◌⊎◌, ℕ, ◌*◌, ◌/◌, true, ◌==◌, nat_eq, list_eq, string_eq, Option, none, some, List, [], ◌∷◌, ◌++◌,
  map, get_elem?, ok, ◌≡◌, refl,
}
use secu_msg_server.Bytes.{Bytes, utf8}
use secu_msg_server.Messages.Http.Guarded.{IsAuthorized, handle_send-IsAuthorized}
use secu_msg_server.Messages.Http.Reading.{handle_history-IsAuthorized}
use secu_msg_server.Messages.Tests.{db, db-Laws, rows}

abbrev read_byte : Bytes → Option ℕ
read_byte (x ∷ []) = some x
read_byte s = none

-- The auth service knows the token "t", of a user whose device is 3.
abbrev web : Web
web = record {
  verify = λ token device. ok (record {
    valid = token == utf8 "t";
    user_id = 1;
    session_id = 2;
    token_device_id = none;
    device_authorized = device == 3;
  });
  uuids = record { parse = read_byte; to_string = λ id. id ∷ []; drawn = λ n. n };
  base64_decode = λ s. some s;
  base64_encode = λ s. s;
  parse_time = read_byte;
  atoi = read_byte;
}

abbrev handler : Handler
handler = record { web = web; svc = db; auth = true; batch = 50 }

abbrev asker : Credentials
asker = record { authorization = utf8 "Bearer t"; access_token = [] }

abbrev sending : SendRequest
sending = record {
  conv_id = 9 ∷ [];
  from_device_id = 3 ∷ [];
  to_device_id = 4 ∷ [];
  ciphertext = utf8 "c";
  header = utf8 "{ }";
}

abbrev stored : Message
stored = record {
  id = 4;
  conv_id = 9;
  from_device_id = 3;
  to_device_id = 4;
  ciphertext = utf8 "c";
  header = utf8 "{}";
  sent_at = 70;
  received_at = none;
  delivered_at = none;
  deleted_at = none;
}

abbrev answer : SendResponse
answer = record { id = 4 ∷ []; conv_id = 9 ∷ []; to_device_id = 4 ∷ []; sent_at = 70 }

sent_ok : handle_send handler 70 "POST" asker (some sending) rows ≡ (ok answer, rows ++ stored ∷ [])
unfolding handle_send require_auth extract_token store_message enqueue create_message json_value
sent_ok = refl

handle_send-IsAuthorized_example :
    (from : ℕ) × (m : Message) × (web.uuids.parse (3 ∷ []) ≡ some from)
    × (rows ++ stored ∷ [] ≡ rows ++ m ∷ [])
    × (m.from_device_id ≡ from)
    × IsAuthorized handler asker from
handle_send-IsAuthorized_example =
    handle_send-IsAuthorized handler 70 "POST" asker sending answer rows (rows ++ stored ∷ [])
      db-Laws sent_ok

abbrev params : HistoryParams
params = record { device_id = 3 ∷ []; conv_id = []; since = []; limit = [] }

abbrev envelopes : List OutboundEnvelope
envelopes = map (envelope_of handler) rows

read_ok : handle_history handler "GET" asker params rows ≡ (ok envelopes, rows)
unfolding handle_history require_auth extract_token history find_history limit_param
read_ok = refl

handle_history-IsAuthorized_example :
    (device : ℕ) × (ms : List Message) × (web.uuids.parse (3 ∷ []) ≡ some device)
    × IsAuthorized handler asker device
    × (envelopes ≡ map (envelope_of handler) ms)
    × ((i : ℕ) (m : Message)
        → get_elem? ms i ≡ some m
        → (j : ℕ) × (get_elem? rows j ≡ some m) × (is_live m ≡ true) × (m.to_device_id ≡ device))
handle_history-IsAuthorized_example =
    handle_history-IsAuthorized handler "GET" asker params envelopes rows rows db-Laws read_ok

abbrev cleared : List Message
cleared = update_live (touches 3) (λ m. record m { deleted_at = some (90 / 10 * 10) }) rows

delete_ok : handle_delete_me handler 90 "DELETE" asker (3 ∷ []) rows ≡ (ok 3, cleared)
unfolding handle_delete_me deletion_device require_auth extract_token delete_for_device
    delete_messages soft_delete
delete_ok = refl

handle_delete_me_lem_example :
    (device : ℕ) × (cleared
      ≡ update_live (touches device) (λ m. record m { deleted_at = some (90 / 10 * 10) }) rows)
    × (IsAuthorized handler asker device
        ⊎ ((c : Claims) × (web.verify (extract_token asker) 0 ≡ ok c)
            × (c.valid ≡ true)
            × (c.token_device_id ≡ some device)))
handle_delete_me_lem_example =
    handle_delete_me_lem handler 90 3 "DELETE" asker (3 ∷ []) rows cleared db-Laws delete_ok
