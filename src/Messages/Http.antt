-- ===== src/Messages/Http.antt =====
-- services/messages/internal/transport/http/router.go: sending, history and deletion, from the request to the
-- answer. A request's body comes decoded, its headers and parameters are ASCII bytes; the auth
-- service, google/uuid, base64, JSON and time are a record of parameters.
pub mod Guarded
pub mod Reading
pub mod Deletion
use secu_msg_server.Common.{
  ℕ, ◌+◌, Bool, true, false, if◌then◌else◌, ◌==◌, nat_eq, list_eq, string_eq, ◌&&◌, ◌||◌, not, leb,
  ltb, Option, none, some, List, [], ◌∷◌, map, take, drop, length, String, Action, Result, ok, err,
  pure, raise, raise_if, or_raise, lift, ◌>>=◌, ◌>>◌,
}
use secu_msg_server.Bytes.{Bytes, utf8}
use secu_msg_server.Text.{trim_space}
use secu_msg_server.Uuid.{Uuids}
use secu_msg_server.Messages.Store.{Message, MessagesError, invalid_request, database, MessageDb}
use secu_msg_server.Messages.Service.{SendInput, enqueue, history, conversations, delete_for_device}

-- auth.Claims
pub record Claims : Type 0 where
  pub valid : Bool
  pub user_id : ℕ
  pub session_id : ℕ
  pub token_device_id : Option ℕ
  pub device_authorized : Bool

pub record Web : Type 0 where
  -- auth.Client.Verify of a token and a device.
  pub verify : Bytes → ℕ → Result String Claims
  pub uuids : Uuids Bytes
  pub base64_decode : Bytes → Option Bytes
  pub base64_encode : Bytes → Bytes
  -- time.Parse with time.RFC3339Nano.
  pub parse_time : Bytes → Option ℕ
  -- strconv.Atoi; none is an error or a negative number.
  pub atoi : Bytes → Option ℕ

-- The handler; `auth` says whether it has an auth client.
pub record Handler : Type 0 where
  pub web : Web
  pub svc : MessageDb
  pub auth : Bool
  pub batch : ℕ

-- The parts of a request that say who asks.
pub record Credentials : Type 0 where
  pub authorization : Bytes
  pub access_token : Bytes

pub record SendRequest : Type 0 where
  pub conv_id : Bytes
  pub from_device_id : Bytes
  pub to_device_id : Bytes
  pub ciphertext : Bytes
  pub header : Bytes

pub record SendResponse : Type 0 where
  pub id : Bytes
  pub conv_id : Bytes
  pub to_device_id : Bytes
  pub sent_at : ℕ

pub record OutboundEnvelope : Type 0 where
  pub id : Bytes
  pub conv_id : Bytes
  pub from_device_id : Bytes
  pub to_device_id : Bytes
  pub ciphertext : Bytes
  pub header : Bytes
  pub sent_at : ℕ

pub record HistoryParams : Type 0 where
  pub device_id : Bytes
  pub conv_id : Bytes
  pub since : Bytes
  pub limit : Bytes

-- http.Error
pub data HttpError : Type 0 where
  http_error : ℕ → String → HttpError

abbrev lower : ℕ → ℕ
lower c = if leb 65 c && leb c 90 then c + 32 else c

unfoldable pub extract_token : Credentials → Bytes
extract_token r =
    let authz = trim_space r.authorization in
    if take 7 (map lower authz) == utf8 "bearer "
    then trim_space (drop 7 authz)
    else trim_space r.access_token

-- The tests of the claims that the auth service gave.
abbrev check_answer : ℕ → Result String Claims → Result HttpError Claims
check_answer device (err e) = err (http_error 401 "authorization failed")
check_answer device (ok c) =
    if not c.valid
    then err (http_error 401 "invalid token")
    else if not (device == 0) && not c.device_authorized
    then err (http_error 403 "device not authorized for user")
    else ok c

unfoldable pub require_auth : Handler → Credentials → ℕ → Result HttpError Claims
require_auth h r device =
    let token = extract_token r in
    if not h.auth
    then err (http_error 500 "authorization not configured")
    else if token == []
    then err (http_error 401 "missing bearer token")
    else check_answer device (h.web.verify token device)

-- The answer to an error of the service.
abbrev pub served :
    {A : Type 0} → Action (List Message) MessagesError A → Action (List Message) HttpError A
served m t =
    let (r, t') = m t in
    (
      elim r [
        | ok a ↦ ok a
        | err e ↦ err (elim e [
          | invalid_request ↦ http_error 400 "service: invalid request"
          | database text ↦ http_error 500 text
        ])
      ],
      t',
    )

module _ (h : Handler) where
  abbrev pub send_response : Message → SendResponse
  send_response m = record {
    id = h.web.uuids.to_string m.id;
    conv_id = h.web.uuids.to_string m.conv_id;
    to_device_id = h.web.uuids.to_string m.to_device_id;
    sent_at = m.sent_at;
  }

  -- The rest of handleSend once the request is authorized.
  unfoldable pub store_message :
      ℕ → ℕ → ℕ → ℕ → SendRequest → Action (List Message) HttpError Message
  store_message now conv from to req = do
    ciphertext ← or_raise (h.web.base64_decode req.ciphertext) (http_error 400 "invalid ciphertext")
    served (
        enqueue h.svc now (record {
          conv_id = conv;
          from_device_id = from;
          to_device_id = to;
          ciphertext = ciphertext;
          header = req.header;
        }))

  -- handleSend; a body that cannot be decoded is none.
  unfoldable pub handle_send :
      ℕ → String → Credentials → Option SendRequest → Action (List Message) HttpError SendResponse
  handle_send now method who body = do
    raise_if (not (method == "POST")) (http_error 405 "method not allowed")
    req ← or_raise body (http_error 400 "bad request")
    conv ← or_raise (h.web.uuids.parse req.conv_id) (http_error 400 "invalid conv_id")
    from ← or_raise (h.web.uuids.parse req.from_device_id) (http_error 400 "invalid from_device_id")
    to ← or_raise (h.web.uuids.parse req.to_device_id) (http_error 400 "invalid to_device_id")
    raise_if (length req.header == 0 || not (h.svc.json_valid req.header))
        (http_error 400 "invalid header")
    lift (require_auth h who from)
    m ← store_message now conv from to req
    pure (send_response m)

  abbrev pub envelope_of : Message → OutboundEnvelope
  envelope_of m = record {
    id = h.web.uuids.to_string m.id;
    conv_id = h.web.uuids.to_string m.conv_id;
    from_device_id = h.web.uuids.to_string m.from_device_id;
    to_device_id = h.web.uuids.to_string m.to_device_id;
    ciphertext = h.web.base64_encode m.ciphertext;
    header = m.header;
    sent_at = m.sent_at;
  }

  -- A parameter that may be missing, which then is the zero value.
  abbrev pub optional : (Bytes → Option ℕ) → Bytes → Option ℕ
  optional read s = if s == [] then some 0 else read s

  unfoldable pub limit_param : Bytes → ℕ
  limit_param s =
      if s == []
      then h.batch
      else elim (h.web.atoi s) [ none ↦ h.batch | some v ↦ if ltb 0 v then v else h.batch ]

  -- handleHistory
  unfoldable pub handle_history :
      String → Credentials → HistoryParams → Action (List Message) HttpError (List OutboundEnvelope)
  handle_history method who params = do
    raise_if (not (method == "GET")) (http_error 405 "method not allowed")
    raise_if (params.device_id == []) (http_error 400 "device_id is required")
    device ← or_raise (h.web.uuids.parse params.device_id) (http_error 400 "invalid device_id")
    conv ← or_raise (optional h.web.uuids.parse params.conv_id) (http_error 400 "invalid conv_id")
    since ←
        or_raise (optional h.web.parse_time params.since) (http_error 400 "invalid since timestamp")
    lift (require_auth h who device)
    ms ← served (history h.svc device since conv (limit_param params.limit))
    pure (map envelope_of ms)

  -- handleConversations
  unfoldable pub handle_conversations :
      String → Credentials → Bytes → Action (List Message) HttpError (List Bytes)
  handle_conversations method who raw = do
    raise_if (not (method == "GET")) (http_error 405 "method not allowed")
    let param : Bytes = trim_space raw
    raise_if (param == []) (http_error 400 "device_id is required")
    device ← or_raise (h.web.uuids.parse param) (http_error 400 "invalid device_id")
    lift (require_auth h who device)
    ids ← served (conversations h.svc device)
    pure (map h.web.uuids.to_string ids)

  -- The device of handleDeleteMe: the one named, or else that of the token.
  unfoldable pub deletion_device : ℕ → Claims → Option ℕ
  deletion_device device c = if device == 0 then c.token_device_id else some device

  -- handleDeleteMe, with the number of messages of its answer.
  unfoldable pub handle_delete_me :
      ℕ → String → Credentials → Bytes → Action (List Message) HttpError ℕ
  handle_delete_me now method who raw = do
    raise_if (not (method == "DELETE")) (http_error 405 "method not allowed")
    named ←
        or_raise (optional h.web.uuids.parse (trim_space raw)) (http_error 400 "invalid device_id")
    claims ← lift (require_auth h who named)
    device ← or_raise (deletion_device named claims) (http_error 400 "device_id is required")
    served (delete_for_device h.svc now device)
