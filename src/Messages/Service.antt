-- ===== src/Messages/Service.antt =====
-- services/messages/internal/service/service.go. `now` is what the service's clock gives in the call;
-- logging and metrics have no part in the model.
use secu_msg_server.Common.{
  ℕ, Bool, ◌==◌, nat_eq, ◌||◌, none, List, [], ◌∷◌, length, Action, pure, raise_if, ◌>>◌,
}
use secu_msg_server.Bytes.{Bytes}
use secu_msg_server.Messages.Store.{
  Message, MessagesError, invalid_request, MessageDb, create_message, pending_for_device,
  conversations_for_device, find_history, set_delivered, delete_messages,
}

pub record SendInput : Type 0 where
  pub conv_id : ℕ
  pub from_device_id : ℕ
  pub to_device_id : ℕ
  pub ciphertext : Bytes
  pub header : Bytes

-- The two tests of `Enqueue`.
abbrev pub is_incomplete : SendInput → Bool
is_incomplete x =
    (x.conv_id == 0 || x.from_device_id == 0 || x.to_device_id == 0)
    || (length x.ciphertext == 0 || length x.header == 0)

-- The row that `Enqueue` writes; its identifier is not set yet.
abbrev pub message_of : ℕ → SendInput → Message
message_of now x = record {
  id = 0;
  conv_id = x.conv_id;
  from_device_id = x.from_device_id;
  to_device_id = x.to_device_id;
  ciphertext = x.ciphertext;
  header = x.header;
  sent_at = now;
  received_at = none;
  delivered_at = none;
  deleted_at = none;
}

module _ (db : MessageDb) where
  unfoldable pub enqueue : ℕ → SendInput → Action (List Message) MessagesError Message
  enqueue now x = raise_if (is_incomplete x) invalid_request >> create_message db (message_of now x)

  unfoldable pub pending : ℕ → ℕ → Action (List Message) MessagesError (List Message)
  pending device limit =
      raise_if (device == 0) invalid_request >> pending_for_device db device limit

  -- An empty list of ids is left to the store, which does nothing either.
  unfoldable pub mark_delivered : ℕ → List ℕ → Action (List Message) MessagesError (Unit {0})
  mark_delivered now [] = pure tt
  mark_delivered now (id ∷ ids) = set_delivered db (id ∷ ids) now

  unfoldable pub history : ℕ → ℕ → ℕ → ℕ → Action (List Message) MessagesError (List Message)
  history device since conv limit =
      raise_if (device == 0) invalid_request
      >> find_history db
          (record { device_id = device; conv_id = conv; since = since; limit = limit })

  unfoldable pub conversations : ℕ → Action (List Message) MessagesError (List ℕ)
  conversations device =
      raise_if (device == 0) invalid_request >> conversations_for_device db device

  unfoldable pub delete_for_device : ℕ → ℕ → Action (List Message) MessagesError ℕ
  delete_for_device now device =
      raise_if (device == 0) invalid_request >> delete_messages db now device
