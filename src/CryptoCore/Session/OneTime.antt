-- ===== src/CryptoCore/Session/OneTime.antt =====
-- A one-time prekey serves one handshake: AcceptSession of services/crypto-core/session.go.
use secu_msg_server.Common.{
  ℕ, ◌≡◌, none, some, Option, lookup, nat_eq, arith, err, ap, ◌∙◌, lookup-delete_self,
}
use secu_msg_server.CryptoCore.Types.{Device, KeyPair, HandshakeMessage, missing_one_time_key}
use secu_msg_server.CryptoCore.Primitives.{Primitives}
use secu_msg_server.CryptoCore.Session.{
  derive_shared_secret_responder, accept_session, take_one_time_key,
}

module _ (p : Primitives) where
  -- The exchanges read the device only.
  derive_responder_state :
      (d : Device) (msg : HandshakeMessage) (held : Option KeyPair) (s : Device)
      → (derive_shared_secret_responder p d msg held s).1 ≡ s
  unfolding derive_shared_secret_responder
  derive_responder_state d msg none s = ground arith
  derive_responder_state d msg (some kp) s = ground arith

  -- All that `AcceptSession` does to the device is to take the one-time prekey.
  accept_session_state :
      (msg : HandshakeMessage) (d : Device)
      → (accept_session p msg d).1 ≡ (take_one_time_key msg.one_time_prekey_id d).1
  unfolding accept_session
  accept_session_state msg d = grind (arith, derive_responder_state)

  take_gone : (id : ℕ) (d : Device) → lookup id (take_one_time_key (some id) d).1.one_time ≡ none
  unfolding take_one_time_key
  take_gone id d = ground (arith, lookup-delete_self id d.one_time)

  take_missing :
      (id : ℕ) (d : Device)
      → lookup id d.one_time ≡ none
      → take_one_time_key (some id) d ≡ (err missing_one_time_key, d)
  unfolding take_one_time_key
  take_missing id d h = ground arith

  accept_session_refused :
      (msg : HandshakeMessage) (d : Device)
      → take_one_time_key msg.one_time_prekey_id d ≡ (err missing_one_time_key, d)
      → accept_session p msg d ≡ (err missing_one_time_key, d)
  unfolding accept_session
  accept_session_refused msg d h = ground arith

  -- Once a message that names a one-time prekey has been given to `AcceptSession`, whether it was
  -- accepted or not, every message that names the same one is refused, and the device stays as it
  -- is.
  pub accept_session_once :
      (d : Device) (msg msg' : HandshakeMessage) (id : ℕ)
      → msg.one_time_prekey_id ≡ some id
      → msg'.one_time_prekey_id ≡ some id
      → let d' = (accept_session p msg d).1 in
        accept_session p msg' d' ≡ (err missing_one_time_key, d')
  accept_session_once d msg msg' id names names' =
      let d' = (accept_session p msg d).1 in
      let gone : lookup id d'.one_time ≡ none =
        ap (λ t. lookup id t.one_time) (accept_session_state msg d)
        ∙ ap (λ x. lookup id (take_one_time_key x d).1.one_time) names
        ∙ take_gone id d in
      accept_session_refused msg' d'
        (ap (λ x. take_one_time_key x d') names' ∙ take_missing id d' gone)
