-- ===== src/CryptoCore/Checked.antt =====
-- The exported functions of services/crypto-core as they are called, with pointers that may be nil:
-- each tests its pointers first, in the order of the source, and then does the work.
use secu_msg_server.Common.{Option, none, some, ℤ, Action, Result, ok, err, raise, []}
use secu_msg_server.Bytes.{Bytes, zero_array}
use secu_msg_server.CryptoCore.Types.{
  Device, PrekeyBundle, HandshakeMessage, SessionState, MessageHeader, CryptoError, nil_device,
  nil_bundle, nil_handshake, nil_session, nil_header, nil_device_state, nil_session_snapshot,
}
use secu_msg_server.CryptoCore.Primitives.{Primitives}
use secu_msg_server.CryptoCore.Random.{Run}
use secu_msg_server.CryptoCore.Device.{publish_prekey_bundle, identity_public}
use secu_msg_server.CryptoCore.Session.{init_session, accept_session}
use secu_msg_server.CryptoCore.Ratchet.{
  rotate_ratchet_on_send, rotate_ratchet_on_recv, encrypt, decrypt,
}
use secu_msg_server.CryptoCore.State.{
  Base64, DeviceState, SessionStateSnapshot, export_device, import_device, export_session,
  import_session,
}

-- A call through a pointer to the state.
abbrev pub at_pointer :
    {S A : Type 0} → CryptoError → Action S CryptoError A → Action (Option S) CryptoError A
at_pointer e m none = (err e, none)
at_pointer e m (some s) = let (r, s') = m s in (r, some s')

-- The same next to the random source.
abbrev pub run_pointer :
    {S A : Type 0}
    → CryptoError
    → Action (Run S) CryptoError A
    → Action (Run (Option S)) CryptoError A
run_pointer {S} {A} e m r = go r.state
  where
    go : Option S → Result CryptoError A × Run (Option S)
    go none = (err e, r)
    go (some s) =
        let (a, r') = m (record { state = s; random = r.random }) in
        (a, record { state = some r'.state; random = r'.random })

-- An argument that must not be nil.
abbrev pub given :
    {S A B : Type 0}
    → CryptoError
    → (B → Action S CryptoError A)
    → Option B
    → Action S CryptoError A
given e f none = raise e
given e f (some b) = f b

pub checked_publish : Primitives → ℤ → Action (Run (Option Device)) CryptoError PrekeyBundle
checked_publish p count = run_pointer nil_device (publish_prekey_bundle p count)

-- `IdentityPublic`: zero keys for a nil device.
pub checked_identity_public : Option Device → Bytes × Bytes
checked_identity_public none = (zero_array 32, [])
checked_identity_public (some d) = identity_public d

pub checked_init :
    Primitives
    → Option Device
    → Option PrekeyBundle
    → Action Bytes CryptoError (SessionState × HandshakeMessage)
checked_init p d b = given nil_device (λ d'. given nil_bundle (init_session p d') b) d

pub checked_accept :
    Primitives → Option HandshakeMessage → Action (Option Device) CryptoError SessionState
checked_accept p msg = at_pointer nil_device (given nil_handshake (accept_session p) msg)

pub checked_encrypt :
    Primitives → Bytes → Action (Run (Option SessionState)) CryptoError (Bytes × MessageHeader)
checked_encrypt p plaintext = run_pointer nil_session (encrypt p plaintext)

pub checked_decrypt :
    Primitives → Bytes → Option MessageHeader → Action (Option SessionState) CryptoError Bytes
checked_decrypt p ciphertext h = at_pointer nil_session (given nil_header (decrypt p ciphertext) h)

pub checked_rotate_on_send : Primitives → Action (Run (Option SessionState)) CryptoError (Unit {0})
checked_rotate_on_send p = run_pointer nil_session (rotate_ratchet_on_send p)

pub checked_rotate_on_recv :
    Primitives → Option MessageHeader → Action (Option SessionState) CryptoError (Unit {0})
checked_rotate_on_recv p h = at_pointer nil_session (given nil_header (rotate_ratchet_on_recv p) h)

pub checked_export_device : Base64 → Option Device → Result CryptoError DeviceState
checked_export_device c none = err nil_device
checked_export_device c (some d) = ok (export_device c d)

pub checked_import_device : {S : Type 0} → Base64 → Option DeviceState → Action S CryptoError Device
checked_import_device c = given nil_device_state (import_device c)

pub checked_export_session : Base64 → Option SessionState → Result CryptoError SessionStateSnapshot
checked_export_session c none = err nil_session
checked_export_session c (some s) = ok (export_session c s)

pub checked_import_session :
    {S : Type 0} → Base64 → Option SessionStateSnapshot → Action S CryptoError SessionState
checked_import_session c = given nil_session_snapshot (import_session c)
