-- ===== src/CryptoCore/State.antt =====
-- Export and import of devices and sessions: services/crypto-core/state.go. A field tagged
-- `omitempty` that is an empty map goes out as nil, which is the empty map here. Base64 is that of
-- the standard library, as a codec. A `range` visits the entries in the order of the list.
pub mod RoundTrip
use secu_msg_server.Common.{
  ℕ, String, Option, none, some, if◌then◌else◌, not, ◌==◌, nat_eq, list_eq, length, [], ◌∷◌, Map,
  insert, Eq, copy_map, Action, pure, raise, raise_if, or_raise, ◌>>=◌, ◌>>◌, ◌≡◌,
}
use secu_msg_server.Bytes.{Bytes, array}
use secu_msg_server.CryptoCore.Types.{
  Device, KeyPair, OneTimeEntry, IdentityKeyPair, SessionState, SessionRole, ChainState,
  CryptoError, decode,
}

-- base64.StdEncoding; none is a decoding error.
pub record Base64 : Type 0 where
  pub encode_to_string : Bytes → String
  pub decode_string : String → Option Bytes

-- What encoding/base64 documents: decoding undoes encoding.
abbrev pub IsInverse : Base64 → Type 0
IsInverse c = (b : Bytes) → c.decode_string (c.encode_to_string b) ≡ some b

pub record X25519KeyPairState : Type 0 where
  pub private : String
  pub public : String

pub record DeviceState : Type 0 where
  pub signing_private : String
  pub signing_public : String
  pub dh_private : String
  pub dh_public : String
  pub signed_prekey : X25519KeyPairState
  pub signed_prekey_sig : String
  pub one_time : Map ℕ X25519KeyPairState
  pub next_otk_id : ℕ

pub record ChainStateSnapshot : Type 0 where
  pub key : String
  pub index : ℕ

pub record SessionStateSnapshot : Type 0 where
  pub root_key : String
  pub send_chain : ChainStateSnapshot
  pub recv_chain : ChainStateSnapshot
  pub ratchet_private : String
  pub ratchet_public : String
  pub remote_ratchet : String
  pub remote_identity : String
  pub remote_signature : String
  pub pn : ℕ
  pub role : SessionRole
  pub pending_prekey : Option ℕ
  pub skipped : Map Bytes String

-- `base64.StdEncoding.DecodeString` with the error wrapped.
abbrev pub decode_or : {S : Type 0} → Base64 → String → String → Action S CryptoError Bytes
decode_or c label text = or_raise (c.decode_string text) (decode label)

-- `decodeFixed`, with its error wrapped by the caller; the result is a copy of `size` bytes.
unfoldable pub decode_fixed :
    {S : Type 0} → Base64 → String → ℕ → String → Action S CryptoError Bytes
decode_fixed c label size text = do
  b ← decode_or c label text
  raise_if (not (length b == size)) (decode label)
  pure (array size b)

-- A loop over a map that decodes each value into a fresh map and returns at the first error.
unfoldable pub decode_map :
    {S K V W : Type 0} ⦃e : Eq K⦄
    → (V → Action S CryptoError W)
    → Map K V
    → Map K W
    → Action S CryptoError (Map K W)
decode_map f [] acc = pure acc
decode_map f ((k, v) ∷ m) acc = do w ← f v; decode_map f m (insert k w acc)

abbrev pub export_pair : Base64 → KeyPair → X25519KeyPairState
export_pair c kp = record {
  private = c.encode_to_string kp.private;
  public = c.encode_to_string kp.public;
}

-- `Device.Export`
unfoldable pub export_device : Base64 → Device → DeviceState
export_device c d = record {
  signing_private = c.encode_to_string d.identity.signing_private;
  signing_public = c.encode_to_string d.identity.signing_public;
  dh_private = c.encode_to_string d.identity.dh_private;
  dh_public = c.encode_to_string d.identity.dh_public;
  signed_prekey = export_pair c d.signed_prekey;
  signed_prekey_sig = c.encode_to_string d.signed_sig;
  one_time = copy_map (λ (entry : OneTimeEntry). export_pair c entry.key) d.one_time [];
  next_otk_id = d.next_otk_id;
}

-- The body of the loop over the one-time prekeys of `ImportDevice`.
unfoldable pub import_one_time :
    {S : Type 0} → Base64 → X25519KeyPairState → Action S CryptoError OneTimeEntry
unfolding decode_fixed
import_one_time c kp = do
  private ← decode_fixed c "cryptocore: decode one-time private" 32 kp.private
  public ← decode_fixed c "cryptocore: decode one-time public" 32 kp.public
  pure (record { key = record { private = array 32 private; public = array 32 public } })

-- `ImportDevice`
unfoldable pub import_device : {S : Type 0} → Base64 → DeviceState → Action S CryptoError Device
import_device c state = do
  signing_private ← decode_or c "cryptocore: decode signing private" state.signing_private
  signing_public ← decode_or c "cryptocore: decode signing public" state.signing_public
  dh_private ← decode_fixed c "cryptocore: decode dh private" 32 state.dh_private
  dh_public ← decode_fixed c "cryptocore: decode dh public" 32 state.dh_public
  private ← decode_fixed c "cryptocore: decode signed prekey private" 32 state.signed_prekey.private
  public ← decode_fixed c "cryptocore: decode signed prekey public" 32 state.signed_prekey.public
  sig ← decode_or c "cryptocore: decode signed prekey sig" state.signed_prekey_sig
  one_time ← decode_map (import_one_time c) state.one_time []
  pure (record {
    identity = record {
      signing_public = signing_public;
      signing_private = signing_private;
      dh_private = array 32 dh_private;
      dh_public = array 32 dh_public;
    };
    signed_prekey = record { private = array 32 private; public = array 32 public };
    signed_sig = sig;
    one_time = one_time;
    next_otk_id = state.next_otk_id;
  })

unfoldable pub export_chain : Base64 → ChainState → ChainStateSnapshot
export_chain c cs = record { key = c.encode_to_string cs.key; index = cs.index }

unfoldable pub import_chain :
    {S : Type 0} → Base64 → ChainStateSnapshot → Action S CryptoError ChainState
import_chain c cs = do
  key ← decode_fixed c "cryptocore: decode chain key" 32 cs.key
  pure (record { key = array 32 key; index = cs.index })

unfoldable pub export_session : Base64 → SessionState → SessionStateSnapshot
unfolding export_chain
export_session c s = record {
  root_key = c.encode_to_string s.root_key;
  send_chain = export_chain c s.send_chain;
  recv_chain = export_chain c s.recv_chain;
  ratchet_private = c.encode_to_string s.ratchet_private;
  ratchet_public = c.encode_to_string s.ratchet_public;
  remote_ratchet = c.encode_to_string s.remote_ratchet;
  remote_identity = c.encode_to_string s.remote_identity;
  remote_signature = c.encode_to_string s.remote_signature;
  pn = s.pn;
  role = s.role;
  pending_prekey = s.pending_prekey;
  skipped = copy_map c.encode_to_string s.skipped [];
}

-- The body of the loop over the skipped keys of `ImportSession`.
unfoldable pub import_skipped : {S : Type 0} → Base64 → String → Action S CryptoError Bytes
unfolding decode_fixed
import_skipped c v = do
  key ← decode_fixed c "cryptocore: decode skipped key" 32 v
  pure (array 32 key)

unfoldable pub import_session :
    {S : Type 0} → Base64 → SessionStateSnapshot → Action S CryptoError SessionState
import_session c snapshot = do
  root ← decode_fixed c "cryptocore: decode root key" 32 snapshot.root_key
  send ← import_chain c snapshot.send_chain
  recv ← import_chain c snapshot.recv_chain
  ratchet_private ← decode_fixed c "cryptocore: decode ratchet private" 32 snapshot.ratchet_private
  ratchet_public ← decode_fixed c "cryptocore: decode ratchet public" 32 snapshot.ratchet_public
  remote_ratchet ← decode_fixed c "cryptocore: decode remote ratchet" 32 snapshot.remote_ratchet
  remote_identity ← decode_fixed c "cryptocore: decode remote identity" 32 snapshot.remote_identity
  remote_signature ← decode_or c "cryptocore: decode remote signature" snapshot.remote_signature
  skipped ← decode_map (import_skipped c) snapshot.skipped []
  pure (record {
    root_key = array 32 root;
    send_chain = send;
    recv_chain = recv;
    ratchet_private = array 32 ratchet_private;
    ratchet_public = array 32 ratchet_public;
    remote_ratchet = array 32 remote_ratchet;
    remote_identity = array 32 remote_identity;
    remote_signature = remote_signature;
    pn = snapshot.pn;
    role = snapshot.role;
    pending_prekey = snapshot.pending_prekey;
    skipped = skipped;
  })
