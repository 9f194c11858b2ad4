-- ===== src/CryptoCore/SessionTests.antt =====
-- Witnesses of the handshake, the device and the export formats (services/crypto-core core.go,
-- session.go and state.go) on the toy cryptography.
use Prim.Native.Char.{code}
use mathlib.Core.Path.{subst}
use secu_msg_server.Common.{
  ℕ, zero, suc, ◌+◌, ◌<◌, ◌≡◌, refl, true, false, none, some, [], ◌∷◌, ◌++◌, Option, String, lookup,
  nat_eq, clip, pos, ◌==◌, if◌then◌else◌, length, get_elem?, replicate, drop, arith, ok, err,
}
use secu_msg_server.Bytes.{Bytes, zero_array, clamp}
use secu_msg_server.CryptoCore.Types.{
  Device, KeyPair, OneTimeEntry, OneTimePrekey, PrekeyBundle, HandshakeMessage, SessionState,
  initiator, missing_one_time_key,
}
use secu_msg_server.CryptoCore.Sample.{toy, toy-Laws}
use secu_msg_server.CryptoCore.Random.{Run, generate_x25519_key_pair, read_random}
use secu_msg_server.CryptoCore.Device.{generate_identity_keypair, publish_prekey_bundle}
use secu_msg_server.CryptoCore.Device.Identity.{generate_identity_keypair-IsDevice}
use secu_msg_server.CryptoCore.Device.Publish.{AllHeld, Numbered, publish-Offers}
use secu_msg_server.CryptoCore.Session.{init_session, accept_session}
use secu_msg_server.CryptoCore.Session.Handshake.{IsDevice, Offers, Holds}
use secu_msg_server.CryptoCore.Session.Agreement.{handshake_agrees}
use secu_msg_server.CryptoCore.Session.OneTime.{accept_session_once}
use secu_msg_server.CryptoCore.Ratchet.{is_zero_key}
use secu_msg_server.CryptoCore.Ratchet.AnyOrder.{InSync}
use secu_msg_server.CryptoCore.Ratchet.Turn.{CanTurn}
use secu_msg_server.CryptoCore.State.{
  Base64, IsInverse, export_device, import_device, export_session, import_session,
}
use secu_msg_server.CryptoCore.State.RoundTrip.{import_device-export, import_session-export}

-- All that the sessions of this file compute with.
program : Unit {0}
unfolding is_zero_key clamp generate_x25519_key_pair read_random
program = tt

abbrev key : ℕ → Bytes
key n = replicate 32 n

abbrev pair : ℕ → KeyPair
pair n = record { private = key n; public = key n }

-- A device whose identity is n, whose signed prekey is n + 1, with two one-time prekeys.
abbrev device : ℕ → Device
device n = record {
  identity = record {
    signing_public = key n;
    signing_private = key n;
    dh_private = key n;
    dh_public = key n;
  };
  signed_prekey = pair (n + 1);
  signed_sig = key n ++ key (n + 1);
  one_time = (7, record { key = pair 4 }) ∷ (8, record { key = pair 5 }) ∷ [];
  next_otk_id = 9;
}

one-IsDevice : IsDevice toy (device 1)
one-IsDevice = record {
  seed = key 1;
  identity = record { size = refl; value = refl; public_size = refl };
  prekey = record { size = refl; value = refl; public_size = refl };
  signing_private = refl;
  signing_public = refl;
  signature = refl;
}

two-IsDevice : IsDevice toy (device 20)
two-IsDevice = record {
  seed = key 20;
  identity = record { size = refl; value = refl; public_size = refl };
  prekey = record { size = refl; value = refl; public_size = refl };
  signing_private = refl;
  signing_public = refl;
  signature = refl;
}

abbrev bundle : PrekeyBundle
bundle = record {
  identity_key = key 20;
  identity_signature_key = key 20;
  signed_prekey = key 21;
  signed_prekey_sig = key 20 ++ key 21;
  one_time_prekeys = record { id = 8; public = key 5 } ∷ [];
}

abbrev fifth : OneTimeEntry
fifth = record { key = pair 5 }

bundle_first :
    (k : OneTimePrekey) → get_elem? bundle.one_time_prekeys 0 ≡ some k → Holds toy (device 20) k
bundle_first k e =
    let same : record { id = 8; public = key 5 } ≡ k = cc in
    subst (Holds toy (device 20)) same
      (fifth, refl, record { size = refl; value = refl; public_size = refl })

bundle-Offers : Offers toy (device 20) bundle
bundle-Offers = record {
  identity = refl;
  signing = refl;
  prekey = refl;
  signature = refl;
  first = bundle_first;
}

-- The key pair that 32 bytes 40 of the source make.
abbrev fresh : KeyPair
fresh = record { private = replicate 31 40 ++ (104 ∷ []); public = replicate 31 40 ++ (104 ∷ []) }

fresh_made : generate_x25519_key_pair toy (replicate 32 40) ≡ (ok fresh, [])
unfolding program
fresh_made = refl

fresh_live : is_zero_key fresh.public ≡ false
unfolding program
fresh_live = refl

handshake_agrees_example :
    (sa : SessionState) × (msg : HandshakeMessage) × (sd : SessionState) × (d' : Device)
    × (init_session toy (device 1) bundle (replicate 32 40) ≡ (ok (sa, msg), []))
    × (accept_session toy msg (device 20) ≡ (ok sd, d'))
    × InSync sa sd
    × CanTurn toy sd sa
    × (sa.remote_ratchet ≡ sd.ratchet_public)
    × (is_zero_key sd.send_chain.key ≡ true)
    × (sa.skipped ≡ [])
    × (sd.skipped ≡ [])
handshake_agrees_example =
    handshake_agrees toy toy-Laws (device 1) (device 20) bundle (replicate 32 40) fresh []
      one-IsDevice two-IsDevice bundle-Offers fresh_made fresh_live

abbrev published : Run Device
published = record { state = device 20; random = replicate 70 40 }

publish-Offers_example :
    (b : PrekeyBundle) × (r' : Run Device) × (publish_prekey_bundle toy (pos 2) published
      ≡ (ok b, r'))
    × IsDevice toy r'.state
    × Offers toy r'.state b
    × (length b.one_time_prekeys ≡ clip (pos 2))
    × Numbered 9 b.one_time_prekeys
    × AllHeld toy r'.state b.one_time_prekeys
    × (r'.state.next_otk_id ≡ 9 + clip (pos 2))
    × ((j : ℕ) → j < 9 → lookup j r'.state.one_time ≡ lookup j (device 20).one_time)
publish-Offers_example =
    publish-Offers toy toy-Laws (pos 2) published two-IsDevice (omega arith) (omega arith)

generate_identity_keypair-IsDevice_example :
    (d : Device) × (generate_identity_keypair toy (replicate 64 3)
      ≡ (ok d, drop 32 (drop 32 (replicate 64 3))))
    × IsDevice toy d
    × (d.one_time ≡ [])
    × (d.next_otk_id ≡ 1)
generate_identity_keypair-IsDevice_example =
    generate_identity_keypair-IsDevice toy toy-Laws (replicate 64 3) (omega arith)

abbrev first_message : HandshakeMessage
first_message = record {
  identity_key = key 1;
  identity_signature_key = key 1;
  ephemeral_key = fresh.public;
  one_time_prekey_id = some 8;
}

accept_session_once_example :
    let d' = (accept_session toy first_message (device 20)).1 in
    accept_session toy (record first_message { identity_key = key 6 }) d'
    ≡ (err missing_one_time_key, d')
accept_session_once_example =
    accept_session_once toy (device 20) first_message
      (record first_message { identity_key = key 6 }) 8 refl refl

-- A codec: a byte n is n times the letter a, and then the letter b.
abbrev encode_byte : ℕ → String → String
encode_byte zero s = String.◌∷◌ "b" s
encode_byte (suc n) s = String.◌∷◌ "a" (encode_byte n s)

abbrev encode_bytes : Bytes → String
encode_bytes [] = String.[]
encode_bytes (x ∷ b) = encode_byte x (encode_bytes b)

abbrev prepend : ℕ → Option Bytes → Option Bytes
prepend n none = none
prepend n (some b) = some (n ∷ b)

abbrev decode_bytes : String → ℕ → Option Bytes
decode_bytes String.[] n = some []
decode_bytes (String.◌∷◌ c s) n =
    let more = decode_bytes s (suc n) in
    let next = decode_bytes s 0 in if code c == 97 then more else prepend n next

abbrev unary : Base64
unary = record { encode_to_string = encode_bytes; decode_string = λ s. decode_bytes s 0 }

decode-encode_byte :
    (x n : ℕ) (s : String) → decode_bytes (encode_byte x s) n ≡ prepend (x + n) (decode_bytes s 0)
decode-encode_byte zero n s = ground arith
decode-encode_byte (suc x) n s = ground (arith, decode-encode_byte x (suc n) s)

unary-IsInverse : IsInverse unary
unary-IsInverse [] = refl
unary-IsInverse (x ∷ b) = ground (arith, decode-encode_byte x 0 (encode_bytes b), unary-IsInverse b)

import_device-export_example :
    import_device unary (export_device unary (device 20)) tt ≡ (ok (device 20), tt)
import_device-export_example =
    import_device-export unary unary-IsInverse (device 20) tt refl refl (refl, refl)
      ((refl, refl), ((refl, refl), tt)) (refl, (refl, tt))

abbrev session : SessionState
session = record {
  root_key = key 9;
  send_chain = record { key = key 3; index = 5 };
  recv_chain = record { key = zero_array 32; index = 0 };
  ratchet_private = key 1;
  ratchet_public = key 1;
  remote_ratchet = key 2;
  remote_identity = key 6;
  remote_signature = key 7;
  pn = 0;
  role = initiator;
  pending_prekey = some 8;
  skipped = (key 2, key 5) ∷ [];
}

import_session-export_example :
    import_session unary (export_session unary session) tt ≡ (ok session, tt)
import_session-export_example =
    import_session-export unary unary-IsInverse session tt refl refl refl refl refl refl refl
      (refl, tt) (refl, tt)
