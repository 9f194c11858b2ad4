-- ===== src/CryptoCore/Tests.antt =====
-- Witnesses and tests of the Double Ratchet (services/crypto-core/ratchet.go) on the toy
-- cryptography.
use secu_msg_server.Common.{
  ◌++◌, ℕ, ◌+◌, ◌≤◌, ◌≡◌, ◌≢◌, refl, true, none, some, [], ◌∷◌, List, lookup, list_eq, map,
  get_elem?, length, replicate, arith, ok, err,
}
use secu_msg_server.Bytes.{Bytes, zero_array, clamp}
use secu_msg_server.CryptoCore.Types.{
  KeyPair, SessionState, MessageHeader, initiator, responder, duplicate_message, decryption_failed,
}
use secu_msg_server.CryptoCore.Sample.{toy, toy-Laws}
use secu_msg_server.CryptoCore.Random.{Run, generate_x25519_key_pair, read_random}
use secu_msg_server.CryptoCore.Random.Keys.{IsKeyPair}
use secu_msg_server.CryptoCore.Ratchet.{
  is_zero_key, kdf_chain, kdf_root, skipped_key, encrypt, encrypt_next, next_send_key, decrypt,
  decrypt_found, decrypt_current, next_recv_key, consume_skipped, skip_to, skip_key,
  store_skipped_key, evict, open_message, derive_cipher_params, associated_data,
  rotate_ratchet_on_send, rotate_ratchet_on_recv, max_skipped_message_keys,
}
use secu_msg_server.CryptoCore.Ratchet.Chain.{Opens, chain_after, message_key, NeverZero}
use secu_msg_server.CryptoCore.Ratchet.Sending.{encrypt_all}
use secu_msg_server.CryptoCore.Ratchet.Skipping.{skip_to_lem, skip_to_stores}
use secu_msg_server.CryptoCore.Ratchet.Receiving.{decrypt_bound}
use secu_msg_server.CryptoCore.Ratchet.AnyOrder.{InSync, IsFresh, deliver, delivered_in_any_order}
use secu_msg_server.CryptoCore.Ratchet.Turn.{CanTurn, turn_agrees, reply_decrypts}
use secu_msg_server.CryptoCore.Ratchet.Headers.{associated_data-injective, skipped_key-injective}
use secu_msg_server.CryptoCore.Ratchet.Replay.{replay_refused}
use secu_msg_server.CryptoCore.Ratchet.Faults.{
  NeverOpens, forged_message_blocks, forged_header_turns,
}

-- All that the sessions of this file compute with.
program : Unit {0}
unfolding is_zero_key kdf_chain kdf_root skipped_key encrypt encrypt_next next_send_key decrypt
    decrypt_found decrypt_current next_recv_key consume_skipped skip_to skip_key store_skipped_key
    evict open_message derive_cipher_params associated_data rotate_ratchet_on_send
    rotate_ratchet_on_recv generate_x25519_key_pair read_random clamp chain_after message_key
    encrypt_all deliver
program = tt

-- A key of 32 equal bytes; in the toy cryptography it is its own public value.
abbrev key : ℕ → Bytes
key n = replicate 32 n

abbrev sender : SessionState
sender = record {
  root_key = key 9;
  send_chain = record { key = key 3; index = 5 };
  recv_chain = record { key = zero_array 32; index = 0 };
  ratchet_private = key 1;
  ratchet_public = key 1;
  remote_ratchet = key 2;
  remote_identity = key 6;
  remote_signature = key 7;
  pn = 0;
  role = initiator;
  pending_prekey = none;
  skipped = [];
}

abbrev receiver : SessionState
receiver = record sender {
  send_chain = record { key = zero_array 32; index = 0 };
  recv_chain = record { key = key 3; index = 5 };
  ratchet_private = key 2;
  ratchet_public = key 2;
  remote_ratchet = key 1;
  role = responder;
}

abbrev sending : Run SessionState
sending = record { state = sender; random = [] }

abbrev texts : List Bytes
texts = (10 ∷ []) ∷ (11 ∷ 12 ∷ []) ∷ [] ∷ []

in_sync : InSync sender receiver
in_sync = record { ratchet = refl; key = refl; index = refl }

receiver-IsFresh : IsFresh receiver
receiver-IsFresh j h small = refl

texts-NeverZero : NeverZero toy 3 (key 3)
unfolding program
texts-NeverZero = (refl, (refl, (refl, tt)))

-- Three texts of a chain, delivered last to first.
delivered_in_any_order_example :
    (ms : List (Bytes × MessageHeader)) × (r' : Run SessionState) × (out : List Bytes)
    × (b' : SessionState) × (encrypt_all toy texts sending ≡ (ok ms, r'))
    × (deliver toy ms (2 ∷ 0 ∷ 1 ∷ []) receiver ≡ (ok out, b'))
    × (map some out ≡ map (get_elem? texts) (2 ∷ 0 ∷ 1 ∷ []))
delivered_in_any_order_example =
    delivered_in_any_order toy toy-Laws texts (2 ∷ 0 ∷ 1 ∷ []) sending receiver in_sync
      receiver-IsFresh texts-NeverZero (omega arith) (omega arith) (omega arith) (omega arith)

-- The messages of that run, and the session of the receiver after the last has come first.
abbrev header : ℕ → MessageHeader
header n = record { dh_public = key 1; pn = 0; n = n; nonce = [] }

unreadable : NeverOpens toy [] (header 7)
unreadable k nonce = refl

decrypt_bound_example :
    length (decrypt toy (5 ∷ []) (header 4000000000) receiver).1.skipped ≤ max_skipped_message_keys
decrypt_bound_example = decrypt_bound toy (5 ∷ []) (header 4000000000) receiver (omega arith)

skip_to_lem_example : skip_to toy 3 8 receiver ≡ record receiver {
  recv_chain = record { key = chain_after toy 3 (key 3); index = 8 };
  skipped = (skip_to toy 3 8 receiver).skipped;
}
skip_to_lem_example = skip_to_lem toy 3 8 receiver (omega arith) (omega arith)

skip_to_stores_example :
    lookup (skipped_key (key 1) (5 + 1)) (skip_to toy 3 8 receiver).skipped
    ≡ some (message_key toy 1 (key 3))
skip_to_stores_example =
    skip_to_stores toy 3 8 1 receiver (omega arith) (omega arith) (omega arith) (omega arith)

forged_message_blocks_example :
    let s' = (decrypt toy [] (header 7) receiver).1 in
    ((decrypt toy [] (header 7) receiver).0 ≡ err decryption_failed)
    × (decrypt toy (1 ∷ []) (header 7) s' ≡ (err duplicate_message, s'))
forged_message_blocks_example =
    forged_message_blocks toy toy-Laws [] (1 ∷ []) (header 7) (header 7) receiver 2 unreadable refl
      refl refl (omega arith) (omega arith) refl

abbrev second : MessageHeader
second = record (header 6) { nonce = replicate 12 213 }

second-Opens : Opens toy (message_key toy 1 (key 3)) (203 ∷ 9 ∷ []) second (9 ∷ [])
unfolding program
second-Opens s = refl

replay_refused_example :
    let s' = (decrypt toy (203 ∷ 9 ∷ []) second receiver).1 in
    ((decrypt toy (203 ∷ 9 ∷ []) second receiver).0 ≡ ok (9 ∷ []))
    × (decrypt toy [] second s' ≡ (err duplicate_message, s'))
replay_refused_example =
    replay_refused toy (203 ∷ 9 ∷ []) [] second (9 ∷ []) 1 receiver refl refl (omega arith)
      (omega arith) second-Opens

abbrev new_header : MessageHeader
new_header = record (header 0) { dh_public = key 4; pn = 3 }

key_ne : (x y : ℕ) (xs ys : Bytes) → x ≢ y → (x ∷ xs) ≢ (y ∷ ys)
key_ne x y xs ys ne e = ne (ground (arith, e))

abbrev turned : SessionState
turned = (rotate_ratchet_on_recv toy new_header receiver).1

receiver_turns : rotate_ratchet_on_recv toy new_header receiver ≡ (ok tt, turned)
unfolding program
receiver_turns = refl

new_unreadable : NeverOpens toy [] new_header
new_unreadable k nonce = refl

forged_header_turns_example :
    let s' = (decrypt toy [] new_header receiver).1 in
    ((decrypt toy [] new_header receiver).0 ≡ err decryption_failed)
    × (s'.remote_ratchet ≡ key 4)
    × (s'.send_chain.key ≡ zero_array 32)
    × (s'.pn ≡ 3)
forged_header_turns_example =
    forged_header_turns toy toy-Laws [] new_header receiver turned new_unreadable refl
      (key_ne 4 1 (replicate 31 4) (replicate 31 1) (omega arith)) receiver_turns (omega arith)

-- The key pair that 32 bytes 40 of the source make.
abbrev fresh : KeyPair
fresh = record { private = replicate 31 40 ++ (104 ∷ []); public = replicate 31 40 ++ (104 ∷ []) }

abbrev silent : Run SessionState
silent = record {
  state = record sender { send_chain = record { key = zero_array 32; index = 0 } };
  random = replicate 32 40;
}

can_turn : CanTurn toy silent.state receiver
unfolding program
can_turn = record {
  root = refl;
  remote = refl;
  pair = record { size = refl; value = refl; public_size = refl };
  live = refl;
}

fresh_made : generate_x25519_key_pair toy (replicate 32 40) ≡ (ok fresh, [])
unfolding program
fresh_made = refl

fresh_new : fresh.public ≢ receiver.remote_ratchet
fresh_new = key_ne 40 1 (replicate 30 40 ++ (104 ∷ [])) (replicate 31 1) (omega arith)

silent_zero : is_zero_key silent.state.send_chain.key ≡ true
unfolding program
silent_zero = refl

abbrev reply_header : MessageHeader
reply_header = record { dh_public = fresh.public; pn = 0; n = 0; nonce = [] }

turn_agrees_example :
    (r' : Run SessionState) × (b' : SessionState) × (rotate_ratchet_on_send toy silent
      ≡ (ok tt, r'))
    × (rotate_ratchet_on_recv toy reply_header receiver ≡ (ok tt, b'))
    × InSync r'.state b'
    × (r'.state.root_key ≡ b'.root_key)
    × (r'.state.ratchet_public ≡ b'.remote_ratchet)
    × IsKeyPair toy r'.state.ratchet_private r'.state.ratchet_public
    × (is_zero_key b'.send_chain.key ≡ true)
    × (b'.skipped ≡ [])
turn_agrees_example =
    turn_agrees toy toy-Laws silent receiver reply_header fresh [] can_turn (omega arith) fresh_made
      refl fresh_new

reply_decrypts_example :
    (ct : Bytes) × (h : MessageHeader) × (r' : Run SessionState) × (b' : SessionState) × (encrypt
        toy
        (1 ∷ 2 ∷ [])
        silent
      ≡ (ok (ct, h), r'))
    × (decrypt toy ct h receiver ≡ (ok (1 ∷ 2 ∷ []), b'))
    × InSync r'.state b'
    × (r'.state.root_key ≡ b'.root_key)
reply_decrypts_example =
    reply_decrypts toy toy-Laws (1 ∷ 2 ∷ []) silent receiver fresh [] can_turn silent_zero
      (omega arith) fresh_made fresh_new refl

associated_data-injective_example :
    (length (associated_data second) ≡ 40)
    × (second.dh_public ≡ (header 6).dh_public)
    × (second.pn ≡ (header 6).pn)
    × (second.n ≡ (header 6).n)
unfolding associated_data
associated_data-injective_example =
    associated_data-injective second (header 6) refl refl (omega arith) (omega arith) (omega arith)
      (omega arith) refl

skipped_key-injective_example : (key 1 ≡ key 1) × (second.n ≡ (header 6).n)
skipped_key-injective_example =
    skipped_key-injective (key 1) (key 1) second.n (header 6).n refl refl (omega arith)
      (omega arith) refl
