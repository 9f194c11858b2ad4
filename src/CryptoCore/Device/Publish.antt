-- ===== src/CryptoCore/Device/Publish.antt =====
-- What PublishPrekeyBundle and GenerateIdentityKeypair of services/crypto-core/core.go hand out.
use mathlib.Core.Path.{subst}
use secu_msg_server.Common.{
  ℕ, ◌*◌, length-drop, zero, suc, ◌+◌, ◌≤◌, ◌<◌, ◌≡◌, refl, false, some, [], ◌∷◌, List, ℤ, clip,
  lookup, insert, nat_eq, get_elem?, length, arith, ap, sym, ◌∙◌, ok, drop, lookup-insert_self,
  lookup-insert_ne, ◌==◌,
}
use secu_msg_server.Bytes.{Bytes, inc32, uint32_mod, array}
use secu_msg_server.CryptoCore.Types.{Device, KeyPair, OneTimeEntry, OneTimePrekey, PrekeyBundle}
use secu_msg_server.CryptoCore.Primitives.{Primitives, Laws}
use secu_msg_server.CryptoCore.Random.{Run, generate_x25519_key_pair}
use secu_msg_server.CryptoCore.Random.Keys.{IsKeyPair, generate_total}
use secu_msg_server.CryptoCore.Device.{add_one_time_key, add_one_time_keys, publish_prekey_bundle}
use secu_msg_server.CryptoCore.Session.Handshake.{IsDevice, Offers, Holds}

-- The prekeys are numbered one by one from the given number.
abbrev pub Numbered : ℕ → List OneTimePrekey → Type 0
Numbered n [] = Unit
Numbered n (k ∷ ks) = (k.id ≡ n) × Numbered (n + 1) ks

-- Every prekey of the list is held by the device.
abbrev pub AllHeld : Primitives → Device → List OneTimePrekey → Type 0
AllHeld p d [] = Unit
AllHeld p d (k ∷ ks) = Holds p d k × AllHeld p d ks

-- The device with other one-time prekeys and another next number.
abbrev with_keys : Device → Device → Device
with_keys d d' = record d { one_time = d'.one_time; next_otk_id = d'.next_otk_id }

module _ (p : Primitives) (laws : Laws p) where
  add_one_time_key_lem :
      (r : Run Device) (kp : KeyPair) (rest : Bytes)
      → generate_x25519_key_pair p r.random ≡ (ok kp, rest)
      → add_one_time_key p r ≡ (
        ok (record { id = r.state.next_otk_id; public = kp.public }),
        record {
          state = record r.state {
            next_otk_id = inc32 r.state.next_otk_id;
            one_time = insert r.state.next_otk_id (record { key = kp }) r.state.one_time;
          };
          random = rest;
        },
      )
  unfolding add_one_time_key
  add_one_time_key_lem r kp rest made = ground arith

  add_one_time_keys-cons :
      (count : ℕ) (r r' r'' : Run Device) (k : OneTimePrekey) (ks : List OneTimePrekey)
      → add_one_time_key p r ≡ (ok k, r')
      → add_one_time_keys p count r' ≡ (ok ks, r'')
      → add_one_time_keys p (suc count) r ≡ (ok (k ∷ ks), r'')
  unfolding add_one_time_keys
  add_one_time_keys-cons count r r' r'' k ks first rest = ground arith

  -- With 32 bytes of randomness for each, the one-time prekeys are made: they are numbered on from
  -- the device's next number, the device holds them all, and nothing else of it changes.
  add_one_time_keys_total :
      (count n : ℕ) (r : Run Device)
      → r.state.next_otk_id ≡ n
      → 32 * count ≤ length r.random
      → n + count < uint32_mod
      → (ks : List OneTimePrekey) × (r' : Run Device) × (add_one_time_keys p count r ≡ (ok ks, r'))
        × (length ks ≡ count)
        × Numbered n ks
        × AllHeld p r'.state ks
        × (r'.state ≡ with_keys r.state r'.state)
        × (r'.state.next_otk_id ≡ n + count)
        × ((j : ℕ) → j < n → lookup j r'.state.one_time ≡ lookup j r.state.one_time)
  unfolding add_one_time_keys
  add_one_time_keys_total zero n r here enough small =
      ([], r, refl, refl, tt, tt, refl, omega arith, λ j h. refl)
  add_one_time_keys_total (suc count) n r here enough small =
      let (kp, made, pair) = generate_total p laws r.random (omega arith) in
      let id = r.state.next_otk_id in
      let entry : OneTimeEntry = record { key = kp } in
      let first : OneTimePrekey = record { id = id; public = kp.public } in
      let r₁ : Run Device = record {
        state = record r.state {
          next_otk_id = inc32 id;
          one_time = insert id entry r.state.one_time;
        };
        random = drop 32 r.random;
      } in
      let (ks, r', done, len, numbered, held, same, next, old) =
        add_one_time_keys_total count (n + 1) r₁ (omega arith)
          (omega (arith, length-drop 32 r.random)) (omega arith) in
      (
        first ∷ ks,
        r',
        add_one_time_keys-cons count r r₁ r' first ks
            (add_one_time_key_lem r kp (drop 32 r.random) made) done,
        omega arith,
        (here, numbered),
        ((entry, old id (omega arith) ∙ lookup-insert_self id entry r.state.one_time, pair), held),
        same,
        omega arith,
        λ j h. old j (omega arith) ∙ lookup-insert_ne id j entry r.state.one_time (omega arith),
      )

  -- The test of `len(d.signedPrekey.Public)` never makes a new signed prekey: the key is an array.
  publish_lem :
      (count : ℤ) (r r' : Run Device) (ks : List OneTimePrekey)
      → (length r.state.signed_prekey.public == 0) ≡ false
      → add_one_time_keys p (clip count) r ≡ (ok ks, r')
      → publish_prekey_bundle p count r ≡ (
        ok (record {
          identity_key = r.state.identity.dh_public;
          identity_signature_key = r.state.identity.signing_public;
          signed_prekey = r.state.signed_prekey.public;
          signed_prekey_sig = r.state.signed_sig;
          one_time_prekeys = ks;
        }),
        r',
      )
  unfolding publish_prekey_bundle
  publish_lem count r r' ks array keys = ground arith

  first_held :
      (d : Device) (ks : List OneTimePrekey) (k : OneTimePrekey)
      → AllHeld p d ks
      → get_elem? ks 0 ≡ some k
      → Holds p d k
  first_held d [] k all e = absurd (ground arith)
  first_held d (x ∷ ks) k all e =
      let same : x ≡ k = cc in
      let (entry, found, pair) = all.0 in
      (
        entry,
        ap (λ t. lookup t.id d.one_time) (sym same) ∙ found,
        subst (λ t. IsKeyPair p entry.key.private t.public) same pair,
      )

  -- A device with its key pairs publishes a bundle, for any count (a negative one counts as none),
  -- if it has 32 bytes of randomness for each one-time prekey and the numbers stay below 2^32. The
  -- bundle is the device's own, its one-time prekeys are as many as asked for, numbered on from the
  -- device's next number and all held by the device afterwards, keys published before are still
  -- held, and the device keeps its key pairs.
  pub publish-Offers :
      (count : ℤ) (r : Run Device)
      → IsDevice p r.state
      → 32 * clip count ≤ length r.random
      → r.state.next_otk_id + clip count < uint32_mod
      → (b : PrekeyBundle) × (r' : Run Device) × (publish_prekey_bundle p count r ≡ (ok b, r'))
        × IsDevice p r'.state
        × Offers p r'.state b
        × (length b.one_time_prekeys ≡ clip count)
        × Numbered r.state.next_otk_id b.one_time_prekeys
        × AllHeld p r'.state b.one_time_prekeys
        × (r'.state.next_otk_id ≡ r.state.next_otk_id + clip count)
        × ((j : ℕ)
            → j < r.state.next_otk_id
            → lookup j r'.state.one_time ≡ lookup j r.state.one_time)
  publish-Offers count r device enough small =
      let (ks, r', done, len, numbered, held, same, next, old) =
        add_one_time_keys_total (clip count) r.state.next_otk_id r refl enough small in
      let d = r.state in
      let b : PrekeyBundle = record {
        identity_key = d.identity.dh_public;
        identity_signature_key = d.identity.signing_public;
        signed_prekey = d.signed_prekey.public;
        signed_prekey_sig = d.signed_sig;
        one_time_prekeys = ks;
      } in
      (
        b,
        r',
        publish_lem count r r' ks (ground (arith, device.prekey.public_size)) done,
        subst (IsDevice p) (sym same) (record {
          seed = device.seed;
          identity = device.identity;
          prekey = device.prekey;
          signing_private = device.signing_private;
          signing_public = device.signing_public;
          signature = device.signature;
        }),
        record {
          identity = ap (λ x. x.identity.dh_public) (sym same);
          signing = ap (λ x. x.identity.signing_public) (sym same);
          prekey = ap (λ x. x.signed_prekey.public) (sym same);
          signature = ap (λ x. x.signed_sig) (sym same);
          first = λ k. first_held r'.state ks k held;
        },
        len,
        numbered,
        held,
        next,
        old,
      )
