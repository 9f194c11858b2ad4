-- ===== src/CryptoCore/State/RoundTrip.antt =====
-- What Export and ExportSession of services/crypto-core/state.go write, ImportDevice and
-- ImportSession read back.
use secu_msg_server.Common.{
  ℕ, ◌≡◌, refl, [], ◌∷◌, Map, Eq, nat_eq, list_eq, insert, length, arith, ap, ◌∙◌, ok, >>=-ok,
  copy_map, map_values, copy_map-nil, IsDistinct, Action, String,
}
use secu_msg_server.Bytes.{Bytes, array_self}
use secu_msg_server.CryptoCore.Types.{
  Device, KeyPair, OneTimeEntry, SessionState, ChainState, CryptoError,
}
use secu_msg_server.CryptoCore.State.{
  Base64, IsInverse, decode_fixed, decode_map, export_pair, export_device, import_one_time,
  import_device, export_chain, import_chain, export_session, import_skipped, import_session,
}

-- Every value of the map satisfies the predicate.
abbrev pub AllValues : {K V : Type 0} → (V → Type 0) → Map K V → Type 0
AllValues P [] = Unit
AllValues P ((k, v) ∷ m) = P v × AllValues P m

-- Both halves have 32 bytes.
abbrev pub IsSized : KeyPair → Type 0
IsSized kp = (length kp.private ≡ 32) × (length kp.public ≡ 32)

map_values_self : {K W : Type 0} ⦃e : Eq K⦄ (m : Map K W) → map_values (λ (w : W). w) m ≡ m
map_values_self [] = refl
map_values_self ((k, w) ∷ m) = ap (◌∷◌ (k, w)) (map_values_self m)

module _ {S K V W : Type 0} ⦃e : Eq K⦄ (encode : W → V) (f : V → Action S CryptoError W)
    (P : W → Type 0) where
  -- A loop that decodes what another loop has encoded copies the map.
  decode_map_lem :
      ((w : W) (s : S) → P w → f (encode w) s ≡ (ok w, s))
      → (m : Map K W) (acc : Map K W) (s : S) → AllValues P m
      → decode_map f (map_values encode m) acc s ≡ (ok (copy_map (λ (w : W). w) m acc), s)
  unfolding decode_map
  decode_map_lem inverse [] acc s all = refl
  decode_map_lem inverse ((k, w) ∷ m) acc s all =
      >>=-ok (f (encode w)) (λ w'. decode_map f (map_values encode m) (insert k w' acc)) s s w
        (inverse w s all.0)
      ∙ decode_map_lem inverse m (insert k w acc) s all.1

  -- The whole of a map with distinct keys comes back.
  decode_map-copy_map :
      ((w : W) (s : S) → P w → f (encode w) s ≡ (ok w, s))
      → (m : Map K W) (s : S) → AllValues P m
      → IsDistinct m
      → decode_map f (copy_map encode m []) [] s ≡ (ok m, s)
  decode_map-copy_map inverse m s all distinct =
      ap (λ x. decode_map f x [] s) (copy_map-nil encode m distinct)
      ∙ decode_map_lem inverse m [] s all
      ∙ ap (λ x. (ok x, s)) (copy_map-nil (λ (w : W). w) m distinct ∙ map_values_self m)

module _ (c : Base64) (inverse : IsInverse c) where
  decode_fixed-encode :
      {S : Type 0} (label : String) (size : ℕ) (b : Bytes) (s : S)
      → length b ≡ size
      → decode_fixed c label size (c.encode_to_string b) s ≡ (ok b, s)
  unfolding decode_fixed
  decode_fixed-encode label size b s h = ground (arith, inverse b, array_self size b h)

  import_one_time-export :
      {S : Type 0} (entry : OneTimeEntry) (s : S)
      → IsSized entry.key
      → import_one_time c (export_pair c entry.key) s ≡ (ok entry, s)
  unfolding import_one_time
  import_one_time-export entry s sized = ground (
    arith,
    decode_fixed-encode "cryptocore: decode one-time private" 32 entry.key.private s sized.0,
    decode_fixed-encode "cryptocore: decode one-time public" 32 entry.key.public s sized.1,
    array_self 32 entry.key.private sized.0,
    array_self 32 entry.key.public sized.1,
  )

  import_skipped-encode :
      {S : Type 0} (key : Bytes) (s : S)
      → length key ≡ 32
      → import_skipped c (c.encode_to_string key) s ≡ (ok key, s)
  unfolding import_skipped
  import_skipped-encode key s sized = ground (
    arith,
    decode_fixed-encode "cryptocore: decode skipped key" 32 key s sized,
    array_self 32 key sized,
  )

  import_chain-export :
      {S : Type 0} (cs : ChainState) (s : S)
      → length cs.key ≡ 32
      → import_chain c (export_chain c cs) s ≡ (ok cs, s)
  unfolding import_chain export_chain
  import_chain-export cs s sized = ground (
    arith,
    decode_fixed-encode "cryptocore: decode chain key" 32 cs.key s sized,
    array_self 32 cs.key sized,
  )

  -- With a codec whose decoding undoes its encoding: a device whose fixed arrays have 32 bytes, and whose one-time prekeys stand under distinct
  -- numbers, is read back as it was written.
  pub import_device-export :
      {S : Type 0} (d : Device) (s : S)
      → length d.identity.dh_private ≡ 32
      → length d.identity.dh_public ≡ 32
      → IsSized d.signed_prekey
      → AllValues (λ (entry : OneTimeEntry). IsSized entry.key) d.one_time
      → IsDistinct d.one_time
      → import_device c (export_device c d) s ≡ (ok d, s)
  unfolding import_device export_device
  import_device-export d s dh_private dh_public prekey entries distinct = ground (
    arith,
    inverse d.identity.signing_private,
    inverse d.identity.signing_public,
    inverse d.signed_sig,
    decode_fixed-encode "cryptocore: decode dh private" 32 d.identity.dh_private s dh_private,
    decode_fixed-encode "cryptocore: decode dh public" 32 d.identity.dh_public s dh_public,
    decode_fixed-encode "cryptocore: decode signed prekey private" 32 d.signed_prekey.private s
        prekey.0,
    decode_fixed-encode "cryptocore: decode signed prekey public" 32 d.signed_prekey.public s
        prekey.1,
    decode_map-copy_map (λ (entry : OneTimeEntry). export_pair c entry.key) (import_one_time c)
        (λ entry. IsSized entry.key) import_one_time-export d.one_time s entries distinct,
    array_self 32 d.identity.dh_private dh_private,
    array_self 32 d.identity.dh_public dh_public,
    array_self 32 d.signed_prekey.private prekey.0,
    array_self 32 d.signed_prekey.public prekey.1,
  )

  -- With a codec whose decoding undoes its encoding: a session whose fixed arrays have 32 bytes, and whose skipped keys stand under distinct names,
  -- is read back as it was written.
  pub import_session-export :
      {S : Type 0} (t : SessionState) (s : S)
      → length t.root_key ≡ 32
      → length t.send_chain.key ≡ 32
      → length t.recv_chain.key ≡ 32
      → length t.ratchet_private ≡ 32
      → length t.ratchet_public ≡ 32
      → length t.remote_ratchet ≡ 32
      → length t.remote_identity ≡ 32
      → AllValues (λ (key : Bytes). length key ≡ 32) t.skipped
      → IsDistinct t.skipped
      → import_session c (export_session c t) s ≡ (ok t, s)
  unfolding import_session export_session
  import_session-export t s root send recv private public remote identity keys distinct = ground (
    arith,
    inverse t.remote_signature,
    decode_fixed-encode "cryptocore: decode root key" 32 t.root_key s root,
    import_chain-export t.send_chain s send,
    import_chain-export t.recv_chain s recv,
    decode_fixed-encode "cryptocore: decode ratchet private" 32 t.ratchet_private s private,
    decode_fixed-encode "cryptocore: decode ratchet public" 32 t.ratchet_public s public,
    decode_fixed-encode "cryptocore: decode remote ratchet" 32 t.remote_ratchet s remote,
    decode_fixed-encode "cryptocore: decode remote identity" 32 t.remote_identity s identity,
    decode_map-copy_map c.encode_to_string (import_skipped c) (λ key. length key ≡ 32)
        import_skipped-encode t.skipped s keys distinct,
    array_self 32 t.root_key root,
    array_self 32 t.ratchet_private private,
    array_self 32 t.ratchet_public public,
    array_self 32 t.remote_ratchet remote,
    array_self 32 t.remote_identity identity,
  )
