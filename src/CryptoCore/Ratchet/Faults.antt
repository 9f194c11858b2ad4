-- ===== src/CryptoCore/Ratchet/Faults.antt =====
-- What a message that does not open does to the session in Decrypt of
-- services/crypto-core/ratchet.go: the changes made before the failure stay.
use mathlib.Core.Path.{subst}
use secu_msg_server.Common.{
  ℕ, ◌+◌, ◌-◌, ◌<◌, ◌≡◌, ◌≢◌, none, [], lookup, list_eq, arith, ap, sym, ◌∙◌, ok, err, ==_of_ne,
}
use secu_msg_server.Bytes.{Bytes, uint32_mod, zero_array}
use secu_msg_server.CryptoCore.Types.{
  SessionState, MessageHeader, decryption_failed, duplicate_message,
}
use secu_msg_server.CryptoCore.Primitives.{Primitives, Laws}
use secu_msg_server.CryptoCore.Ratchet.{
  kdf_chain, skipped_key, skip_to, open_message, derive_cipher_params, associated_data,
  hkdf_info_aead, decrypt, decrypt_current, next_recv_key, rotate_ratchet_on_recv, kdf_root,
}
use secu_msg_server.CryptoCore.Ratchet.Chain.{chain_after}
use secu_msg_server.CryptoCore.Ratchet.Skipping.{skip_to_lem, skip_to_absent}
use secu_msg_server.CryptoCore.Ratchet.Receiving.{
  advance_recv, decrypt-turn, decrypt_duplicate, rotate_ratchet_on_recv_same,
}

-- No key opens the ciphertext with the header.
abbrev pub NeverOpens : Primitives → Bytes → MessageHeader → Type 0
NeverOpens p ct h = (key nonce : Bytes) → p.unseal key nonce ct (associated_data h) ≡ none

module _ (p : Primitives) (laws : Laws p) where
  open_message_fails :
      (mk ct : Bytes) (h : MessageHeader) (s : SessionState)
      → NeverOpens p ct h
      → open_message p mk ct h s ≡ (err decryption_failed, s)
  unfolding open_message derive_cipher_params
  open_message_fails mk ct h s never =
      let (key, ek, lk) = laws.hkdf_total mk [] hkdf_info_aead 0 32 (omega arith) in
      let (nonce, en, ln) = laws.hkdf_total mk [] hkdf_info_aead 32 12 (omega arith) in
      let fits = laws.aead_new-key key lk in ground (arith, never key nonce)

  decrypt_current_fails :
      (ct : Bytes) (h : MessageHeader) (s : SessionState) (k : ℕ)
      → NeverOpens p ct h
      → s.recv_chain.index + k ≡ h.n
      → h.n < uint32_mod
      → decrypt_current p ct h s ≡ (err decryption_failed, advance_recv p k h.n s)
  unfolding decrypt_current next_recv_key
  decrypt_current_fails ct h s k never ahead small =
      let e : h.n - s.recv_chain.index ≡ k = omega arith in
      ground (
        arith,
        skip_to_lem p k h.n s ahead small,
        ap (λ j. skip_to p j h.n s) e,
        open_message_fails (kdf_chain p (chain_after p k s.recv_chain.key)).1 ct h
            (advance_recv p k h.n s) never,
      )

  -- A message that no key opens, with the current ratchet key, a number that is not past and
  -- is below 2^32 - 1, and no key stored for it, is refused; the message given to Decrypt
  -- right after it, if it has that ratchet key and number, the genuine one too, is refused as
  -- a duplicate and changes nothing.
  pub forged_message_blocks :
      (ct ct' : Bytes) (h h' : MessageHeader) (s : SessionState) (k : ℕ)
      → NeverOpens p ct h
      → h.dh_public ≡ s.remote_ratchet
      → h'.dh_public ≡ s.remote_ratchet
      → h'.n ≡ h.n
      → s.recv_chain.index + k ≡ h.n
      → h.n + 1 < uint32_mod
      → lookup (skipped_key s.remote_ratchet h.n) s.skipped ≡ none
      → let s' = (decrypt p ct h s).1 in
        ((decrypt p ct h s).0 ≡ err decryption_failed)
        × (decrypt p ct' h' s' ≡ (err duplicate_message, s'))
  forged_message_blocks ct ct' h h' s k never same same' number ahead small absent =
      let name : lookup (skipped_key h.dh_public h.n) s.skipped ≡ none =
        ap (λ d. lookup (skipped_key d h.n) s.skipped) same ∙ absent in
      let failed : decrypt p ct h s ≡ (err decryption_failed, advance_recv p k h.n s) =
        decrypt-turn p ct h s s name (rotate_ratchet_on_recv_same p h s same)
        ∙ decrypt_current_fails ct h s k never ahead (omega arith) in
      let after = advance_recv p k h.n s in
      let gone : lookup (skipped_key h'.dh_public h'.n) after.skipped ≡ none =
        ap (λ d. lookup (skipped_key d h'.n) after.skipped) same'
        ∙ ap (λ x. lookup (skipped_key s.remote_ratchet x) after.skipped) number
        ∙ skip_to_absent p k h.n h.n s ahead (omega arith) (omega arith) absent in
      (
        ap (λ x. x.0) failed,
        subst (λ x. decrypt p ct' h' x ≡ (err duplicate_message, x)) (sym (ap (λ x. x.1) failed))
            (decrypt_duplicate p ct' h' after same' gone (omega arith)),
      )

  -- A successful turn at the receiver.
  turned_parts :
      (h : MessageHeader) (s t : SessionState)
      → h.dh_public ≢ s.remote_ratchet
      → rotate_ratchet_on_recv p h s ≡ (ok tt, t)
      → (t.remote_ratchet ≡ h.dh_public)
        × (t.send_chain.key ≡ zero_array 32)
        × (t.recv_chain.index ≡ 0)
        × (t.pn ≡ h.pn)
  unfolding rotate_ratchet_on_recv kdf_root
  turned_parts h s t new turned =
      let other = ==_of_ne h.dh_public s.remote_ratchet new in ground arith

  -- A message that no key opens, with no skipped key, a number below 2^32, and a ratchet key that the
  -- receiver does not hold and that turns the ratchet, is refused; but the session keeps that key as
  -- the remote ratchet key and the header's length of the previous chain, and its sending chain is
  -- zero.
  pub forged_header_turns :
      (ct : Bytes) (h : MessageHeader) (s t : SessionState)
      → NeverOpens p ct h
      → lookup (skipped_key h.dh_public h.n) s.skipped ≡ none
      → h.dh_public ≢ s.remote_ratchet
      → rotate_ratchet_on_recv p h s ≡ (ok tt, t)
      → h.n < uint32_mod
      → let s' = (decrypt p ct h s).1 in
        ((decrypt p ct h s).0 ≡ err decryption_failed)
        × (s'.remote_ratchet ≡ h.dh_public)
        × (s'.send_chain.key ≡ zero_array 32)
        × (s'.pn ≡ h.pn)
  forged_header_turns ct h s t never absent new turned small =
      let (remote, send, index, pn) = turned_parts h s t new turned in
      let failed : decrypt p ct h s ≡ (err decryption_failed, advance_recv p h.n h.n t) =
        decrypt-turn p ct h s t absent turned
        ∙ decrypt_current_fails ct h t h.n never (omega arith) small in
      (
        ap (λ x. x.0) failed,
        ap (λ x. x.1.remote_ratchet) failed ∙ remote,
        ap (λ x. x.1.send_chain.key) failed ∙ send,
        ap (λ x. x.1.pn) failed ∙ pn,
      )
