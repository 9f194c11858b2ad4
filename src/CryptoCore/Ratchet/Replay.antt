-- ===== src/CryptoCore/Ratchet/Replay.antt =====
-- A message that Decrypt of services/crypto-core/ratchet.go has opened, given to it again right away.
use mathlib.Core.Path.{subst}
use secu_msg_server.Common.{ℕ, ◌+◌, ◌<◌, ◌≡◌, none, lookup, list_eq, arith, ap, sym, ◌∙◌, ok, err}
use secu_msg_server.Bytes.{Bytes, uint32_mod}
use secu_msg_server.CryptoCore.Types.{SessionState, MessageHeader, duplicate_message}
use secu_msg_server.CryptoCore.Primitives.{Primitives}
use secu_msg_server.CryptoCore.Ratchet.{skipped_key, decrypt}
use secu_msg_server.CryptoCore.Ratchet.Chain.{message_key, Opens}
use secu_msg_server.CryptoCore.Ratchet.Skipping.{skip_to_absent}
use secu_msg_server.CryptoCore.Ratchet.Receiving.{advance_recv, decrypt_ahead, decrypt_duplicate}

module _ (p : Primitives) where
  -- A message with the current ratchet key that opens under its message key, has a number that
  -- is not past, no key in the store and a number below 2^32 - 1, is decrypted; a message with
  -- its header that is given to Decrypt right after it is refused as a duplicate, and changes
  -- nothing.
  pub replay_refused :
      (ct ct' : Bytes) (h : MessageHeader) (text : Bytes) (k : ℕ) (s : SessionState)
      → h.dh_public ≡ s.remote_ratchet
      → lookup (skipped_key h.dh_public h.n) s.skipped ≡ none
      → s.recv_chain.index + k ≡ h.n
      → h.n + 1 < uint32_mod
      → Opens p (message_key p k s.recv_chain.key) ct h text
      → let s' = (decrypt p ct h s).1 in
        ((decrypt p ct h s).0 ≡ ok text) × (decrypt p ct' h s' ≡ (err duplicate_message, s'))
  replay_refused ct ct' h text k s same absent ahead small opens =
      let first = decrypt_ahead p ct h text k s same absent ahead (omega arith) opens in
      let after = advance_recv p k h.n s in
      let named = λ (d : Bytes). lookup (skipped_key d h.n) after.skipped in
      let gone : lookup (skipped_key h.dh_public h.n) after.skipped ≡ none =
        ap named same
        ∙ skip_to_absent p k h.n h.n s ahead (omega arith) (omega arith)
            (ap (λ d. lookup (skipped_key d h.n) s.skipped) (sym same) ∙ absent) in
      (
        ap (λ x. x.0) first,
        subst (λ x. decrypt p ct' h x ≡ (err duplicate_message, x)) (sym (ap (λ x. x.1) first))
            (decrypt_duplicate p ct' h after same gone (omega arith)),
      )
