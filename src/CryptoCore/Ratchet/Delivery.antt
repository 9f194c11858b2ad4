-- ===== src/CryptoCore/Ratchet/Delivery.antt =====
-- One delivery to the receiver of a chain of services/crypto-core/ratchet.go: what it leaves for the
-- messages of the chain that are still under way.
use mathlib.Core.Path.{subst}
use secu_msg_server.Common.{
  ℕ, suc, ◌+◌, ◌-◌, ◌≤◌, ◌<◌, ◌≡◌, ◌≢◌, none, some, inl, inr, Bool-cases, ltb, ltb→lt, ltb→le, List,
  [], ◌∷◌, Map, lookup, delete, list_eq, length, arith, ap, sym, ◌∙◌, ok, lookup-delete_ne,
  length-delete-le,
}
use secu_msg_server.Bytes.{Bytes, uint32_mod}
use secu_msg_server.CryptoCore.Types.{SessionState, MessageHeader}
use secu_msg_server.CryptoCore.Primitives.{Primitives}
use secu_msg_server.CryptoCore.Ratchet.{
  kdf_chain, skipped_key, skip_to, decrypt, max_skipped_message_keys,
}
use secu_msg_server.CryptoCore.Ratchet.Chain.{
  chain_after, message_key, Opens, chain_after-add, chain_after-suc, message_key-add,
}
use secu_msg_server.CryptoCore.Ratchet.Skipped.{skipped_key-ne}
use secu_msg_server.CryptoCore.Ratchet.Skipping.{
  skip_to_absent, skip_to_keeps, skip_to_stores, length-skip_to,
}
use secu_msg_server.CryptoCore.Ratchet.Receiving.{advance_recv, decrypt_ahead, decrypt_skipped}

-- Position i lies below the receiving chain and its key is stored, or at or above it and has none.
pub record Awaits (p : Primitives) (dh : Bytes) (n : ℕ) (ck : Bytes) (m : ℕ)
    (skipped : Map Bytes Bytes) (i : ℕ) : Type 0 where
  pub stored : i < m → lookup (skipped_key dh (n + i)) skipped ≡ some (message_key p i ck)
  pub absent : m ≤ i → lookup (skipped_key dh (n + i)) skipped ≡ none

-- The receiver of a chain of `total` messages that starts at key ck and number n, m of which lie
-- behind its receiving chain.
pub record Receives (p : Primitives) (dh : Bytes) (n : ℕ) (ck : Bytes) (total m : ℕ)
    (s : SessionState) : Type 0 where
  pub ratchet : s.remote_ratchet ≡ dh
  pub index : s.recv_chain.index ≡ n + m
  pub key : s.recv_chain.key ≡ chain_after p m ck
  pub within : m ≤ total
  pub fits : n + total < uint32_mod
  pub room : length s.skipped + (total - m) ≤ max_skipped_message_keys

-- Every position of the list is awaited, and none stands twice.
abbrev pub AllAwait : Primitives → Bytes → ℕ → Bytes → ℕ → ℕ → Map Bytes Bytes → List ℕ → Type 0
AllAwait p dh n ck total m skipped [] = Unit
AllAwait p dh n ck total m skipped (i ∷ order) =
    (i < total) × Awaits p dh n ck m skipped i × AllAwait p dh n ck total m skipped order

-- The position is none of the list.
abbrev pub NotIn : ℕ → List ℕ → Type 0
NotIn i [] = Unit
NotIn i (j ∷ js) = (i ≢ j) × NotIn i js

module _ (p : Primitives) (dh : Bytes) (n : ℕ) (ck : Bytes) (total : ℕ) where
  -- A list stays awaited when each position other than the delivered one does.
  pub AllAwait-mono :
      (m m' : ℕ) (k k' : Map Bytes Bytes) (i : ℕ) (order : List ℕ)
      → ((j : ℕ) → j < total → i ≢ j → Awaits p dh n ck m k j → Awaits p dh n ck m' k' j)
      → NotIn i order
      → AllAwait p dh n ck total m k order
      → AllAwait p dh n ck total m' k' order
  AllAwait-mono m m' k k' i [] f new all = tt
  AllAwait-mono m m' k k' i (j ∷ order) f new all =
      (all.0, f j all.0 new.0 all.1, AllAwait-mono m m' k k' i order f new.1 all.2)

  -- A position ahead of the chain.
  Receives-ahead :
      (m k i : ℕ) (s : SessionState)
      → m + k ≡ i
      → i < total
      → Receives p dh n ck total m s
      → Receives p dh n ck total (suc i) (advance_recv p k (n + i) s)
  Receives-ahead m k i s e lt r =
      let reach : m + k ≡ i = e in
      record {
        ratchet = r.ratchet;
        index = omega (arith, r.index, r.fits);
        key =
            ap (λ c. (kdf_chain p (chain_after p k c)).0) r.key
            ∙ ap (λ c. (kdf_chain p c).0) (chain_after-add p m k ck)
            ∙ ap (λ j. (kdf_chain p (chain_after p j ck)).0) e
            ∙ chain_after-suc p i ck;
        within = omega arith;
        fits = r.fits;
        room =
            omega (arith, length-skip_to p k (n + i) s (omega arith) (omega arith) (omega arith));
      }

  Awaits-ahead :
      (m k i : ℕ) (s : SessionState) (j : ℕ)
      → m + k ≡ i
      → i < total
      → Receives p dh n ck total m s
      → j < total
      → i ≢ j
      → Awaits p dh n ck m s.skipped j
      → Awaits p dh n ck (suc i) (skip_to p k (n + i) s).skipped j
  Awaits-ahead m k i s j e lt r jt ne a =
      let after = (skip_to p k (n + i) s).skipped in
      let named =
        λ (x : ℕ) (l : Map Bytes Bytes). ap (λ d. lookup (skipped_key d x) l) (sym r.ratchet) in
      record {
        stored = λ below. elim (Bool-cases (ltb j m)) [
          | inl old ↦
              named (n + j) after
              ∙ skip_to_keeps p k (n + i) (n + j) s (omega arith) (omega arith)
                  (omega (arith, ltb→lt j m old)) (omega arith)
              ∙ sym (named (n + j) s.skipped)
              ∙ a.stored (ltb→lt j m old)
          | inr skipped ↦
              let late = ltb→le j m skipped in
              let number : s.recv_chain.index + (j - m) ≡ n + j = omega arith in
              let position : m + (j - m) ≡ j = omega arith in
              named (n + j) after
              ∙ ap (λ x. lookup (skipped_key s.remote_ratchet x) after) (sym number)
              ∙ skip_to_stores p k (n + i) (j - m) s (omega arith) (omega arith) (omega arith)
                  (omega arith)
              ∙ ap (λ c. some (message_key p (j - m) c)) r.key
              ∙ ap some (message_key-add p m (j - m) ck)
              ∙ ap (λ x. some (message_key p x ck)) position
        ];
        absent = λ above.
            named (n + j) after
            ∙ skip_to_absent p k (n + i) (n + j) s (omega arith) (omega arith) (omega arith)
                (sym (named (n + j) s.skipped) ∙ a.absent (omega arith));
      }

  Awaits-delete :
      (m i j : ℕ) (k : Map Bytes Bytes)
      → n + total < uint32_mod
      → i < total
      → j < total
      → i ≢ j
      → Awaits p dh n ck m k j
      → Awaits p dh n ck m (delete (skipped_key dh (n + i)) k) j
  Awaits-delete m i j k small it jt ne a =
      let other =
        lookup-delete_ne (skipped_key dh (n + i)) (skipped_key dh (n + j)) k
          (skipped_key-ne dh (n + i) (n + j) (omega arith) (omega arith) (omega arith)) in
      record { stored = λ h. other ∙ a.stored h; absent = λ h. other ∙ a.absent h }

  -- What one delivery leaves for the positions that are still awaited.
  abbrev pub Delivers : ℕ → ℕ → Bytes → MessageHeader → Bytes → SessionState → Type 0
  Delivers m i ct h text s =
      (m' : ℕ) × (s' : SessionState) × (decrypt p ct h s ≡ (ok text, s'))
      × Receives p dh n ck total m' s'
      × ((j : ℕ)
          → j < total
          → i ≢ j
          → Awaits p dh n ck m s.skipped j
          → Awaits p dh n ck m' s'.skipped j)

  Delivers-ahead :
      (m i : ℕ) (ct : Bytes) (h : MessageHeader) (text : Bytes) (s : SessionState)
      → i < total
      → m ≤ i
      → Receives p dh n ck total m s
      → Awaits p dh n ck m s.skipped i
      → h.dh_public ≡ dh
      → h.n ≡ n + i
      → Opens p (message_key p i ck) ct h text
      → Delivers m i ct h text s
  Delivers-ahead m i ct h text s lt le r a same number opens =
      let k : ℕ = i - m in
      let reach : m + k ≡ i = omega arith in
      let name : lookup (skipped_key h.dh_public h.n) s.skipped ≡ none =
        ap (λ d. lookup (skipped_key d h.n) s.skipped) same
        ∙ ap (λ x. lookup (skipped_key dh x) s.skipped) number
        ∙ a.absent le in
      let mk : message_key p i ck ≡ message_key p k s.recv_chain.key = sym (
        ap (message_key p k) r.key
        ∙ message_key-add p m k ck
        ∙ ap (λ x. message_key p x ck) reach) in
      (
        suc i,
        advance_recv p k (n + i) s,
        decrypt_ahead p ct h text k s (same ∙ sym r.ratchet) name (omega arith) (omega arith)
              (subst (λ x. Opens p x ct h text) mk opens)
            ∙ ap (λ x. (ok text, advance_recv p k x s)) number,
        Receives-ahead m k i s reach lt r,
        λ j jt ne aj. Awaits-ahead m k i s j reach lt r jt ne aj,
      )

  Delivers-skipped :
      (m i : ℕ) (ct : Bytes) (h : MessageHeader) (text : Bytes) (s : SessionState)
      → i < total
      → i < m
      → Receives p dh n ck total m s
      → Awaits p dh n ck m s.skipped i
      → h.dh_public ≡ dh
      → h.n ≡ n + i
      → Opens p (message_key p i ck) ct h text
      → Delivers m i ct h text s
  Delivers-skipped m i ct h text s lt below r a same number opens =
      let name : skipped_key h.dh_public h.n ≡ skipped_key dh (n + i) =
        ap (λ d. skipped_key d h.n) same ∙ ap (skipped_key dh) number in
      (
        m,
        record s { skipped = delete (skipped_key dh (n + i)) s.skipped },
        decrypt_skipped p ct h text (message_key p i ck) s
              (ap (λ x. lookup x s.skipped) name ∙ a.stored below) opens
            ∙ ap (λ x. (ok text, record s { skipped = delete x s.skipped })) name,
        record {
          ratchet = r.ratchet;
          index = r.index;
          key = r.key;
          within = r.within;
          fits = r.fits;
          room = omega (arith, length-delete-le (skipped_key dh (n + i)) s.skipped, r.room);
        },
        λ j jt ne aj. Awaits-delete m i j s.skipped r.fits lt jt ne aj,
      )

  -- Whatever the position, its message is decrypted.
  pub Delivers-all :
      (m i : ℕ) (ct : Bytes) (h : MessageHeader) (text : Bytes) (s : SessionState)
      → i < total
      → Receives p dh n ck total m s
      → Awaits p dh n ck m s.skipped i
      → h.dh_public ≡ dh
      → h.n ≡ n + i
      → Opens p (message_key p i ck) ct h text
      → Delivers m i ct h text s
  Delivers-all m i ct h text s lt r a same number opens = elim (Bool-cases (ltb i m)) [
    | inl old ↦ Delivers-skipped m i ct h text s lt (ltb→lt i m old) r a same number opens
    | inr new ↦ Delivers-ahead m i ct h text s lt (ltb→le i m new) r a same number opens
  ]
