-- ===== src/Messages/Delivery.antt =====
-- What the recipients of services/messages see: messages that wait, that were delivered and that were
-- deleted.
use secu_msg_server.Common.{
  ℕ, zero, suc, Bool, true, false, if◌then◌else◌, ◌==◌, nat_eq, ◌&&◌, some, List, [], ◌∷◌,
  get_elem?, ok, ◌≡◌, refl, sym, ap, ◌∙◌, arith, inl, inr, Result-cases, Bool-cases,
}
use secu_msg_server.Messages.Store.{
  Message, MessageDb, Laws, is_null, is_live, update_live, is_pending, member, touches, older,
  limit_of, pending_for_device, set_delivered, soft_delete, delete_messages,
}
use secu_msg_server.Messages.Service.{pending, mark_delivered, delete_for_device}

-- A row of an updated table that is live and does not pass the test's mark.
update_live_delivered :
    (ids : List ℕ) (at : ℕ) (t : List Message) (j : ℕ) (m : Message)
    → get_elem? (update_live (λ x. member x.id ids) (λ x. record x { delivered_at = some at }) t) j
      ≡ some m
    → is_live m ≡ true
    → is_null m.delivered_at ≡ true
    → member m.id ids ≡ false
update_live_delivered ids at [] j m e live waiting = absurd (ground arith)
update_live_delivered ids at (x ∷ t) zero m e live waiting =
    let same : (if is_live x && member x.id ids then record x { delivered_at = some at } else x)
        ≡ m =
      ground (arith, e) in
    elim (Bool-cases (is_live x && member x.id ids)) [
      | inl marked ↦
          let same' : record x { delivered_at = some at } ≡ m = rw marked at same in
          absurd (ground (arith, ap (λ y. is_null y.delivered_at) same', waiting))
      | inr kept ↦
          let same' : x ≡ m = rw kept at same in
          ground (arith, kept, ap is_live same', live, ap (λ y. member y.id ids) same')
    ]
update_live_delivered ids at (x ∷ t) (suc j) m e live waiting =
    update_live_delivered ids at t j m e live waiting

update_live_deleted :
    (test : Message → Bool) (at : ℕ) (t : List Message) (j : ℕ) (m : Message)
    → get_elem? (update_live test (λ x. record x { deleted_at = some at }) t) j ≡ some m
    → is_live m ≡ true
    → test m ≡ false
update_live_deleted test at [] j m e live = absurd (ground arith)
update_live_deleted test at (x ∷ t) zero m e live =
    let same : (if is_live x && test x then record x { deleted_at = some at } else x) ≡ m =
      ground (arith, e) in
    elim (Bool-cases (is_live x && test x)) [
      | inl marked ↦
          let same' : record x { deleted_at = some at } ≡ m = rw marked at same in
          absurd (ground (arith, ap is_live same', live))
      | inr kept ↦
          let same' : x ≡ m = rw kept at same in
          ground (arith, kept, ap is_live same', live, ap test same')
    ]
update_live_deleted test at (x ∷ t) (suc j) m e live = update_live_deleted test at t j m e live

module _ (db : MessageDb) (laws : Laws db) where
  -- What a device gets is in the table, live, addressed to it and not delivered.
  pending_sound :
      (device limit i : ℕ) (m : Message) (t t' ms : List Message)
      → pending db device limit t ≡ (ok ms, t')
      → get_elem? ms i ≡ some m
      → (j : ℕ) × (get_elem? t j ≡ some m) × (is_live m ≡ true) × (is_pending device m ≡ true)
  unfolding pending pending_for_device
  pending_sound device limit i m t t' ms e at =
      laws.found (is_pending device) older (limit_of limit) t ms i m (ground (arith, e)) at

  -- Once `MarkDelivered` has succeeded for some messages, none of them is among those that any device
  -- gets from `Pending`; what it gets is addressed to it and not delivered yet.
  pub pending_after_delivery :
      (now device limit i : ℕ) (ids : List ℕ) (m : Message) (t t' t'' ms : List Message)
      → mark_delivered db now ids t ≡ (ok tt, t')
      → pending db device limit t' ≡ (ok ms, t'')
      → get_elem? ms i ≡ some m
      → (member m.id ids ≡ false) × (m.to_device_id ≡ device) × (is_null m.delivered_at ≡ true)
  unfolding mark_delivered set_delivered
  pending_after_delivery now device limit i [] m t t' t'' ms marked got at =
      let (j, there, live, waits) = pending_sound device limit i m t' t'' ms got at in
      (refl, ground (arith, waits), ground (arith, waits))
  pending_after_delivery now device limit i (id ∷ ids) m t t' t'' ms marked got at =
      let (j, there, live, waits) = pending_sound device limit i m t' t'' ms got at in
      let test = λ (x : Message). member x.id (id ∷ ids) in
      let at' : ℕ = db.timestamptz now in
      let mark = λ (x : Message). record x { delivered_at = some at' } in
      let written : db.update test mark t ≡ ok t' = elim (Result-cases (db.update test mark t)) [
        | inl (t₁, done) ↦ let same : t₁ ≡ t' = ground (arith, done, marked) in done ∙ ap ok same
        | inr (x, failed) ↦ absurd (ground (arith, failed, marked))
      ] in
      let row = ap (λ x. get_elem? x j) (sym (laws.updated test mark t t' written)) ∙ there in
      let null : is_null m.delivered_at ≡ true = ground (arith, waits) in
      (update_live_delivered (id ∷ ids) at' t j m row live null, ground (arith, waits), null)

  -- Once `DeleteForDevice` has succeeded for a device, no message from it or to it is among those
  -- that any device gets from `Pending`.
  pub pending_after_deletion :
      (now device other limit i n : ℕ) (m : Message) (t t' t'' ms : List Message)
      → delete_for_device db now device t ≡ (ok n, t')
      → pending db other limit t' ≡ (ok ms, t'')
      → get_elem? ms i ≡ some m
      → touches device m ≡ false
  unfolding delete_for_device delete_messages soft_delete
  pending_after_deletion now device other limit i n m t t' t'' ms gone got at =
      let (j, there, live, waits) = pending_sound other limit i m t' t'' ms got at in
      elim (Bool-cases (device == 0)) [
        | inl zero_id ↦ absurd (ground (arith, zero_id, gone))
        | inr named ↦
            let written : db.delete now (touches device) t ≡ ok (n, t') =
              elim (Result-cases (db.delete now (touches device) t)) [
                | inl (x, done) ↦
                    let same : x ≡ (n, t') = ground (arith, named, done, gone) in done ∙ ap ok same
                | inr (x, failed) ↦ absurd (ground (arith, named, failed, gone))
              ] in
            let rows = (laws.deleted now (touches device) n t t' written).0 in
            update_live_deleted (touches device) (db.timestamptz now) t j m
              (ap (λ x. get_elem? x j) (sym rows) ∙ there) live
      ]
