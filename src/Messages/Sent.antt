-- ===== src/Messages/Sent.antt =====
-- What Enqueue of services/messages/internal/service/service.go writes.
use secu_msg_server.Common.{
  ℕ, true, false, ◌==◌, nat_eq, List, [], ◌⊎◌, ◌∷◌, ◌++◌, length, ok, err, Result-cases, Bool-cases,
  ◌≡◌, refl, ap, ◌∙◌, arith, inl, inr,
}
use secu_msg_server.Messages.Json.{json_value}
use secu_msg_server.Messages.Store.{
  Message, MessagesError, MessageDb, Laws, as_stored, create_message, invalid_request, database,
}
use secu_msg_server.Messages.Service.{SendInput, is_incomplete, message_of, enqueue}

module _ (db : MessageDb) where
  -- The header of a complete message goes to the database as it is, if it is JSON.
  header_valid :
      (x : SendInput)
      → is_incomplete x ≡ false
      → db.json_valid x.header ≡ true
      → json_value db.json_valid x.header ≡ ok x.header
  unfolding json_value
  header_valid x complete valid =
      let full : (length x.header == 0) ≡ false = ground (arith, complete) in rw (full, valid) refl

  -- The message that is returned: the one of the request, with the columns that Create fills in.
  abbrev pub sent_as : ℕ → SendInput → ℕ → Message
  sent_as now x id = record (message_of now x) { id = id; sent_at = db.timestamptz now }

  -- The message that Create gives back for a complete request.
  pub enqueue-created :
      (now : ℕ) (x : SendInput) (t t' : List Message) (m' : Message)
      → Laws db
      → is_incomplete x ≡ false
      → db.json_valid x.header ≡ true
      → db.create (message_of now x) t ≡ ok (m', t')
      → (enqueue db now x t ≡ (ok (sent_as now x m'.id), t'))
        × (t' ≡ t ++ as_stored db (sent_as now x m'.id) ∷ [])
  unfolding enqueue create_message
  enqueue-created now x t t' m' laws complete valid done =
      let out = header_valid x complete valid in
      let (row, rows) = laws.created (message_of now x) m' t t' done in
      let at : m'.sent_at ≡ db.timestamptz now = ap (λ (y : Message). y.sent_at) row in
      (rw (complete, out, done, at) refl, rows ∙ ap (λ y. t ++ as_stored db y ∷ []) row)

  -- The two ways in which Enqueue ends.
  pub enqueue-cases :
      (now : ℕ) (x : SendInput) (t : List Message)
      → Laws db
      → ((e : MessagesError) × (enqueue db now x t ≡ (err e, t)))
        ⊎ ((id : ℕ) × (t' : List Message) × (is_incomplete x ≡ false)
            × (db.json_valid x.header ≡ true)
            × (enqueue db now x t ≡ (ok (sent_as now x id), t'))
            × (t' ≡ t ++ as_stored db (sent_as now x id) ∷ []))
  unfolding enqueue create_message json_value
  enqueue-cases now x t laws = elim (Bool-cases (is_incomplete x)) [
    | inl bad ↦ inl (invalid_request, rw bad refl)
    | inr complete ↦
        let full : (length x.header == 0) ≡ false = ground (arith, complete) in
        elim (Bool-cases (db.json_valid x.header)) [
          | inr invalid ↦
              inl (database "msgjson.JSON: invalid JSON value", rw (complete, full, invalid) refl)
          | inl valid ↦ elim (Result-cases (db.create (message_of now x) t)) [
            | inr (e, failed) ↦ inl (e, rw (complete, full, valid, failed) refl)
            | inl ((m', t'), done) ↦
                let (sent, rows) = enqueue-created now x t t' m' laws complete valid done in
                inr (m'.id, t', complete, valid, sent, rows)
          ]
        ]
  ]
