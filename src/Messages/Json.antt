-- ===== src/Messages/Json.antt =====
-- The JSON column of services/messages/internal/msgjson/json.go: what goes to the database and what
-- comes back. json.Valid is a parameter.
use secu_msg_server.Common.{
  Bool, true, if◌then◌else◌, ◌==◌, nat_eq, length, [], Result, ok, err, ◌≡◌, arith, Bool-cases, inl,
  inr, sym, ap, ◌∙◌,
}
use secu_msg_server.Bytes.{Bytes, utf8}

-- The two errors of the type, and the one of Scan for other types.
pub data JsonError : Type 0 where
  invalid_value invalid_payload unsupported_scan_type : JsonError

-- What a driver hands to Scan.
pub data DriverValue : Type 0 where
  null other : DriverValue
  bytes text : Bytes → DriverValue

abbrev pub null_document : Bytes
null_document = utf8 "null"

module _ (valid : Bytes → Bool) where
  unfoldable pub marshal_json : Bytes → Result JsonError Bytes
  marshal_json j =
      if length j == 0 then ok null_document else if valid j then ok j else err invalid_value

  -- The new value; after an error the old one stays.
  unfoldable pub unmarshal_json : Bytes → Bytes → Result JsonError Bytes
  unmarshal_json j doc = if valid doc then ok doc else err invalid_payload

  -- driver.Valuer
  unfoldable pub json_value : Bytes → Result JsonError Bytes
  json_value j =
      if length j == 0 then ok null_document else if valid j then ok j else err invalid_value

  -- sql.Scanner
  unfoldable pub json_scan : Bytes → DriverValue → Result JsonError Bytes
  json_scan j null = ok []
  json_scan j (bytes b) = if valid b then ok b else err invalid_payload
  json_scan j (text b) = if valid b then ok b else err invalid_payload
  json_scan j other = err unsupported_scan_type

  -- Where the document null is valid JSON: what Value gives out for a document, if it
  -- succeeds, is read by Scan, from bytes or from text, and by UnmarshalJSON, as that
  -- document, or as null for an empty one; and MarshalJSON gives out the same bytes.
  pub json_scan-json_value :
      (j old out : Bytes)
      → valid null_document ≡ true
      → json_value j ≡ ok out
      → (json_scan old (bytes out) ≡ ok (if length j == 0 then null_document else j))
        × (json_scan old (text out) ≡ ok (if length j == 0 then null_document else j))
        × (marshal_json j ≡ ok out)
        × (unmarshal_json old out ≡ ok (if length j == 0 then null_document else j))
  unfolding json_value json_scan marshal_json unmarshal_json
  json_scan-json_value j old out null_valid written = elim (Bool-cases (length j == 0)) [
    | inl empty ↦
        let same : null_document ≡ out = ground (arith, empty, written) in
        let fits : valid out ≡ true = sym (ap valid same) ∙ null_valid in
        (
          rw (empty, fits) (ap ok (sym same)),
          rw (empty, fits) (ap ok (sym same)),
          rw empty (ap ok same),
          rw (empty, fits) (ap ok (sym same)),
        )
    | inr full ↦ elim (Bool-cases (valid j)) [
      | inl fits ↦
          let same : j ≡ out = ground (arith, full, fits, written) in
          let fits' : valid out ≡ true = sym (ap valid same) ∙ fits in
          (
            rw (full, fits') (ap ok (sym same)),
            rw (full, fits') (ap ok (sym same)),
            rw (full, fits) (ap ok same),
            rw (full, fits') (ap ok (sym same)),
          )
      | inr bad ↦ absurd (ground (arith, full, bad, written))
    ]
  ]
