-- ===== src/Auth/UserAgent.antt =====
-- TruncateUserAgent of services/auth/internal/netutil/netutil.go. A text is the list of its runes, as
-- `range` gives them.
use secu_msg_server.Common.{
  ℕ, zero, suc, ◌+◌, ◌≤◌, if◌then◌else◌, leb, List, [], ◌∷◌, ◌++◌, take, length, ◌≡◌, refl, arith,
  ap, sym, ◌∙◌, Bool-cases, inl, inr, leb→le, append-nil, append_assoc,
}

abbrev pub max_user_agent_length : ℕ
max_user_agent_length = 512

-- The loop over the runes, with what the builder holds and the count; it breaks at the limit.
unfoldable pub write_runes : List ℕ → List ℕ → ℕ → List ℕ
write_runes [] built count = built
write_runes (r ∷ ua) built count =
    let more = write_runes ua (built ++ r ∷ []) (count + 1) in
    if leb max_user_agent_length (count + 1) then built ++ r ∷ [] else more

unfoldable pub truncate_user_agent : List ℕ → List ℕ
truncate_user_agent [] = []
truncate_user_agent (r ∷ ua) =
    if leb (length (r ∷ ua)) max_user_agent_length then r ∷ ua else write_runes (r ∷ ua) [] 0

take_short : (n : ℕ) (xs : List ℕ) → length xs ≤ n → take n xs ≡ xs
take_short zero [] h = refl
take_short zero (x ∷ xs) h = absurd (omega arith)
take_short (suc n) [] h = refl
take_short (suc n) (x ∷ xs) h = ap (◌∷◌ x) (take_short n xs (omega arith))

write_runes_lem :
    (n : ℕ) (ua built : List ℕ) (count : ℕ)
    → count + suc n ≡ max_user_agent_length
    → write_runes ua built count ≡ built ++ take (suc n) ua
unfolding write_runes
write_runes_lem n [] built count h = sym (append-nil built)
write_runes_lem zero (r ∷ ua) built count h = ground arith
write_runes_lem (suc n) (r ∷ ua) built count h =
    let rest = write_runes_lem n ua (built ++ r ∷ []) (count + 1) (omega arith) in
    let shape : (built ++ r ∷ []) ++ take (suc n) ua ≡ built ++ r ∷ take (suc n) ua =
      append_assoc built (r ∷ []) (take (suc n) ua) in
    ground (arith, rest ∙ shape)

-- The loop over runes keeps exactly the first 512 runes of every text.
pub truncate_user_agent_lem : (ua : List ℕ) → truncate_user_agent ua ≡ take max_user_agent_length ua
unfolding truncate_user_agent
truncate_user_agent_lem [] = refl
truncate_user_agent_lem (r ∷ ua) = elim (Bool-cases (leb (length (r ∷ ua)) max_user_agent_length)) [
  | inl short ↦ rw short (
      sym (
        take_short max_user_agent_length (r ∷ ua)
          (leb→le (length (r ∷ ua)) max_user_agent_length short)))
  | inr long ↦ rw long (write_runes_lem 511 (r ∷ ua) [] 0 (omega arith))
]
