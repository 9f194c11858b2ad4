-- ===== src/Auth/Tokens/Steps.antt =====
-- The calls of services/auth/internal/service/impl/token_service_impl.go as steps on the tables, in
-- any order. Refresh is two steps, its reading of the session and its rotation, so that other calls
-- may come in between; the second is allowed with any session. A failed call may have written.
use secu_msg_server.Auth.Verify.{verify_access}
use secu_msg_server.Common.{ℕ, nat_eq, Option, List}
use secu_msg_server.Bytes.{Bytes}
use secu_msg_server.Auth.Types.{User, Session, Tables, VerifyRequest}
use secu_msg_server.Auth.Store.Sessions.{revoke_all_sessions}
use secu_msg_server.Auth.Tokens.{TokenService, Draws, issue, find_refreshed, rotate, revoke_session}

-- The steps whose draws are allowed.
pub data Step (s : TokenService) (allowed : Draws → Type 0) : Tables → Tables → Type 0 where
  issued :
      (e : Draws) (user : User) (device : Option ℕ) (ip : Bytes) (ua : List ℕ) (t : Tables)
      → allowed e
      → Step s allowed t (issue s e user device ip ua t).1
  found : (e : Draws) (token : Bytes) (t : Tables) → Step s allowed t (find_refreshed s e token t).1
  rotated_to :
      (e : Draws) (sess : Session) (ip : Bytes) (ua : List ℕ) (t : Tables)
      → allowed e
      → Step s allowed t (rotate s e sess ip ua t).1
  revoked : (e : Draws) (id : ℕ) (t : Tables) → Step s allowed t (revoke_session s e id t).1
  revoked_all : (user at : ℕ) (t : Tables) → Step s allowed t (revoke_all_sessions s.db user at t).1
  verified :
      (e : Draws) (req : VerifyRequest) (t : Tables) → Step s allowed t (verify_access s e req t).1

pub data Reach (s : TokenService) (allowed : Draws → Type 0) : Tables → Tables → Type 0 where
  here : (t : Tables) → Reach s allowed t t
  next : (t t1 t2 : Tables) → Step s allowed t t1 → Reach s allowed t1 t2 → Reach s allowed t t2

-- What every step keeps, every run of steps keeps.
pub Reach-Keeps :
    (s : TokenService) (allowed : Draws → Type 0) (P : Tables → Type 0) (t t' : Tables)
    → ((a b : Tables) → Step s allowed a b → P a → P b)
    → Reach s allowed t t'
    → P t
    → P t'
Reach-Keeps s allowed P _ _ keep (here t) h = h
Reach-Keeps s allowed P _ _ keep (next t t1 t2 one rest) h =
    Reach-Keeps s allowed P t1 t2 keep rest (keep t t1 one h)
