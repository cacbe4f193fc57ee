-- ===== src/Auth/Errors.antt =====
-- The results of the verifier, and their names in the protocol.
use remote_wake.Base.{ℕ, List, codes}

-- `rw_auth_err_t`; `ok` is RW_OK.
pub data AuthErr : Type 0 where
  ok bad_json version dev unknown_key sig stale replay unknown_act internal : AuthErr

pub auth_err_str : AuthErr → List ℕ
auth_err_str ok = codes "ok"
auth_err_str bad_json = codes "bad_request"
auth_err_str version = codes "version"
auth_err_str dev = codes "dev_mismatch"
auth_err_str unknown_key = codes "unknown_key"
auth_err_str sig = codes "sig"
auth_err_str stale = codes "stale"
auth_err_str replay = codes "replay"
auth_err_str unknown_act = codes "unknown_act"
auth_err_str internal = codes "internal"
