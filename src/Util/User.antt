-- ===== src/Util/User.antt =====
-- src/util/user.rs: whether the effective user is root.
use schtest.Prelude.{ℕ, Bool, ◌==◌}

-- `is_root`, of the effective user id
pub is_root : (euid : ℕ) → Bool
is_root euid = euid == 0
