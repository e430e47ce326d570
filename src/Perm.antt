-- ===== src/Perm.antt =====
-- Permission bits of files: src/harlin/fs/perm.c.
pub mod Check
mod Examples
use har_lin_kernel.Base.{ℕ, ◌/◌, ◌%◌, ◌^◌, Bool, ◌==◌, if◌then◌else◌}
use Prim.Native.Nat.{bit_and}

-- The three bits of `mode` that hold for a user: those of the owner, of the group, or of all
-- others.
pub class_bits : ℕ → ℕ → ℕ → ℕ → ℕ → ℕ
class_bits mode file_owner file_group uid gid =
    if uid == file_owner
    then bit_and (mode / 2 ^ 6) 0x7
    else if gid == file_group
    then bit_and (mode / 2 ^ 3) 0x7
    else bit_and mode 0x7

-- `Harlin_PermCheck`; `want` is the 32-bit word of the `int`.
pub perm_check : ℕ → ℕ → ℕ → ℕ → ℕ → ℕ → Bool
unfolding class_bits
perm_check mode file_owner file_group uid gid want =
    bit_and (class_bits mode file_owner file_group uid gid) (want % 2 ^ 16) == want % 2 ^ 16
