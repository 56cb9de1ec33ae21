-- ===== src/FileMode.antt =====
-- src/libgit.rs: `FileMode`, the type and permission bits of a git tree entry.
use Prim.Native.Nat.{bit_and, bit_or}
use git_cinnabar.Common.{ℕ}

-- The octal 100000, 120000, 040000, 160000, 644, 755.
abbrev pub regular : ℕ
regular = 0o100000

abbrev pub symlink : ℕ
symlink = 0o120000

abbrev pub directory : ℕ
directory = 0o040000

abbrev pub gitlink : ℕ
gitlink = 0o160000

abbrev pub rw_mode : ℕ
rw_mode = 0o644

abbrev pub rwx_mode : ℕ
rwx_mode = 0o755

abbrev pub none_mode : ℕ
none_mode = 0

unfoldable pub typ : ℕ → ℕ
typ mode = bit_and mode 0o170000

-- `mode & !0o170_000`, of 16 bits.
unfoldable pub perms : ℕ → ℕ
perms mode = bit_and mode 0o007777

-- `BitOr`.
unfoldable pub with_perms : ℕ → ℕ → ℕ
with_perms mode permissions = bit_or mode permissions
