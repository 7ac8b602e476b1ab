-- ===== src/Status.antt =====
-- The status codes of status.h, and what a function returns that answers with one of them.
use peach_os64bit_module_two.Common.{ℕ}

-- A function returns `-EINVARG` as `err einvarg`. A bare `-1` is `-EIO`.
pub data Errno : Type 0 where
  eio einvarg enomem ebadpath efsnotus erdonly eunimp eistkn einformat eoutofrange : Errno
  enotfound etimeout einval enoent : Errno

-- A negative result is an `err`, any other one is `ok`.
pub data Result {ℓ} (A : Type ℓ) : Type ℓ where
  ok : A → Result A
  err : Errno → Result A

-- The numbers that status.h gives to the codes.
unfoldable pub errno_value : Errno → ℕ
errno_value eio = 1
errno_value einvarg = 2
errno_value enomem = 3
errno_value ebadpath = 4
errno_value efsnotus = 5
errno_value erdonly = 6
errno_value eunimp = 7
errno_value eistkn = 8
errno_value einformat = 9
errno_value eoutofrange = 10
errno_value enotfound = 11
errno_value etimeout = 12
errno_value einval = 13
errno_value enoent = 14
