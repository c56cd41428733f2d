-- ===== src/Disk.antt =====
-- What the scripts find at a path: the result of `lstat` and of reading the file.
use latchway_android.Base.{ℕ, Bool, Option, List}

-- What `lstat` and a read of a path find; `bytes` is `none` where the read raises `OSError`.
pub record File : Type 0 where
  pub regular : Bool
  pub symlink : Bool
  pub size : ℕ
  pub bytes : Option (List ℕ)

-- A path: `none` where `lstat` raises `OSError`.
abbrev pub FilePath : Type 0
FilePath = Option File
