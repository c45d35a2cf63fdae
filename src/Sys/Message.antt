-- ===== src/Sys/Message.antt =====
-- What `Errno` of lib.rs offers to its users: its number, and its text.
use xdpilone.Base.{ℕ, List, [], ◌∷◌, ◌++◌}
use xdpilone.Sys.{ℤ, Errno, Libc, last_os_error}

-- `get_raw`
abbrev pub get_raw : Errno → ℤ
get_raw err = err.raw

-- The deprecated `Errno::new`
abbrev pub new_errno : {W : Type 0} → Libc W → W → Errno
new_errno libc w = last_os_error libc w

-- Texts are lists of bytes. `strerror` gives the bytes before the NUL, `to_string_lossy` the text of
-- them, and `decimal` is how a c_int is printed.
module _ (strerror : ℤ → List ℕ) (to_string_lossy : List ℕ → List ℕ) (decimal : ℤ → List ℕ) where
  -- `Display`
  abbrev pub display : Errno → List ℕ
  display err = to_string_lossy (strerror err.raw)

  -- `Debug`: `Errno({}: {})`
  abbrev pub debug : Errno → List ℕ
  debug err =
      (69 ∷ 114 ∷ 114 ∷ 110 ∷ 111 ∷ 40 ∷ [])
      ++ decimal err.raw
      ++ (58 ∷ 32 ∷ [])
      ++ display err
      ++ (41 ∷ [])
