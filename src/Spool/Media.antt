-- ===== src/Spool/Media.antt =====
-- The SD card, which src/telestore.cpp uses through the Arduino libraries `SD` and `FS`: its
-- operations, and what their documentation says of them.
use vorsprung_logger.Base.{
  ℕ, ◌≡◌, ◌≢◌, Bool, List, [], ◌++◌, Option, none, some, length, take, drop,
}

pub record Card : Type 1 where
  pub Fs : Type 0
  -- `begin` of the card; `exists` and `mkdir` for the folder `/SPOOL`.
  pub begin : Fs → Bool × Fs
  pub has_folder : Fs → Bool
  pub make_folder : Fs → Fs
  -- The files of the folder, as `openNextFile` names them one after the other; none if `open` of the
  -- folder fails.
  pub names : Fs → List (List ℕ)
  -- `open(path, FILE_WRITE)` and `open(path, FILE_READ)`; `none` is a failure.
  pub open_write : Fs → List ℕ → Option Fs
  pub open_read : Fs → List ℕ → Bool
  -- `write` at the end of the file: the bytes taken.
  pub write : Fs → List ℕ → List ℕ → ℕ × Fs
  pub flush : Fs → List ℕ → Fs
  pub close : Fs → List ℕ → Fs
  -- `read` of at most so many bytes at a position.
  pub read : Fs → List ℕ → ℕ → ℕ → List ℕ
  pub size : Fs → List ℕ → ℕ
  pub remove : Fs → List ℕ → Fs

-- A file is a list of bytes. The card keeps what is written to it.
pub record IsCard (c : Card) (content : c.Fs → List ℕ → Option (List ℕ)) : Type 0 where
  pub opened :
      (fs : c.Fs) (p : List ℕ) (fs' : c.Fs)
      → content fs p ≡ none
      → c.open_write fs p ≡ some fs'
      → content fs' p ≡ some []
  pub written :
      (fs : c.Fs) (p bs old : List ℕ)
      → content fs p ≡ some old
      → (c.write fs p bs).0 ≡ length bs
      → content (c.write fs p bs).1 p ≡ some (old ++ bs)
  pub flushed : (fs : c.Fs) (p q : List ℕ) → content (c.flush fs p) q ≡ content fs q
  pub closed : (fs : c.Fs) (p q : List ℕ) → content (c.close fs p) q ≡ content fs q
  pub read_is :
      (fs : c.Fs) (p cells : List ℕ) (at n : ℕ)
      → content fs p ≡ some cells
      → c.read fs p at n ≡ take n (drop at cells)
  pub size_is :
      (fs : c.Fs) (p cells : List ℕ) → content fs p ≡ some cells → c.size fs p ≡ length cells
  pub removed : (fs : c.Fs) (p : List ℕ) → content (c.remove fs p) p ≡ none
  pub kept : (fs : c.Fs) (p q : List ℕ) → p ≢ q → content (c.remove fs p) q ≡ content fs q
