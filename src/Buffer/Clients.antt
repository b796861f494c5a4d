-- ===== src/Buffer/Clients.antt =====
-- The clients of the buffer (MutableBuffer.h): the views that are out, and the steps.
use dynamic_extension.Base.{ℕ, ◌+◌, ◌<◌, ◌≡◌, Bool, some, List, [], ◌∷◌, if◌then◌else◌, ◌==◌}
use dynamic_extension.Bloom.{Bloom}
use dynamic_extension.Record.{Record}
use dynamic_extension.Buffer.{Buffer, append, get_head, release_head_reference, advance_head}

-- The heads of the views that are out, one entry for each view.
unfoldable pub count : ℕ → List ℕ → ℕ
count h [] = 0
count h (x ∷ xs) = (if x == h then 1 else 0) + count h xs

-- One view of `h` fewer.
unfoldable pub erase : ℕ → List ℕ → List ℕ
erase h [] = []
erase h (x ∷ xs) = if x == h then xs else x ∷ erase h xs

-- The buffer with its clients: appends, views that are taken and given back, and advances.
pub record Shared (F : Type 0) : Type 0 where
  pub buf : Buffer F
  pub held : List ℕ

pub data Step {F : Type 0} (b : Bloom F) (s : Shared F) (t : Shared F) : Type 0 where
  appends :
      (rec : Record) (tombstone logging : Bool) (done : Bool)
      → append b s.buf rec tombstone logging ≡ (done, t.buf)
      → t.held ≡ s.held
      → Step b s t
  takes :
      (target h : ℕ) → get_head s.buf target ≡ some (h, t.buf) → t.held ≡ h ∷ s.held → Step b s t
  releases :
      (h : ℕ)
      → 0 < count h s.held
      → release_head_reference s.buf h ≡ some t.buf
      → t.held ≡ erase h s.held
      → Step b s t
  advances :
      (new_head : ℕ) (done : Bool)
      → advance_head s.buf new_head ≡ some (done, t.buf)
      → t.held ≡ s.held
      → Step b s t

pub data Reach {F : Type 0} (b : Bloom F) (s : Shared F) : Shared F → Type 0 where
  here : Reach b s s
  next : {t u : Shared F} → Reach b s t → Step b t u → Reach b s u
