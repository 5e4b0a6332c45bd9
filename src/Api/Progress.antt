-- ===== src/Api/Progress.antt =====
-- The progress log of a download (internal/api/progress.go): the counters of progressWriterAt. What a
-- line says is not modelled; the answer tells whether one is logged.
use proxs.Prelude.{
  ℕ, ◌+◌, ◌-◌, ◌≡◌, Bool, true, false, List, [], ◌∷◌, arith, leb, if◌then◌else◌, ◌==◌, nat_eq,
  list_eq,
}

-- `progressWriterAt`, with times in nanoseconds.
pub record ProgressWriter : Type 0 where
  pub total : ℕ
  pub written : ℕ
  pub last_log : ℕ
  pub started : ℕ

-- `newProgressWriterAt`.
abbrev pub new_progress_writer : ℕ → ℕ → ProgressWriter
new_progress_writer total now = record { total = total; written = 0; last_log = now; started = now }

-- Thirty seconds.
abbrev pub progress_interval : ℕ
progress_interval = 30000000000

-- `WriteAt` at a time, once the underlying writer has taken `n` bytes. The clock does not run back.
unfoldable pub write_at : ℕ → ℕ → ProgressWriter → Bool × ProgressWriter
write_at now n p =
    let counted = record p { written = p.written + n } in
    if n == 0
    then (false, p)
    else if leb progress_interval (now - p.last_log)
    then (true, record counted { last_log = now })
    else (false, counted)

unfoldable pub write_all : List (ℕ × ℕ) → ProgressWriter → ProgressWriter
unfolding write_at
write_all [] p = p
write_all ((now, n) ∷ rest) p = write_all rest (write_at now n p).1

abbrev pub bytes_of : List (ℕ × ℕ) → ℕ
bytes_of [] = 0
bytes_of ((now, n) ∷ rest) = n + bytes_of rest

-- In whatever order the chunks come, the count is the bytes that were taken.
pub write_all-bytes_of :
    (chunks : List (ℕ × ℕ)) (p : ProgressWriter)
    → (write_all chunks p).written ≡ p.written + bytes_of chunks
unfolding write_all write_at
write_all-bytes_of [] p = omega arith
write_all-bytes_of ((now, n) ∷ rest) p =
    ground (arith, write_all-bytes_of rest (write_at now n p).1)
