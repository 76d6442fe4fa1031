-- ===== src/Stores/Remote/Missing.antt =====
-- Which errors the remote stores give for data that they do not have.
use scat.Prelude.{
  ◌≡◌, refl, ◌≢◌, ◌⊎◌, inl, inr, Bool, true, false, Option, none, some, [], ◌∷◌, arith, length,
}
use scat.Chunk.{Chunk, Bytes, size, with_data, bytes_data}
use scat.Errors.{Error, missing_data, exit_error, zero_bytes}
use scat.Procs.{Res, sent}
use scat.Procs.Commands.{Cmd, Exec, Ran, cmd_out, output_res, capture}
use scat.Stores.Remote.{rclone_unprocess, downloaded_all, downloaded, size_err, download_size}

-- What a command that ended like this yields: the chunk with its output, or an error of missing
-- data.
abbrev pub IsDownload : Chunk → Ran → Res → Type 0
IsDownload c ran r =
    ((ran.err ≡ none) × (ran.stdout ≢ []) × (r ≡ sent (with_data c (bytes_data ran.stdout))))
    ⊎ (((ran.err ≢ none) ⊎ (ran.stdout ≡ [])) × ((e : Error) × (r.err ≡ some (missing_data e))))

capture-some :
    (has : Bool) (buf : Bytes) (e : Error) → (d : Error) × (capture has buf (some e) ≡ some d)
unfolding capture
capture-some true buf e = (e, refl)
capture-some false buf (exit_error []) = (exit_error buf, refl)
capture-some false buf e = (e, refl)

download :
    (c : Chunk) (has : Bool) (out buf : Bytes) (err : Option Error)
    → (r : Res) × (downloaded_all (output_res c out (capture has buf err)) ≡ some (r ∷ []))
      × IsDownload c (record { stdout = out; stderr = buf; err = err }) r
unfolding downloaded_all downloaded download_size output_res size capture
download (Chunk.chunk n d h t m) true [] buf none = (_, refl, inr (inr refl, (zero_bytes, refl)))
download (Chunk.chunk n d h t m) false [] buf none = (_, refl, inr (inr refl, (zero_bytes, refl)))
download (Chunk.chunk n d h t m) true (b ∷ bs) buf none =
    let fine : size_err (inl (length (b ∷ bs))) ≡ none = ground arith in
    (_, refl, inl (refl, (λ e. cc), rw fine refl))
download (Chunk.chunk n d h t m) false (b ∷ bs) buf none =
    let fine : size_err (inl (length (b ∷ bs))) ≡ none = ground arith in
    (_, refl, inl (refl, (λ e. cc), rw fine refl))
download c has out buf (some e) =
    let (f, given) = capture-some has buf e in
    (
      record { chunk = some c; err = some (missing_data f) },
      rw given refl,
      inr (inl (λ n. cc), (f, refl)),
    )

-- Whatever `rclone cat` does, `Rclone.Unproc` yields one result: the chunk with the output if the
-- command succeeds and prints something, and otherwise an error of missing data.
pub rclone_unprocess-IsDownload :
    {W : Type 0} (exec : Exec W) (cat : Chunk → Cmd) (c : Chunk) (w : W)
    → (r : Res) × (rclone_unprocess exec cat c w ≡ some (r ∷ [], (exec (cat c) ([], none) w).1))
      × IsDownload c (exec (cat c) ([], none) w).0 r
unfolding rclone_unprocess cmd_out
rclone_unprocess-IsDownload exec cat c w =
    let (r, made, right) =
      let ran = (exec (cat c) ([], none) w).0 in
      download c (cat c).has_stderr ran.stdout ran.stderr ran.err in
    (r, rw (made, rclone_unprocess) refl, right)
