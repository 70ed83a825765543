-- ===== src/Websocket/Downloads.antt =====
-- pkg/websocket/client.go, `HandleDownloadLog`: the dials and the copy of a log.
use mathlib.Core.List.{append_assoc, append-nil, flatten}
use choerodon_cluster_agent.Base.{
  ℕ, zero, suc, ◌+◌, ◌≤◌, ◌<◌, ◌≡◌, refl, sym, ◌∙◌, ap, Bool, true, false, List, [], ◌∷◌, ◌++◌,
  arith, ltb, replicate, All,
}
use choerodon_cluster_agent.Base.Text.{Text}

-- What a dial answers: a response with the status "not found", an error, or a connection.
pub data Dialled : Type 0 where
  not_found dial_failed connected : Dialled

-- How the loop over the dials stands. A `fault` is the call of `err.Error()` on the nil `err`.
pub data Dialling : Type 0 where
  gone fault dialling : Dialling
  opened : Dialling

-- The loop over the dials, with `dialCount`.
unfoldable pub dial_download : ℕ → List Dialled → Dialling
dial_download count [] = elim (ltb 20 count) [ true ↦ fault | false ↦ dialling ]
dial_download count (d ∷ dials) =
    let rest = dial_download (count + 1) dials in
    elim (ltb 20 count) [
      | true ↦ fault
      | false ↦ elim d [ not_found ↦ gone | connected ↦ opened | dial_failed ↦ rest ]
    ]

module _ {C : Type 0} (write : C → Text → C × Bool) where
  -- The loop of the copy, over what the reads of the log return: the bytes, and whether there is an
  -- error with them.
  unfoldable pub copy_log : List (Text × Bool) → C → C
  copy_log [] c = c
  copy_log (([], failed) ∷ reads) c = c
  copy_log ((b ∷ bytes, true) ∷ reads) c = c
  copy_log ((b ∷ bytes, false) ∷ reads) c =
      let w = write c (b ∷ bytes) in elim w.1 [ true ↦ copy_log reads w.0 | false ↦ w.0 ]

dial-failures :
    (n count : ℕ) (dials : List Dialled)
    → n + count ≤ 20
    → dial_download count (replicate n dial_failed ++ dials) ≡ dial_download (count + n) dials
unfolding dial_download
dial-failures zero count dials h = let e : count + 0 ≡ count = omega arith in rw e refl
dial-failures (suc n) count dials h =
    let e : count + 1 + n ≡ count + suc n = omega arith in
    ground (arith, dial-failures n (count + 1) dials (omega arith), e)

dial-over : (count : ℕ) (dials : List Dialled) → 20 < count → dial_download count dials ≡ fault
unfolding dial_download
dial-over count [] h = ground arith
dial-over count (d ∷ dials) h = ground arith

dial-first :
    (count : ℕ) (d : Dialled) (dials : List Dialled)
    → count ≤ 20
    → dial_download count (d ∷ dials) ≡ elim d [
      | not_found ↦ gone
      | connected ↦ opened
      | dial_failed ↦ dial_download (count + 1) dials
    ]
unfolding dial_download
dial-first count d dials h = ground arith

-- A dial that succeeds after at most twenty failures opens the connection, and one that is not found
-- ends the download; after twenty-one failures the handler does not return but faults, whatever the
-- next dials would have answered.
dial_download-failures :
    (n : ℕ) (dials : List Dialled)
    → n ≤ 20
    → (dial_download 0 (replicate n dial_failed ++ connected ∷ dials) ≡ opened)
      × (dial_download 0 (replicate n dial_failed ++ not_found ∷ dials) ≡ gone)
      × (dial_download 0 (replicate 21 dial_failed ++ dials) ≡ fault)
dial_download-failures n dials h = (
  dial-failures n 0 (connected ∷ dials) (omega arith)
      ∙ dial-first (0 + n) connected dials (omega arith),
  dial-failures n 0 (not_found ∷ dials) (omega arith)
      ∙ dial-first (0 + n) not_found dials (omega arith),
  dial-failures 20 0 (dial_failed ∷ dials) (omega arith)
      ∙ dial-first 20 dial_failed dials (omega arith)
      ∙ dial-over 21 dials (omega arith),
)

-- A read that returns bytes and no error.
abbrev pub IsChunk : Text × Bool → Type 0
IsChunk ([], failed) = ⊥
IsChunk (b ∷ bytes, failed) = failed ≡ false

abbrev pub bytes_of : List (Text × Bool) → List Text
bytes_of [] = []
bytes_of ((bytes, failed) ∷ reads) = bytes ∷ bytes_of reads

module _ {C : Type 0} (write : C → Text → C × Bool) (sent : C → Text)
    (delivers : (c : C) (f : Text)
      → ((write c f).1 ≡ true) × (sent (write c f).0 ≡ sent c ++ f)) where
  -- Where every write succeeds, which `delivers` says with what a write then transmits, the copy
  -- transmits all that was read up to the first error, in order; the bytes that the failing read itself
  -- returns are lost.
  pub copy_log-sent :
      (reads after : List (Text × Bool)) (last : Text) (c : C)
      → All IsChunk reads
      → sent (copy_log write (reads ++ (last, true) ∷ after) c) ≡ sent c ++ flatten (bytes_of reads)
  unfolding copy_log flatten
  copy_log-sent [] after [] c h = sym (append-nil (sent c))
  copy_log-sent [] after (b ∷ last) c h = sym (append-nil (sent c))
  copy_log-sent (([], failed) ∷ reads) after last c h = absurd h.0
  copy_log-sent ((b ∷ bytes, true) ∷ reads) after last c h = absurd (ground arith)
  copy_log-sent ((b ∷ bytes, false) ∷ reads) after last c h =
      let w = delivers c (b ∷ bytes) in
      rw (w.0, copy_log)
        (copy_log-sent reads after last (write c (b ∷ bytes)).0 h.1
          ∙ ap (λ s. s ++ flatten (bytes_of reads)) w.1
          ∙ append_assoc (sent c) (b ∷ bytes) (flatten (bytes_of reads)))
