-- ===== src/Gcid/File.antt =====
-- internal/util.go: `GetFileGcid`, the hash of a file that is read piece by piece.
use pan_client.Base.{
  ℕ, suc, ◌+◌, ◌/◌, ◌%◌, ◌<◌, ◌≡◌, refl, sym, ap, ◌∙◌, ltb, if◌then◌else◌, Option, none, some, List,
  [], ◌∷◌, ◌++◌, Text, length, Result, ok, err, arith,
}
use pan_client.Gcid.{Gcid, cal_block_size, new_gcid, write, sum}
use pan_client.Gcid.BlockSize.{cal_block_size_lem}
use pan_client.Gcid.Stream.{feed, feed-append, feed-IsOpen, write-feed}
use pan_client.Gcid.Digest.{block_digests, sum-feed}

abbrev hex_digit : ℕ → ℕ
hex_digit n = if ltb n 10 then 48 + n else 87 + n

-- `hex.EncodeToString`.
unfoldable pub hex : Text → Text
hex [] = []
hex (b ∷ s) = hex_digit (b / 16) ∷ (hex_digit (b % 16) ∷ hex s)

unfoldable pub concat : List Text → Text
concat [] = []
concat (p ∷ ps) = p ++ concat ps

module _ (sha1 : Text → Text) where
  -- `io.CopyBuffer` over what the reads of the file give.
  unfoldable pub copy_pieces : List Text → Gcid → Option Gcid
  copy_pieces [] h = some h
  copy_pieces (p ∷ ps) h = elim (write sha1 h p) [ none ↦ none | some g ↦ copy_pieces ps g ]

  abbrev pub finish_gcid : {E : Type 0} → Option E → Option Gcid → Option (Result E Text)
  finish_gcid failed none = none
  finish_gcid none (some h) = some (ok (hex (sum sha1 h).0))
  finish_gcid (some e) (some h) = some (err e)

  -- `stat` is what opening the file and `Stat` give, `failed` the error that ends the reads, if any.
  unfoldable pub get_file_gcid :
      {E : Type 0} → Result E ℕ → List Text → Option E → Option (Result E Text)
  unfolding copy_pieces
  get_file_gcid (err e) pieces failed = some (err e)
  get_file_gcid (ok size) pieces failed = finish_gcid failed (copy_pieces pieces (new_gcid size))

  copy_pieces-feed :
      (ps : List Text)
      → (h : Gcid) → h.offset < h.block_size
      → copy_pieces ps h ≡ some (feed sha1 h (concat ps))
  unfolding copy_pieces concat feed
  copy_pieces-feed [] h o = refl
  copy_pieces-feed (p ∷ ps) h o =
      rw (copy_pieces, write-feed sha1 h p o)
        (copy_pieces-feed ps (feed sha1 h p) (feed-IsOpen sha1 h p o)
          ∙ ap some (sym (feed-append sha1 h p (concat ps))))

  -- `GetFileGcid` of a file that opens and is read without an error does not run out of rounds, and
  -- however the reads cut the file its answer is, in hexadecimal digits, the hash of the digests of the
  -- blocks of the file, one after the other, in blocks of the size for the size that `Stat` gives.
  pub get_file_gcid_lem :
      {E : Type 0}
      → (size : ℕ) → (pieces : List Text)
      → get_file_gcid {E = E} (ok size) pieces none
        ≡ some (
            ok (
              hex (
                sha1 (
                  block_digests sha1
                    (suc (length (concat pieces)))
                    (cal_block_size size)
                    (concat pieces)))))
  unfolding get_file_gcid new_gcid
  get_file_gcid_lem size pieces =
      let pos : 0 < cal_block_size size = omega (arith, cal_block_size_lem size) in
      ap (finish_gcid none) (copy_pieces-feed pieces (new_gcid size) pos)
      ∙ ap (λ d. some (ok (hex d)))
          (sum-feed sha1 (suc (length (concat pieces))) (new_gcid size) (concat pieces) refl refl
            pos (omega arith))
