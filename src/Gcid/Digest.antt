-- ===== src/Gcid/Digest.antt =====
-- The digest of a file: the hash of the hashes of its blocks.
use pan_client.Base.{
  ℕ, zero, suc, ◌≤◌, ◌<◌, ◌≡◌, ◌≢◌, refl, sym, ap, ◌∙◌, inl, inr, ltb, some, [], ◌∷◌, ◌++◌,
  append_assoc, append-nil, Text, length, take, drop, length-take, length-drop, take-append-drop,
  take-all, drop-all, Bool-cases, ltb→lt, ltb→le, arith,
}
use pan_client.Gcid.{Gcid, cal_block_size, new_gcid, write, sum, reset}
use pan_client.Gcid.BlockSize.{cal_block_size_lem}
use pan_client.Gcid.Stream.{feed, feed-append, feed-block, feed-part, write-feed}

module _ (sha1 : Text → Text) where
  -- The digests of the blocks of `size` bytes, the last of which may be shorter, one after the other;
  -- a round for each byte is more than enough.
  unfoldable pub block_digests : ℕ → ℕ → Text → Text
  block_digests zero size p = []
  block_digests (suc f) size [] = []
  block_digests (suc f) size (b ∷ p) =
      sha1 (take size (b ∷ p)) ++ block_digests f size (drop size (b ∷ p))

  block_digests-nil : (f size : ℕ) → block_digests f size [] ≡ []
  unfolding block_digests
  block_digests-nil zero size = refl
  block_digests-nil (suc f) size = refl

  block_digests-part :
      (f size : ℕ) (b : ℕ) (p : Text)
      → length (b ∷ p) ≤ size
      → block_digests (suc f) size (b ∷ p) ≡ sha1 (b ∷ p)
  unfolding block_digests
  block_digests-part f size b p le =
      rw (take-all size (b ∷ p) le, drop-all size (b ∷ p) le, block_digests-nil f size)
        (append-nil (sha1 (b ∷ p)))

  -- What a hasher answers after bytes fed to it at the start of a block.
  pub sum-feed :
      (f : ℕ) (h : Gcid) (p : Text)
      → h.offset ≡ 0
      → h.hash_state ≡ []
      → 0 < h.block_size
      → length p < f
      → (sum sha1 (feed sha1 h p)).0 ≡ sha1 (h.hash ++ block_digests f h.block_size p)
  sum-feed zero h p z e pos lt = absurd (omega arith)
  sum-feed (suc f) h [] z e pos lt =
      rw (block_digests-nil (suc f) h.block_size, append-nil h.hash)
        (unfold sum feed in ground arith)
  sum-feed (suc f) h (b ∷ p) z e pos lt = elim (Bool-cases (ltb (length (b ∷ p)) h.block_size)) [
    | inl part ↦
        rw
          (
            feed-part sha1 h (b ∷ p) z e (omega arith) (ltb→lt _ _ part),
            block_digests-part f h.block_size b p (ground arith),
          )
          (unfold sum in ground arith)
    | inr full ↦
        let k = h.block_size in
        let rest = drop k (b ∷ p) in
        let h' = record h { hash = h.hash ++ sha1 (take k (b ∷ p)) } in
        let le = ltb→le (length (b ∷ p)) k full in
        let block =
          feed-block sha1 h (take k (b ∷ p)) z e pos (omega (arith, length-take k (b ∷ p))) in
        let fed : feed sha1 h (b ∷ p) ≡ feed sha1 h' rest =
          ap (feed sha1 h) (sym (take-append-drop k (b ∷ p)))
          ∙ feed-append sha1 h (take k (b ∷ p)) rest
          ∙ ap (λ g. feed sha1 g rest) block in
        ap (λ g. (sum sha1 g).0) fed
        ∙ sum-feed f h' rest z e pos (omega (arith, length-drop k (b ∷ p)))
        ∙ ap sha1 (
            append_assoc h.hash (sha1 (take k (b ∷ p))) (block_digests f k rest)
            ∙ (unfold block_digests in refl))
  ]

  -- A file written to a new hasher: the answer is the hash of the digests, one after the other, of
  -- the blocks of the file, in blocks of the size that was chosen for the announced size.
  sum-write :
      (size : ℕ) (p : Text)
      → (g : Gcid) × (write sha1 (new_gcid size) p ≡ some g)
        × ((sum sha1 g).0 ≡ sha1 (block_digests (suc (length p)) (cal_block_size size) p))
  unfolding new_gcid
  sum-write size p =
      let pos : 0 < cal_block_size size = omega (arith, cal_block_size_lem size) in
      (
        feed sha1 (new_gcid size) p,
        write-feed sha1 (new_gcid size) p pos,
        sum-feed (suc (length p)) (new_gcid size) p refl refl pos (omega arith),
      )

  -- `Reset` in the middle of a block leaves the offset: the next answer for no bytes at all is not
  -- that of a new hasher, the hash of nothing, but the hash of the hash of nothing.
  reset_stale :
      (h : Gcid) (size : ℕ)
      → h.offset ≢ 0
      → ((sum sha1 (new_gcid size)).0 ≡ sha1 []) × ((sum sha1 (reset h)).0 ≡ sha1 (sha1 []))
  unfolding sum new_gcid reset
  reset_stale h size n = ground arith
