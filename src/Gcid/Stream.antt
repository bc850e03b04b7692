-- ===== src/Gcid/Stream.antt =====
-- `Write` in pieces: it does to the state what the bytes do one by one.
use pan_client.Base.{
  ℕ, zero, suc, ◌+◌, ◌≤◌, ◌<◌, ◌≡◌, refl, sym, ap, ◌∙◌, some, [], ◌∷◌, ◌++◌, append_assoc,
  append-nil, Text, length, take, drop, take-append-drop, length-take, length-drop, lt→ltb, arith,
}
use pan_client.Gcid.{Gcid, flush_block, fill_block, last_size, write_loop, write}

module _ (sha1 : Text → Text) where
  -- One byte: it joins the open block, which is closed when it is full.
  pub feed_byte : Gcid → ℕ → Gcid
  feed_byte h b =
      flush_block sha1 (record h { hash_state = h.hash_state ++ b ∷ []; offset = suc h.offset })

  unfoldable pub feed : Gcid → Text → Gcid
  feed h [] = h
  feed h (b ∷ p) = feed (feed_byte h b) p

  pub feed-append : (h : Gcid) (p q : Text) → feed h (p ++ q) ≡ feed (feed h p) q
  unfolding feed
  feed-append h [] q = refl
  feed-append h (b ∷ p) q = feed-append (feed_byte h b) p q

  abbrev pub IsOpen : Gcid → Type 0
  IsOpen h = h.offset < h.block_size

  -- Some bytes that fit into the open block, put there at once.
  add_bytes : Gcid → Text → Gcid
  add_bytes h p = record h { hash_state = h.hash_state ++ p; offset = h.offset + length p }

  flush_block-IsOpen : (h : Gcid) → IsOpen h → flush_block sha1 h ≡ h
  unfolding flush_block
  flush_block-IsOpen h o = ground arith

  feed_byte-IsOpen : (h : Gcid) (b : ℕ) → IsOpen h → IsOpen (feed_byte h b)
  unfolding feed_byte flush_block
  feed_byte-IsOpen h b o = ground arith

  pub feed-IsOpen : (h : Gcid) (p : Text) → IsOpen h → IsOpen (feed h p)
  unfolding feed
  feed-IsOpen h [] o = o
  feed-IsOpen h (b ∷ p) o = feed-IsOpen (feed_byte h b) p (feed_byte-IsOpen h b o)

  add_bytes-step :
      (h : Gcid) (b : ℕ) (p : Text)
      → add_bytes (record h { hash_state = h.hash_state ++ b ∷ []; offset = suc h.offset }) p
        ≡ add_bytes h (b ∷ p)
  unfolding add_bytes
  add_bytes-step h b p =
      let states = append_assoc h.hash_state (b ∷ []) p in
      let offsets : suc h.offset + length p ≡ h.offset + suc (length p) = omega arith in
      cc (states, offsets)

  -- Bytes that fit into the open block.
  feed-fits :
      (h : Gcid) (b : ℕ) (p : Text)
      → h.offset + suc (length p) ≤ h.block_size
      → feed h (b ∷ p) ≡ flush_block sha1 (add_bytes h (b ∷ p))
  unfolding feed feed_byte
  feed-fits h b [] le = ap (flush_block sha1) (sym (add_bytes-nil _) ∙ add_bytes-step h b [])
    where
      add_bytes-nil : (g : Gcid) → add_bytes g [] ≡ g
      add_bytes-nil g =
          let states = append-nil g.hash_state in
          let offsets : g.offset + 0 ≡ g.offset = omega arith in
          unfold add_bytes in cc (states, offsets)
  feed-fits h b (c ∷ p) le =
      let h' = record h { hash_state = h.hash_state ++ b ∷ []; offset = suc h.offset } in
      let still = flush_block-IsOpen h' (omega arith) in
      ap (λ g. feed g (c ∷ p)) still
      ∙ feed-fits h' c p (omega arith)
      ∙ ap (flush_block sha1) (add_bytes-step h b (c ∷ p))

  feed-fits_all :
      (h : Gcid) (p : Text)
      → 0 < length p
      → h.offset + length p ≤ h.block_size
      → feed h p ≡ flush_block sha1 (add_bytes h p)
  feed-fits_all h [] pos le = absurd (omega arith)
  feed-fits_all h (b ∷ p) pos le = feed-fits h b p le

  -- At the start of a block: bytes that fill it, and bytes that do not.
  pub feed-block :
      (h : Gcid) (p : Text)
      → h.offset ≡ 0
      → h.hash_state ≡ []
      → 0 < h.block_size
      → length p ≡ h.block_size
      → feed h p ≡ record h { hash = h.hash ++ sha1 p }
  unfolding flush_block add_bytes
  feed-block h p z e pos len = feed-fits_all h p (omega arith) (omega arith) ∙ ground arith

  pub feed-part :
      (h : Gcid) (p : Text)
      → h.offset ≡ 0
      → h.hash_state ≡ []
      → 0 < length p
      → length p < h.block_size
      → feed h p ≡ record h { hash_state = p; offset = length p }
  unfolding flush_block add_bytes
  feed-part h p z e pos len = feed-fits_all h p (omega arith) (omega arith) ∙ ground arith

  last_size_bounds :
      (h : Gcid) (b : ℕ) (p : Text)
      → IsOpen h
      → let k = last_size sha1 h (b ∷ p) in
        (0 < k) × (k ≤ length (b ∷ p)) × (h.offset + k ≤ h.block_size)
  unfolding last_size
  last_size_bounds h b p o = ground arith

  -- One round feeds the bytes that it takes.
  round :
      (f : ℕ) (h : Gcid) (b : ℕ) (p : Text)
      → IsOpen h
      → let k = last_size sha1 h (b ∷ p) in
        write_loop sha1 (suc f) h (b ∷ p)
        ≡ write_loop sha1 f (feed h (take k (b ∷ p))) (drop k (b ∷ p))
  unfolding write_loop fill_block
  round f h b p o =
      let k = last_size sha1 h (b ∷ p) in
      let (pos, le, fits) = last_size_bounds h b p o in
      let len : length (take k (b ∷ p)) ≡ k = omega (arith, length-take k (b ∷ p)) in
      rw
        (
          lt→ltb h.offset h.block_size o,
          feed-fits_all h (take k (b ∷ p)) (omega (arith, len)) (omega (arith, len)),
        )
        (unfold add_bytes in rw len refl)

  write_loop-feed :
      (f : ℕ) (h : Gcid) (p : Text)
      → IsOpen h
      → length p < f
      → write_loop sha1 f h p ≡ some (feed h p)
  write_loop-feed zero h p o lt = absurd (omega arith)
  write_loop-feed (suc f) h [] o lt = unfold write_loop feed in refl
  write_loop-feed (suc f) h (b ∷ p) o lt =
      let k = last_size sha1 h (b ∷ p) in
      let (pos, le, fits) = last_size_bounds h b p o in
      round f h b p o
      ∙ write_loop-feed f (feed h (take k (b ∷ p))) (drop k (b ∷ p))
          (feed-IsOpen h (take k (b ∷ p)) o) (omega (arith, length-drop k (b ∷ p)))
      ∙ ap some (
          sym (feed-append h (take k (b ∷ p)) (drop k (b ∷ p)))
          ∙ ap (feed h) (take-append-drop k (b ∷ p)))

  -- While the open block is not full, which holds of a new hasher and after every write, `Write`
  -- ends, leaves the open block not full, and two writes do what one write of all the bytes does.
  write-append :
      (h : Gcid) (p q : Text)
      → h.offset < h.block_size
      → (g : Gcid) × (write sha1 h p ≡ some g)
        × (g.offset < g.block_size)
        × (write sha1 g q ≡ write sha1 h (p ++ q))
  unfolding write
  write-append h p q o = (
    feed h p,
    write_loop-feed (suc (length p)) h p o (omega arith),
    feed-IsOpen h p o,
    write_loop-feed (suc (length q)) (feed h p) q (feed-IsOpen h p o) (omega arith)
        ∙ ap some (sym (feed-append h p q))
        ∙ sym (write_loop-feed (suc (length (p ++ q))) h (p ++ q) o (omega arith)),
  )

  pub write-feed :
      (h : Gcid) (p : Text) → h.offset < h.block_size → write sha1 h p ≡ some (feed h p)
  unfolding write
  write-feed h p o = write_loop-feed (suc (length p)) h p o (omega arith)
