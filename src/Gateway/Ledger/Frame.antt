-- ===== src/Gateway/Ledger/Frame.antt =====
-- One frame of the evidence file (gateway/src/gw_ledger.c): written, read back, and cut short.
use axioma_oracle.Prelude.{
  ℕ, ◌+◌, ◌-◌, ◌≤◌, ◌<◌, ◌≡◌, ◌∙◌, refl, ap, [], ◌∷◌, ◌++◌, append_assoc, none, some, Option, arith,
  Bytes, length, length-append, length-take, take, take-exact, drop-exact, take_beyond, le→ltb,
  lt→ltb,
}
use native.Mathlib.Decide.{dec_lt}
use axioma_oracle.Gateway.Ledger.{
  tag_max, payload_max, wr_u32le, wr_u64le, Reading, read_exact, read_stored, read_payload,
  read_plen, read_tag, read_tag_len, read_frame, frame_bytes,
}
use axioma_oracle.Gateway.Ledger.Words.{rd_u32le-wr_u32le, rd_u64le-wr_u64le, length-wr_u64le}

-- What `gwl_append` admits as an entry, and a commitment of 32 bytes.
abbrev pub Fits : Bytes → Bytes → Bytes → Type 0
Fits tag payload commit =
    (0 < length tag)
    × (length tag ≤ tag_max)
    × (0 < length payload)
    × (length payload ≤ payload_max)
    × (length commit ≡ 32)

read_exact_whole : (n : ℕ) (xs ys : Bytes) → length xs ≡ n → read_exact n (xs ++ ys) ≡ some (xs, ys)
unfolding read_exact
read_exact_whole n xs ys h =
    rw
      (
        le→ltb (length (xs ++ ys)) n (omega (arith, length-append xs ys)),
        take-exact n xs ys h,
        drop-exact n xs ys h,
      )
      refl

read_exact_short : (n : ℕ) (s : Bytes) → length s < n → read_exact n s ≡ none
unfolding read_exact
read_exact_short n s h = rw (lt→ltb (length s) n h) refl

-- A part of `n` bytes and what follows, cut after `k` bytes.
read_cut :
    (f : Option (Bytes × Bytes) → Reading) (n k : ℕ) (xs ys : Bytes)
    → length xs ≡ n
    → k < n + length ys
    → f none ≡ Reading.short
    → ((j : ℕ) → j < length ys → f (some (xs, take j ys)) ≡ Reading.short)
    → f (read_exact n (take k (xs ++ ys))) ≡ Reading.short
read_cut f n k xs ys size below empty later = elim (dec_lt k n) [
  | yes cut ↦
      rw (read_exact_short n (take k (xs ++ ys)) (omega (arith, length-take k (xs ++ ys)))) empty
  | no whole ↦
      rw (take_beyond k xs ys (omega arith), read_exact_whole n xs (take (k - length xs) ys) size)
        (later (k - length xs) (omega arith))
]

module _ (tag payload commit : Bytes) (fits : Fits tag payload commit) where
  stored_cut :
      (k : ℕ) → k < 32 → read_stored tag payload (read_exact 32 (take k commit)) ≡ Reading.short
  unfolding read_stored
  stored_cut k h =
      rw (read_exact_short 32 (take k commit) (omega (arith, length-take k commit))) refl

  plen_lem :
      (rest : Bytes)
      → read_plen tag (some (wr_u64le (length payload), rest))
        ≡ read_payload tag (read_exact (length payload) rest)
  unfolding read_plen
  plen_lem rest =
      let (_, _, some_payload, bound, _) = fits in
      rw (rd_u64le-wr_u64le (length payload) (omega arith)) (ground arith)

  tag_len_lem :
      (rest : Bytes)
      → read_tag_len (some (wr_u32le (length tag), rest)) ≡ read_tag (read_exact (length tag) rest)
  unfolding read_tag_len
  tag_len_lem rest =
      let (some_tag, bound, _, _, _) = fits in
      rw (rd_u32le-wr_u32le (length tag) (omega arith)) (ground arith)

  nonempty : (s : Bytes) → 0 < length s → read_frame s ≡ read_tag_len (read_exact 4 s)
  unfolding read_frame
  nonempty [] h = absurd (omega arith)
  nonempty (c ∷ s) h = refl

  -- The frame of an entry, followed by anything, reads back as the entry.
  pub read_frame-frame_bytes :
      (rest : Bytes)
      → read_frame (frame_bytes tag payload commit ++ rest) ≡ Reading.frame tag payload commit rest
  unfolding frame_bytes read_tag read_payload read_stored wr_u32le
  read_frame-frame_bytes rest =
      let (_, _, _, _, size) = fits in
      let w = wr_u32le (length tag) in
      let h8 = wr_u64le (length payload) in
      let s3 = payload ++ (commit ++ rest) in
      let s1 = tag ++ (h8 ++ s3) in
      let flat : (w ++ (tag ++ (h8 ++ (payload ++ commit)))) ++ rest ≡ w ++ s1 =
        simp append_assoc in
      rw flat (
        nonempty (w ++ s1) (omega arith)
        ∙ ap read_tag_len (read_exact_whole 4 w s1 refl)
        ∙ tag_len_lem s1
        ∙ ap read_tag (read_exact_whole (length tag) tag (h8 ++ s3) refl)
        ∙ ap (read_plen tag) (read_exact_whole 8 h8 s3 (length-wr_u64le (length payload)))
        ∙ plen_lem s3
        ∙ ap (read_payload tag) (read_exact_whole (length payload) payload (commit ++ rest) refl)
        ∙ ap (read_stored tag payload) (read_exact_whole 32 commit rest size))

  -- A frame that was cut short is told as such.
  pub read_frame-take :
      (k : ℕ)
      → 0 < k
      → k < length (frame_bytes tag payload commit)
      → read_frame (take k (frame_bytes tag payload commit)) ≡ Reading.short
  unfolding frame_bytes read_tag read_payload wr_u32le
  read_frame-take k some_bytes below =
      let (_, _, _, _, size) = fits in
      let w = wr_u32le (length tag) in
      let h8 = wr_u64le (length payload) in
      let s2 = payload ++ commit in
      let s1 = h8 ++ s2 in
      nonempty (take k (w ++ (tag ++ s1))) (omega (arith, length-take k (w ++ (tag ++ s1))))
      ∙ read_cut read_tag_len 4 k w (tag ++ s1) refl (omega arith) (unfold read_tag_len in refl)
          (λ j hj.
            tag_len_lem (take j (tag ++ s1))
            ∙ read_cut read_tag (length tag) j tag s1 refl (omega (arith, length-append tag s1))
                refl
                (λ i hi.
                  read_cut (read_plen tag) 8 i h8 s2 (length-wr_u64le (length payload))
                    (omega (arith, length-append h8 s2, length-wr_u64le (length payload)))
                    (unfold read_plen in refl)
                    (λ m hm.
                      plen_lem (take m s2)
                      ∙ read_cut (read_payload tag) (length payload) m payload commit refl
                          (omega (arith, length-append payload commit)) refl
                          (λ n hn. stored_cut n (omega arith)))))
