-- ===== src/Gateway/Ledger/Mirror.antt =====
-- The mirror of the evidence file for the witness (gateway/src/gw_ledger.c).
use axioma_oracle.Prelude.{
  length-take, ◌-◌, subst, ◌≤◌, sym, ◌<◌, ap, ◌∙◌, ℕ, ◌≡◌, ◌⊎◌, inl, inr, refl, Bool, false, ◌||◌,
  not, ◌++◌, none, some, Option, arith, Bytes, length, c_str, ltb, ◌==◌, Bool-cases, take, drop,
  take-all, zero, suc, [], ◌∷◌, ◌+◌, min,
}
use axioma_oracle.Gateway.Ledger.{
  copy_buf_size, true, tag_max, payload_max, frame_bytes, Chain, Ledger, mirror_frame, copy_loop,
  pread, put_piece, copy_next, after_copy, gwl_export_enable, write_frame, gwl_append,
}

-- The mirror is off, or a copy of the file to the byte.
abbrev pub IsMirrored : {Ctx : Type 0} → Ledger Ctx → Type 0
IsMirrored st = (st.mirror ≡ none) ⊎ (st.mirror ≡ some st.file)

mirror_frame-copy :
    (disk : ℕ) (bytes file : Bytes) (m : Option Bytes)
    → (m ≡ none) ⊎ (m ≡ some file)
    → (mirror_frame disk bytes m ≡ none) ⊎ (mirror_frame disk bytes m ≡ some (file ++ bytes))
unfolding mirror_frame
mirror_frame-copy disk bytes file m h = ground arith

take-nil : (n : ℕ) → take {A = ℕ} n [] ≡ []
take-nil zero = refl
take-nil (suc n) = refl

take-length-take : (n : ℕ) (s : Bytes) → take n s ≡ take (length (take n s)) s
take-length-take zero s = refl
take-length-take (suc n) [] = refl
take-length-take (suc n) (c ∷ s) =
    let k : suc (length (take n s)) ≡ length (c ∷ take n s) = omega arith in
    ap (λ t. c ∷ t) (take-length-take n s) ∙ ap (λ m. take m (c ∷ s)) k

take-next :
    (n off : ℕ) (file : Bytes)
    → take off file ++ take n (drop off file) ≡ take (off + length (take n (drop off file))) file
take-next n zero file =
    let k : length (take n file) ≡ 0 + length (take n file) = omega arith in
    take-length-take n file ∙ ap (λ m. take m file) k
take-next n (suc off) [] = take-nil n ∙ sym (take-nil (suc off + length (take {A = ℕ} n [])))
take-next n (suc off) (c ∷ file) =
    let l = length (take n (drop off file)) in
    let k : suc (off + l) ≡ suc off + l = omega arith in
    ap (λ t. c ∷ t) (take-next n off file) ∙ ap (λ m. take m (c ∷ file)) k

length-drop : (n : ℕ) (s : Bytes) → length (drop n s) ≡ length s - n
length-drop zero s = omega arith
length-drop (suc n) [] = omega arith
length-drop (suc n) (c ∷ s) = omega (arith, length-drop n s)

-- What the copy loop gives is the file.
copy_loop-copy :
    (reads : ℕ → ℕ) (disk : ℕ) (file : Bytes) (fuel off : ℕ) {out : Bytes}
    → copy_loop reads disk file (length file) fuel off (take off file) ≡ some out
    → out ≡ file
unfolding copy_loop pread put_piece copy_next
copy_loop-copy reads disk file zero off h = ground (arith, h, take-all off file)
copy_loop-copy reads disk file (suc fuel) off {out} h =
    let r = pread reads file off in
    elim (Bool-cases (ltb off (length file))) [
      | inr end ↦ ground (arith, simp end at h, take-all off file)
      | inl more ↦ elim (Bool-cases (length r == 0)) [
        | inl broken ↦ absurd (ground (arith, simp (more, broken) at h))
        | inr piece ↦ elim (Bool-cases (ltb disk (length (take off file) + length r))) [
          | inl full ↦ absurd (ground (arith, simp (more, piece, full) at h))
          | inr fits ↦
              let go = simp (more, piece, fits) at h in
              copy_loop-copy reads disk file fuel (off + length r) (
                subst
                  (λ c. copy_loop reads disk file (length file) fuel (off + length r) c ≡ some out)
                  (take-next (min (reads off) copy_buf_size) off file) go)
        ]
      ]
    ]

-- When every read gives a byte and the disk has the room, the loop comes to its end.
copy_loop_complete :
    (reads : ℕ → ℕ) (disk : ℕ) (file : Bytes) (fuel off : ℕ)
    → ((o : ℕ) → 0 < reads o)
    → length file ≤ disk
    → off ≤ length file
    → length file ≤ fuel + off
    → copy_loop reads disk file (length file) fuel off (take off file) ≡ some file
unfolding copy_loop pread put_piece copy_next
copy_loop_complete reads disk file zero off gives wide low enough =
    ground (arith, enough, take-all off file (omega (arith, enough)))
copy_loop_complete reads disk file (suc fuel) off gives wide low enough =
    let r = pread reads file off in
    elim (Bool-cases (ltb off (length file))) [
      | inr end ↦ rw end (ground (arith, take-all off file))
      | inl more ↦
          let n = min (reads off) copy_buf_size in
          let below : off < length file = ground (arith, more) in
          let l : length r ≡ min n (length file - off) =
            unfold pread in length-take n (drop off file) ∙ ap (min n) (length-drop off file) in
          let some_bytes : 0 < length r = omega (arith, l, gives off, below) in
          let within : off + length r ≤ length file = omega (arith, l, below) in
          let piece : length r == 0 ≡ false = ground (arith, some_bytes) in
          let fits : ltb disk (length (take off file) + length r) ≡ false =
            ground (arith, length-take off file, within, wide) in
          rw (more, piece, fits)
            (subst
              (λ c. copy_loop reads disk file (length file) fuel (off + length r) c ≡ some file)
              (sym (take-next n off file))
              (copy_loop_complete reads disk file fuel (off + length r) gives wide within
                (omega (arith, some_bytes, enough))))
    ]

module _ {Ctx : Type 0} where
  after_copy-IsMirrored :
      (st : Ledger Ctx) (synced : Bool) (copy : Option Bytes)
      → ((out : Bytes) → copy ≡ some out → out ≡ st.file)
      → let run = after_copy st synced copy in
        IsMirrored run.1 × ((run.0 ≡ false) ⊎ (run.1.mirror ≡ some st.file))
  unfolding after_copy
  after_copy-IsMirrored st synced none h = (inl refl, inl refl)
  after_copy-IsMirrored st true (some copy) h =
      (inr (ap some (h copy refl)), inr (ap some (h copy refl)))
  after_copy-IsMirrored st false (some copy) h = (inl refl, inl refl)

  -- `gwl_export_enable` leaves the mirror off or equal to the file if it was so before, whatever the calls
  -- of the system do and however few bytes each read gives; when it returns 0 the mirror is on.
  pub gwl_export_enable-IsMirrored :
      (st : Ledger Ctx) (path : Option Bytes) (opened sought : Bool) (reads : ℕ → ℕ) (disk : ℕ)
      (synced : Bool)
      → IsMirrored st
      → let run = gwl_export_enable st path opened sought reads disk synced in
        IsMirrored run.1 × ((run.0 ≡ false) ⊎ (run.1.mirror ≡ some st.file))
  unfolding gwl_export_enable
  gwl_export_enable-IsMirrored st none opened sought reads disk synced m = (m, inl refl)
  gwl_export_enable-IsMirrored st (some path) opened sought reads disk synced m =
      elim (Bool-cases (not st.is_open || length (c_str path) == 0)) [
        | inl bad ↦ (simp bad m, simp bad (inl refl))
        | inr good ↦ elim (Bool-cases (not opened || not sought)) [
          | inl broken ↦ (simp (good, broken) (inl refl), simp (good, broken) (inl refl))
          | inr ready ↦
              rw (good, ready)
                (after_copy-IsMirrored st synced
                  (copy_loop reads disk st.file (length st.file) (length st.file) 0 [])
                  (λ out e. copy_loop-copy reads disk st.file (length st.file) 0 e))
        ]
      ]

  -- `gwl_export_enable` on an open ledger, with a path that is not empty, returns 0 with the mirror equal to the file
  -- when the file opens, the position is told, every read gives a byte at least, the disk has room for the
  -- file, and the copy is synced: however the reads are cut, the loop comes to its end.
  pub gwl_export_enable_complete :
      (st : Ledger Ctx) (path : Bytes) (reads : ℕ → ℕ) (disk : ℕ)
      → st.is_open ≡ true
      → 0 < length (c_str path)
      → ((o : ℕ) → 0 < reads o)
      → length st.file ≤ disk
      → gwl_export_enable st (some path) true true reads disk true
        ≡ (true, record st { mirror = some st.file })
  unfolding gwl_export_enable after_copy
  gwl_export_enable_complete st path reads disk is_open named gives wide =
      let nonempty : length (c_str path) == 0 ≡ false = ground (arith, named) in
      let copied : copy_loop reads disk st.file (length st.file) (length st.file) 0 []
          ≡ some st.file =
        copy_loop_complete reads disk st.file (length st.file) 0 gives wide (omega arith)
          (omega arith) in
      rw (is_open, nonempty, copied) refl

module _ {Ctx : Type 0} (chain : Chain Ctx) where
  write_frame-IsMirrored :
      (st : Ledger Ctx) (tag payload commit : Bytes) (disk : ℕ) (synced : Bool) (mirror_disk : ℕ)
      {r : Bytes × ℕ}
      → IsMirrored st
      → (write_frame chain st tag payload commit disk synced mirror_disk).0 ≡ some r
      → IsMirrored (write_frame chain st tag payload commit disk synced mirror_disk).1
  unfolding write_frame
  write_frame-IsMirrored st tag payload commit disk synced mirror_disk {r} m h =
      let bytes = frame_bytes tag payload commit in
      let copy = mirror_frame-copy mirror_disk bytes st.file st.mirror m in
      elim (Bool-cases (ltb disk (length bytes))) [
        | inl full ↦ absurd (ground (arith, simp full at h))
        | inr room ↦ elim (Bool-cases synced) [
          | inr lost ↦ absurd (ground (arith, simp (room, lost) at h))
          | inl durable ↦ elim (Bool-cases (chain.link_fault st.ctx commit)) [
            | inl fault ↦ absurd (ground (arith, simp (room, durable, fault) at h))
            | inr linked ↦ simp (room, durable, linked) copy
          ]
        ]
      ]

  -- An accepting `gwl_append` leaves the mirror off or a copy of the file to the byte, if it was so before.
  pub gwl_append-IsMirrored :
      (st : Ledger Ctx) (tag payload : Option Bytes) (disk : ℕ) (synced : Bool) (mirror_disk : ℕ)
      {r : Bytes × ℕ}
      → IsMirrored st
      → (gwl_append chain st tag payload disk synced mirror_disk).0 ≡ some r
      → IsMirrored (gwl_append chain st tag payload disk synced mirror_disk).1
  unfolding gwl_append
  gwl_append-IsMirrored st none payload disk synced mirror_disk m h = m
  gwl_append-IsMirrored st (some tag) none disk synced mirror_disk m h = m
  gwl_append-IsMirrored st (some tag) (some payload) disk synced mirror_disk {r} m h =
      let t = c_str tag in
      elim (Bool-cases (not st.is_open)) [
        | inl bad ↦ simp bad m
        | inr ready ↦ elim (Bool-cases (length t == 0 || ltb tag_max (length t))) [
          | inl bad ↦ simp (ready, bad) m
          | inr named ↦
              elim (Bool-cases (length payload == 0 || ltb payload_max (length payload))) [
                | inl bad ↦ simp (ready, named, bad) m
                | inr sized ↦ elim (Bool-cases (chain.evidence_fault t payload)) [
                  | inl fault ↦ simp (ready, named, sized, fault) m
                  | inr quiet ↦
                      simp (ready, named, sized, quiet)
                        (write_frame-IsMirrored st t payload (chain.evidence t payload) disk synced
                          mirror_disk m (simp (ready, named, sized, quiet) at h))
                ]
              ]
        ]
      ]
