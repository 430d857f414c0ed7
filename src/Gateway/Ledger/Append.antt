-- ===== src/Gateway/Ledger/Append.antt =====
-- Appending to the evidence file (gateway/src/gw_ledger.c), and what a restart finds afterwards.
use axioma_oracle.Prelude.{
  ℕ, ◌≡◌, ◌⊎◌, inl, inr, ◌∙◌, refl, sym, ap, subst, Bool, true, false, ◌||◌, List, [], ◌∷◌, ◌++◌,
  append-nil, append_assoc, none, some, arith, Bytes, Lacks, length, c_str, c_str-Lacks, ltb, ◌==◌,
  Bool-cases,
}
use axioma_oracle.Gateway.Ledger.{
  tag_max, payload_max, frame_bytes, Chain, Ledger, write_frame, gwl_append,
}
use axioma_oracle.Gateway.Ledger.Frame.{Fits}
use axioma_oracle.Gateway.Ledger.Replay.{IsEntry, log_bytes, Leads}

module _ {Ctx : Type 0} (chain : Chain Ctx) where
  -- `ax_commit_evidence` fills a `uint8_t[32]`, and the genesis raises no fault.
  pub record IsChain : Type 0 where
    pub evidence_size : (tag payload : Bytes) → length (chain.evidence tag payload) ≡ 32
    pub quiet : chain.genesis_fault ≡ false

  -- An open ledger whose file is these entries and whose state is the one that they lead to.
  pub record IsLedger (st : Ledger Ctx) (es : List (Bytes × Bytes)) : Type 0 where
    pub is_open : st.is_open ≡ true
    pub file : st.file ≡ log_bytes chain es
    pub leads : Leads chain chain.genesis [] es st.ctx st.last_payload

  pub log_bytes-append :
      (es : List (Bytes × Bytes)) (tag payload : Bytes)
      → log_bytes chain (es ++ (tag, payload) ∷ [])
        ≡ log_bytes chain es ++ frame_bytes tag payload (chain.evidence tag payload)
  unfolding log_bytes
  log_bytes-append [] tag payload =
      append-nil (frame_bytes tag payload (chain.evidence tag payload))
  log_bytes-append ((t, p) ∷ es) tag payload =
      ap (λ s. frame_bytes t p (chain.evidence t p) ++ s) (log_bytes-append es tag payload)
      ∙ sym (
          append_assoc (frame_bytes t p (chain.evidence t p)) (log_bytes chain es)
            (frame_bytes tag payload (chain.evidence tag payload)))

  pub Leads-append :
      (es : List (Bytes × Bytes)) (c : Ctx) (last : Bytes) (c' : Ctx) (last' tag payload : Bytes)
      → Leads chain c last es c' last'
      → IsEntry chain c' tag payload
      → Leads chain c last
          (es ++ (tag, payload) ∷ [])
          (chain.link c' (chain.evidence tag payload))
          payload
  unfolding Leads
  Leads-append [] c last c' last' tag payload (same_c, same_last) entry = (
    subst (λ x. IsEntry chain x tag payload) (sym same_c) entry,
    (ap (λ x. chain.link x (chain.evidence tag payload)) same_c, refl),
  )
  Leads-append ((t, p) ∷ es) c last c' last' tag payload (first, leads) entry = (
    first,
    Leads-append es (chain.link c (chain.evidence t p)) p c' last' tag payload leads entry,
  )

  -- The guards of `gwl_append`: it does nothing, or it goes on with an entry that fits.
  pub gwl_append_cases :
      (laws : IsChain) (st : Ledger Ctx) (tag payload : Bytes) (disk : ℕ) (synced : Bool)
      (mirror_disk : ℕ)
      → st.is_open ≡ true
      → (gwl_append chain st (some tag) (some payload) disk synced mirror_disk ≡ (none, st))
        ⊎ (Fits (c_str tag) payload (chain.evidence (c_str tag) payload)
            × (chain.evidence_fault (c_str tag) payload ≡ false)
            × (gwl_append chain st (some tag) (some payload) disk synced mirror_disk
                ≡ write_frame chain st
                    (c_str tag)
                    payload
                    (chain.evidence (c_str tag) payload)
                    disk
                    synced
                    mirror_disk))
  unfolding gwl_append
  gwl_append_cases laws st tag payload disk synced mirror_disk ready =
      let t = c_str tag in
      elim (Bool-cases (length t == 0 || ltb tag_max (length t))) [
        | inl bad ↦ inl (simp (ready, bad) refl)
        | inr named ↦ elim (Bool-cases (length payload == 0 || ltb payload_max (length payload))) [
          | inl bad ↦ inl (simp (ready, named, bad) refl)
          | inr sized ↦ elim (Bool-cases (chain.evidence_fault t payload)) [
            | inl fault ↦ inl (simp (ready, named, sized, fault) refl)
            | inr quiet ↦ inr (
              (
                ground arith,
                ground arith,
                ground arith,
                ground arith,
                laws.evidence_size t payload,
              ),
              quiet,
              simp (ready, named, sized, quiet) refl,
            )
          ]
        ]
      ]

  -- What a write that returns 0 leaves.
  abbrev Written : Ledger Ctx → Bytes → Bytes → Bytes → Bytes × ℕ → Ledger Ctx → Type 0
  Written st tag payload commit r st' =
      (chain.link_fault st.ctx commit ≡ false)
      × (st'.file ≡ st.file ++ frame_bytes tag payload commit)
      × (st'.ctx ≡ chain.link st.ctx commit)
      × (st'.last_payload ≡ payload)
      × (st'.is_open ≡ st.is_open)
      × (r ≡ (chain.current_hash st'.ctx, chain.sequence st'.ctx))

  write_frame-Written :
      (st : Ledger Ctx) (tag payload commit : Bytes) (disk : ℕ) (synced : Bool) (mirror_disk : ℕ)
      (r : Bytes × ℕ)
      → (write_frame chain st tag payload commit disk synced mirror_disk).0 ≡ some r
      → Written st tag payload commit r
          (write_frame chain st tag payload commit disk synced mirror_disk).1
  unfolding write_frame
  write_frame-Written st tag payload commit disk synced mirror_disk r h =
      elim (Bool-cases (ltb disk (length (frame_bytes tag payload commit)))) [
        | inl full ↦ absurd (ground (arith, simp full at h))
        | inr room ↦ elim (Bool-cases synced) [
          | inr lost ↦ absurd (ground (arith, simp (room, lost) at h))
          | inl durable ↦ elim (Bool-cases (chain.link_fault st.ctx commit)) [
            | inl fault ↦ absurd (ground (arith, simp (room, durable, fault) at h))
            | inr linked ↦
                let k = simp (room, durable, linked) at h in
                (
                  linked,
                  simp (room, durable, linked) refl,
                  simp (room, durable, linked) refl,
                  simp (room, durable, linked) refl,
                  simp (room, durable, linked) refl,
                  simp (room, durable, linked) (cc k),
                )
          ]
        ]
      ]

  appended :
      (st : Ledger Ctx) (es : List (Bytes × Bytes)) (tag payload : Bytes) (st' : Ledger Ctx)
      (r : Bytes × ℕ)
      → IsLedger st es
      → Fits tag payload (chain.evidence tag payload)
      → Lacks 0 tag
      → chain.evidence_fault tag payload ≡ false
      → Written st tag payload (chain.evidence tag payload) r st'
      → IsLedger st' (es ++ (tag, payload) ∷ [])
  appended st es tag payload st' r ledger fits text quiet (linked, file, ctx, last, open_, _) =
      record {
        is_open = open_ ∙ ledger.is_open;
        file =
            file
            ∙ ap (λ s. s ++ frame_bytes tag payload (chain.evidence tag payload)) ledger.file
            ∙ sym (log_bytes-append es tag payload);
        leads =
            subst (λ c. Leads chain chain.genesis [] (es ++ (tag, payload) ∷ []) c st'.last_payload)
              (sym ctx)
              (subst
                (Leads chain chain.genesis [] (es ++ (tag, payload) ∷ [])
                  (chain.link st.ctx (chain.evidence tag payload)))
                (sym last)
                (Leads-append es chain.genesis [] st.ctx st.last_payload tag payload ledger.leads
                  (fits, text, quiet, linked)));
      }

  module _ (laws : IsChain) where
    -- An accepting `gwl_append` adds exactly one entry, the tag with the payload, to the file and to the
    -- state, and returns the head and the sequence number of the new state.
    pub gwl_append_done :
        (st : Ledger Ctx) (es : List (Bytes × Bytes)) (tag payload : Bytes) (disk : ℕ)
        (synced : Bool) (mirror_disk : ℕ) {r : Bytes × ℕ}
        → IsLedger st es
        → (gwl_append chain st (some tag) (some payload) disk synced mirror_disk).0 ≡ some r
        → let st' = (gwl_append chain st (some tag) (some payload) disk synced mirror_disk).1 in
          IsLedger st' (es ++ (c_str tag, payload) ∷ [])
          × (r ≡ (chain.current_hash st'.ctx, chain.sequence st'.ctx))
    gwl_append_done st es tag payload disk synced mirror_disk {r} ledger h =
        elim (gwl_append_cases laws st tag payload disk synced mirror_disk ledger.is_open) [
          | inl nothing ↦ absurd (ground (arith, rw nothing at h))
          | inr (fits, quiet, goes) ↦
              let w =
                write_frame-Written st (c_str tag) payload (chain.evidence (c_str tag) payload) disk
                  synced mirror_disk r (rw goes at h) in
              rw goes (
                appended st es (c_str tag) payload
                    (write_frame chain st (c_str tag) payload (chain.evidence (c_str tag) payload)
                      disk synced mirror_disk).1
                    r ledger fits (c_str-Lacks tag) quiet w,
                w.5,
              )
        ]
