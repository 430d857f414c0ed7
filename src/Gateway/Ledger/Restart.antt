-- ===== src/Gateway/Ledger/Restart.antt =====
-- What a restart of the gateway finds in the evidence file after an append that may have been interrupted
-- (gateway/src/gw_ledger.c).
use axioma_oracle.Prelude.{
  ℕ, zero, suc, ◌<◌, ◌≡◌, ◌⊎◌, inl, inr, ◌∙◌, refl, sym, ap, Bool, true, false, List, [], ◌∷◌, ◌++◌,
  append-nil, none, some, arith, Bytes, length, take, c_str, c_str-Lacks, ltb, ltb→lt, Bool-cases,
}
use axioma_oracle.Gateway.Ledger.{frame_bytes, Chain, Ledger, gwl_open, write_frame, gwl_append}
use axioma_oracle.Gateway.Ledger.Frame.{Fits}
use axioma_oracle.Gateway.Ledger.Replay.{log_bytes, Leads, gwl_open-log_bytes, gwl_open-torn}
use axioma_oracle.Gateway.Ledger.Append.{
  IsChain, IsLedger, log_bytes-append, Leads-append, gwl_append_cases,
}

-- A new process: its static payload buffer is empty.
abbrev pub restarted : {Ctx : Type 0} → Ledger Ctx → Ledger Ctx
restarted st = record st { last_payload = []; is_open = false; mirror = none }

module _ {Ctx : Type 0} (chain : Chain Ctx) where
  -- The file opens, torn tails permitted, as the ledger of the entries.
  abbrev pub Recovers : Ledger Ctx → List (Bytes × Bytes) → Type 0
  Recovers st es =
      ((gwl_open chain true (restarted st)).0 ≡ true)
      × IsLedger chain (gwl_open chain true (restarted st)).2 es

  module _ (laws : IsChain chain) where
    Recovers-whole :
        (st : Ledger Ctx) (es : List (Bytes × Bytes)) (c : Ctx) (last : Bytes)
        → st.file ≡ log_bytes chain es
        → Leads chain chain.genesis [] es c last
        → Recovers st es
    Recovers-whole st es c last file leads =
        rw (gwl_open-log_bytes chain true (restarted st) es c last laws.quiet file leads)
          (refl, record { is_open = refl; file = file; leads = leads })

    Recovers-torn :
        (st : Ledger Ctx) (es : List (Bytes × Bytes)) (c : Ctx) (last tag payload commit : Bytes)
        (k : ℕ)
        → Fits tag payload commit
        → k < length (frame_bytes tag payload commit)
        → st.file ≡ log_bytes chain es ++ take k (frame_bytes tag payload commit)
        → Leads chain chain.genesis [] es c last
        → Recovers st es
    Recovers-torn st es c last tag payload commit zero fits below file leads =
        Recovers-whole st es c last (file ∙ append-nil (log_bytes chain es)) leads
    Recovers-torn st es c last tag payload commit (suc k) fits below file leads =
        rw
          (gwl_open-torn chain (restarted st) es c last tag payload commit (suc k) laws.quiet fits
            (omega arith) below file leads).0
          (refl, record { is_open = refl; file = refl; leads = leads })

    written_file :
        (st : Ledger Ctx) (tag payload commit : Bytes) (disk : ℕ) (synced : Bool) (mirror_disk : ℕ)
        → let file = (write_frame chain st tag payload commit disk synced mirror_disk).1.file in
          ((disk < length (frame_bytes tag payload commit))
            × (file ≡ st.file ++ take disk (frame_bytes tag payload commit)))
          ⊎ (file ≡ st.file ++ frame_bytes tag payload commit)
    unfolding write_frame
    written_file st tag payload commit disk synced mirror_disk =
        elim (Bool-cases (ltb disk (length (frame_bytes tag payload commit)))) [
          | inl full ↦ inl (ltb→lt _ _ full, simp full refl)
          | inr room ↦ elim (Bool-cases synced) [
            | inl durable ↦ elim (Bool-cases (chain.link_fault st.ctx commit)) [
              | inl fault ↦ inr (simp (room, durable, fault) refl)
              | inr linked ↦ inr (simp (room, durable, linked) refl)
            ]
            | inr lost ↦ inr (simp (room, lost) refl)
          ]
        ]

    -- An append to a sound ledger is atomic across a crash. Wherever its writes stop, and whatever it
    -- returns, the file opens after a restart, torn tails permitted, as the ledger of the old entries or
    -- as that of the old entries and the new one, provided that the chain takes the new entry.
    pub gwl_open-gwl_append :
        (st : Ledger Ctx) (es : List (Bytes × Bytes)) (tag payload : Bytes) (disk : ℕ)
        (synced : Bool) (mirror_disk : ℕ)
        → IsLedger chain st es
        → chain.link_fault st.ctx (chain.evidence (c_str tag) payload) ≡ false
        → let st' = (gwl_append chain st (some tag) (some payload) disk synced mirror_disk).1 in
          Recovers st' es ⊎ Recovers st' (es ++ (c_str tag, payload) ∷ [])
    gwl_open-gwl_append st es tag payload disk synced mirror_disk ledger linked =
        let t = c_str tag in
        let commit = chain.evidence t payload in
        let bytes = frame_bytes t payload commit in
        let st' = (write_frame chain st t payload commit disk synced mirror_disk).1 in
        elim (gwl_append_cases chain laws st tag payload disk synced mirror_disk ledger.is_open) [
          | inl nothing ↦
              rw nothing
                (inl (Recovers-whole st es st.ctx st.last_payload ledger.file ledger.leads))
          | inr (fits, quiet, goes) ↦
              rw goes (elim (written_file st t payload commit disk synced mirror_disk) [
                | inl (below, file) ↦ inl (
                    Recovers-torn st' es st.ctx st.last_payload t payload commit disk fits below
                      (file ∙ ap (λ s. s ++ take disk bytes) ledger.file) ledger.leads)
                | inr file ↦ inr (
                    Recovers-whole st' (es ++ (t, payload) ∷ []) (chain.link st.ctx commit) payload
                      (file
                        ∙ ap (λ s. s ++ bytes) ledger.file
                        ∙ sym (log_bytes-append chain es t payload))
                      (Leads-append chain es chain.genesis [] st.ctx st.last_payload t payload
                        ledger.leads (fits, c_str-Lacks tag, quiet, linked)))
              ])
        ]
