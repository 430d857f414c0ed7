-- ===== src/Gateway/Commit/Recorded.antt =====
-- What stands in the ledger behind a receipt of `commit_observation` (gateway/src/gw_main.c), without any
-- condition on the input or on the ledger before.
use axioma_oracle.Prelude.{
  ℕ, ◌≡◌, inl, inr, refl, Bool, true, ◌||◌, not, ◌++◌, none, some, Option, arith, Bytes, length,
  c_str, ltb, ◌==◌, Bool-cases,
}
use axioma_oracle.Types.{Code, Result, done, fail, l3_fault_init, canonical_buffer_size}
use axioma_oracle.Record.{Record, Input, AdmissionCtx}
use axioma_oracle.Canonical.{obs_canonicalise}
use axioma_oracle.Hash.{Substrate}
use axioma_oracle.Obs.{obs_admit, obs_validate}
use axioma_oracle.Gateway.Ledger.{
  Chain, Ledger, frame_bytes, tag_max, payload_max, write_frame, gwl_append,
}
use axioma_oracle.Gateway.Commit.{
  Gateway, Receipt, output_buf_size, tag_obs, hex32, after_append, after_canonical, after_validate,
  after_admit, commit_input,
}

-- The file ends with the frame of the payload, which is also kept, and `head` and `seq` are those of the chain.
pub record IsAppended {Ctx : Type 0} (chain : Chain Ctx) (l : Ledger Ctx) (tag payload : Bytes)
    (r : Bytes × ℕ) : Type 0 where
  pub before : Bytes
  pub file : l.file ≡ before ++ frame_bytes tag payload (chain.evidence tag payload)
  pub last : l.last_payload ≡ payload
  pub heads : r ≡ (chain.current_hash l.ctx, chain.sequence l.ctx)

-- The record that was admitted for an input is valid, its canonical text is the last entry of the ledger, and
-- the receipt has its hash and the head and number of the ledger.
pub record IsRecorded {Ctx : Type 0} (sub : Substrate) (chain : Chain Ctx) (in' : Input)
    (l : Ledger Ctx) (r : Receipt) : Type 0 where
  pub adm : AdmissionCtx
  pub rec : Record
  pub text : Bytes
  pub admitted : (obs_admit sub output_buf_size in' adm l3_fault_init).ret ≡ Code.ok
  pub stored : rec ≡ (obs_admit sub output_buf_size in' adm l3_fault_init).out
  pub valid : (obs_validate sub rec l3_fault_init).0 ≡ Code.ok
  pub printed : obs_canonicalise canonical_buffer_size rec true ≡ done text
  pub head : Bytes
  pub seq : ℕ
  pub appended : IsAppended chain l tag_obs text (head, seq)
  pub receipt : r ≡ (rec.obs_hash, hex32 head, seq)

module _ {Ctx : Type 0} (chain : Chain Ctx) (disk : ℕ) (synced : Bool) (mirror_disk : ℕ) where
  write_frame-IsAppended :
      (st : Ledger Ctx) (tag payload : Bytes) {r : Bytes × ℕ}
      → (write_frame chain st tag payload (chain.evidence tag payload) disk synced mirror_disk).0
        ≡ some r
      → IsAppended chain
          (write_frame chain st tag payload (chain.evidence tag payload) disk synced mirror_disk).1
          tag
          payload
          r
  unfolding write_frame
  write_frame-IsAppended st tag payload {r} h =
      let commit = chain.evidence tag payload in
      elim (Bool-cases (ltb disk (length (frame_bytes tag payload commit)))) [
        | inl full ↦ absurd (ground (arith, simp full at h))
        | inr fits ↦ elim (Bool-cases synced) [
          | inr lost ↦ absurd (ground (arith, simp (fits, lost) at h))
          | inl durable ↦ elim (Bool-cases (chain.link_fault st.ctx commit)) [
            | inl fault ↦ absurd (ground (arith, simp (fits, durable, fault) at h))
            | inr linked ↦ record {
              before = st.file;
              file = simp (fits, durable, linked) refl;
              last = simp (fits, durable, linked) refl;
              heads =
                  let k = simp (fits, durable, linked) at h in simp (fits, durable, linked) (cc k);
            }
          ]
        ]
      ]

  gwl_append-IsAppended :
      (st : Ledger Ctx) (tag payload : Bytes) {r : Bytes × ℕ}
      → (gwl_append chain st (some tag) (some payload) disk synced mirror_disk).0 ≡ some r
      → IsAppended chain
          (gwl_append chain st (some tag) (some payload) disk synced mirror_disk).1
          (c_str tag)
          payload
          r
  unfolding gwl_append
  gwl_append-IsAppended st tag payload {r} h =
      let t = c_str tag in
      elim (Bool-cases (not st.is_open)) [
        | inl bad ↦ absurd (ground (arith, simp bad at h))
        | inr ready ↦ elim (Bool-cases (length t == 0 || ltb tag_max (length t))) [
          | inl bad ↦ absurd (ground (arith, simp (ready, bad) at h))
          | inr named ↦
              elim (Bool-cases (length payload == 0 || ltb payload_max (length payload))) [
                | inl bad ↦ absurd (ground (arith, simp (ready, named, bad) at h))
                | inr sized ↦ elim (Bool-cases (chain.evidence_fault t payload)) [
                  | inl fault ↦ absurd (ground (arith, simp (ready, named, sized, fault) at h))
                  | inr quiet ↦
                      simp (ready, named, sized, quiet)
                        (write_frame-IsAppended st t payload
                          (simp (ready, named, sized, quiet) at h))
                ]
              ]
        ]
      ]

  module _ (sub : Substrate) (in' : Input) (adm : AdmissionCtx) (rec : Record)
      (ok : (obs_admit sub output_buf_size in' adm l3_fault_init).ret ≡ Code.ok)
      (same_rec : rec ≡ (obs_admit sub output_buf_size in' adm l3_fault_init).out) where
    after_append-IsRecorded :
        (st : Gateway Ctx) (text : Bytes) (run : Option (Bytes × ℕ) × Ledger Ctx) {r : Receipt}
        → (obs_validate sub rec l3_fault_init).0 ≡ Code.ok
        → obs_canonicalise canonical_buffer_size rec true ≡ done text
        → ((p : Bytes × ℕ) → run.0 ≡ some p → IsAppended chain run.1 tag_obs text p)
        → (after_append sub chain rec st run).0 ≡ some r
        → IsRecorded sub chain in' (after_append sub chain rec st run).1.ledger r
    unfolding after_append
    after_append-IsRecorded st text (none, l) valid printed landed h = absurd (ground arith)
    after_append-IsRecorded st text (some (head, seq), l) valid printed landed h = record {
      adm = adm;
      rec = rec;
      text = text;
      admitted = ok;
      stored = same_rec;
      valid = valid;
      printed = printed;
      head = head;
      seq = seq;
      appended = landed (head, seq) refl;
      receipt = cc h;
    }

    after_canonical-IsRecorded :
        (st : Gateway Ctx) (out : Result Bytes) {r : Receipt}
        → (obs_validate sub rec l3_fault_init).0 ≡ Code.ok
        → obs_canonicalise canonical_buffer_size rec true ≡ out
        → (after_canonical sub chain disk synced mirror_disk rec st out).0 ≡ some r
        → IsRecorded sub chain in'
            (after_canonical sub chain disk synced mirror_disk rec st out).1.ledger
            r
    unfolding after_canonical c_str
    after_canonical-IsRecorded st (fail e) valid printed h = absurd (ground arith)
    after_canonical-IsRecorded st (done text) valid printed h =
        elim (Bool-cases (length text == 0)) [
          | inl empty ↦ absurd (ground (arith, simp empty at h))
          | inr full ↦
              let run =
                gwl_append chain st.ledger (some tag_obs) (some text) disk synced mirror_disk in
              rw full (
                after_append-IsRecorded st text run valid printed
                  (λ p e. gwl_append-IsAppended st.ledger tag_obs text e) (rw full at h))
        ]

    after_validate-IsRecorded :
        (st : Gateway Ctx) (e : Code) {r : Receipt}
        → (obs_validate sub rec l3_fault_init).0 ≡ e
        → (after_validate sub chain disk synced mirror_disk rec st e).0 ≡ some r
        → IsRecorded sub chain in'
            (after_validate sub chain disk synced mirror_disk rec st e).1.ledger
            r
    unfolding after_validate
    after_validate-IsRecorded st Code.ok valid h =
        after_canonical-IsRecorded st (obs_canonicalise canonical_buffer_size rec true) valid refl h
    after_validate-IsRecorded st e valid h = absurd (ground arith)

  after_admit-IsRecorded :
      (sub : Substrate) (in' : Input) (adm : AdmissionCtx) (st : Gateway Ctx) (rec : Record)
      (e : Code) {r : Receipt}
      → (obs_admit sub output_buf_size in' adm l3_fault_init).ret ≡ e
      → rec ≡ (obs_admit sub output_buf_size in' adm l3_fault_init).out
      → (after_admit sub chain disk synced mirror_disk rec st e).0 ≡ some r
      → IsRecorded sub chain in' (after_admit sub chain disk synced mirror_disk rec st e).1.ledger r
  unfolding after_admit
  after_admit-IsRecorded sub in' adm st rec Code.ok ok same_rec h =
      after_validate-IsRecorded sub in' adm rec ok same_rec st
        (obs_validate sub rec l3_fault_init).0 refl h
  after_admit-IsRecorded sub in' adm st rec e ok same_rec h = absurd (ground arith)

  pub commit_input-IsRecorded :
      (sub : Substrate) (st : Gateway Ctx) (in' : Input) {r : Receipt}
      → (commit_input sub chain disk synced mirror_disk st in').0 ≡ some r
      → IsRecorded sub chain in' (commit_input sub chain disk synced mirror_disk st in').1.ledger r
  unfolding commit_input
  commit_input-IsRecorded sub st in' h =
      let a = obs_admit sub output_buf_size in' st.adm l3_fault_init in
      after_admit-IsRecorded sub in' st.adm (record st { adm = a.ctx }) a.out a.ret refl refl h
