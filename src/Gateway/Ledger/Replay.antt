-- ===== src/Gateway/Ledger/Replay.antt =====
-- Opening the evidence file (gateway/src/gw_ledger.c): the replay of what was appended, with and without
-- a torn tail.
use axioma_oracle.Prelude.{
  ℕ, zero, suc, ◌+◌, ◌-◌, ◌<◌, ◌≡◌, ◌∙◌, refl, sym, ap, subst, Bool, true, false, List, [], ◌∷◌,
  ◌++◌, append-nil, append_assoc, arith, Bytes, Lacks, length, length-append, take, take-exact,
  c_str_lem, same_refl, if◌then◌else◌,
}
use axioma_oracle.Gateway.Ledger.{
  wr_u32le, read_frame, frame_bytes, Chain, Ledger, Replayed, replay_entry, replay, after_replay,
  gwl_open,
}
use axioma_oracle.Gateway.Ledger.Frame.{Fits, read_frame-frame_bytes, read_frame-take}

module _ {Ctx : Type 0} (chain : Chain Ctx) where
  -- An entry that the ledger takes in the state `c`.
  abbrev pub IsEntry : Ctx → Bytes → Bytes → Type 0
  IsEntry c tag payload =
      Fits tag payload (chain.evidence tag payload)
      × Lacks 0 tag
      × (chain.evidence_fault tag payload ≡ false)
      × (chain.link_fault c (chain.evidence tag payload) ≡ false)

  -- The file of a sequence of entries.
  unfoldable pub log_bytes : List (Bytes × Bytes) → Bytes
  log_bytes [] = []
  log_bytes ((tag, payload) ∷ es) =
      frame_bytes tag payload (chain.evidence tag payload) ++ log_bytes es

  -- The entries lead from one chain state and last payload to another.
  unfoldable pub Leads : Ctx → Bytes → List (Bytes × Bytes) → Ctx → Bytes → Type 0
  Leads c last [] c' last' = (c ≡ c') × (last ≡ last')
  Leads c last ((tag, payload) ∷ es) c' last' =
      IsEntry c tag payload × Leads (chain.link c (chain.evidence tag payload)) payload es c' last'

  entry_lem :
      (next : Ctx → Bytes → ℕ → Bytes → Replayed Ctx) (torn_ok : Bool) (size : ℕ) (c : Ctx)
      (last tag payload rest : Bytes) (good_end : ℕ)
      → IsEntry c tag payload
      → replay_entry chain next torn_ok size c last good_end
          (read_frame (frame_bytes tag payload (chain.evidence tag payload) ++ rest))
        ≡ next (chain.link c (chain.evidence tag payload)) payload (size - length rest) rest
  unfolding replay_entry
  entry_lem next torn_ok size c last tag payload rest good_end (fits, text, quiet, linked) =
      let commit = chain.evidence tag payload in
      rw
        (
          read_frame-frame_bytes tag payload commit fits rest,
          c_str_lem tag text,
          quiet,
          same_refl commit,
          linked,
        )
        refl

  frame_bytes-size : (tag payload commit : Bytes) → 0 < length (frame_bytes tag payload commit)
  unfolding frame_bytes wr_u32le
  frame_bytes-size tag payload commit = omega arith

  -- The rounds over the entries, up to what follows them.
  replay-log_bytes :
      (fuel : ℕ) (torn_ok : Bool) (size : ℕ) (c : Ctx) (last : Bytes) (es : List (Bytes × Bytes))
      (tail : Bytes) (c' : Ctx) (last' : Bytes)
      → Leads c last es c' last'
      → length (log_bytes es ++ tail) < fuel
      → (left : ℕ) × (replay chain fuel torn_ok size c last
            (size - length (log_bytes es ++ tail))
            (log_bytes es ++ tail)
          ≡ replay chain (suc left) torn_ok size c' last' (size - length tail) tail)
  unfolding log_bytes Leads
  replay-log_bytes zero torn_ok size c last es tail c' last' leads enough = absurd (omega arith)
  replay-log_bytes (suc fuel) torn_ok size c last [] tail c' last' (same_c, same_last) enough =
      (fuel, rw (same_c, same_last) refl)
  replay-log_bytes (suc fuel) torn_ok size c last ((tag, payload) ∷ es) tail c' last' (entry, leads)
        enough =
      let commit = chain.evidence tag payload in
      let bytes = frame_bytes tag payload commit in
      let rest = log_bytes es ++ tail in
      let flat : (bytes ++ log_bytes es) ++ tail ≡ bytes ++ rest =
        append_assoc bytes (log_bytes es) tail in
      let shorter : length rest < fuel = omega (
        arith,
        ap (λ (s : Bytes). length s) flat,
        length-append bytes rest,
        frame_bytes-size tag payload commit,
      ) in
      let (left, e) =
        replay-log_bytes fuel torn_ok size (chain.link c commit) payload es tail c' last' leads
          shorter in
      (
        left,
        rw flat (
              unfold replay in
              entry_lem (replay chain fuel torn_ok size) torn_ok size c last tag payload rest
                (size - length (bytes ++ rest)) entry)
            ∙ e,
      )

  from_genesis :
      (torn_ok : Bool) (st : Ledger Ctx) (es : List (Bytes × Bytes)) (tail : Bytes) (c : Ctx)
      (last : Bytes)
      → chain.genesis_fault ≡ false
      → st.file ≡ log_bytes es ++ tail
      → Leads chain.genesis st.last_payload es c last
      → (left : ℕ) × (gwl_open chain torn_ok st
          ≡ after_replay chain st (
              replay chain (suc left) torn_ok (length st.file) c last (length (log_bytes es)) tail))
  unfolding gwl_open
  from_genesis torn_ok st es tail c last quiet file leads =
      let size = length (log_bytes es ++ tail) in
      let (left, e) =
        replay-log_bytes (size + 1) torn_ok size chain.genesis st.last_payload es tail c last leads
          (omega arith) in
      let start : size - size ≡ 0 = omega arith in
      let stop : size - length tail ≡ length (log_bytes es) =
        omega (arith, length-append (log_bytes es) tail) in
      let from = λ (k : ℕ) (n : ℕ).
        replay chain (size + 1) torn_ok size chain.genesis st.last_payload k (log_bytes es ++ tail)
        ≡ replay chain (suc left) torn_ok size c last n tail in
      let whole =
        subst (λ k. from k (length (log_bytes es))) start (subst (from (size - size)) stop e) in
      let part =
        subst
          (λ f.
            replay chain (length f + 1) torn_ok (length f) chain.genesis st.last_payload 0 f
            ≡ replay chain (suc left) torn_ok (length f) c last (length (log_bytes es)) tail)
          (sym file) whole in
      (
        left,
        ap
              (λ b.
                if b
                then (false, false, record st { ctx = chain.genesis })
                else after_replay chain st (
                    replay chain (length st.file + 1) torn_ok (length st.file) chain.genesis
                      st.last_payload 0 st.file))
              quiet
            ∙ ap (after_replay chain st) part,
      )

  -- A file that is a sequence of whole entries, each taken by the chain, is opened, torn tails permitted or not, with no truncation
  -- and in the state to which the entries lead.
  pub gwl_open-log_bytes :
      (torn_ok : Bool) (st : Ledger Ctx) (es : List (Bytes × Bytes)) (c : Ctx) (last : Bytes)
      → chain.genesis_fault ≡ false
      → st.file ≡ log_bytes es
      → Leads chain.genesis st.last_payload es c last
      → gwl_open chain torn_ok st
        ≡ (true, false, record st { ctx = c; last_payload = last; is_open = true })
  unfolding replay read_frame replay_entry after_replay
  gwl_open-log_bytes torn_ok st es c last quiet file leads =
      let (left, e) =
        from_genesis torn_ok st es [] c last quiet (file ∙ sym (append-nil (log_bytes es))) leads in
      e

  -- A file of such entries whose last frame was cut short is opened, where torn tails are permitted, in the state of its
  -- whole entries, and the cut frame is truncated; where they are not, the call fails and keeps the file.
  pub gwl_open-torn :
      (st : Ledger Ctx) (es : List (Bytes × Bytes)) (c : Ctx) (last tag payload commit : Bytes)
      (k : ℕ)
      → chain.genesis_fault ≡ false
      → Fits tag payload commit
      → 0 < k
      → k < length (frame_bytes tag payload commit)
      → st.file ≡ log_bytes es ++ take k (frame_bytes tag payload commit)
      → Leads chain.genesis st.last_payload es c last
      → (gwl_open chain true st ≡ (
        true,
        true,
        record st { ctx = c; last_payload = last; is_open = true; file = log_bytes es },
      ))
        × ((gwl_open chain false st).0 ≡ false)
        × ((gwl_open chain false st).2.file ≡ st.file)
  unfolding replay replay_entry after_replay
  gwl_open-torn st es c last tag payload commit k quiet fits some_bytes below file leads =
      let tail = take k (frame_bytes tag payload commit) in
      let short = read_frame-take tag payload commit fits k some_bytes below in
      let (left, e) = from_genesis true st es tail c last quiet file leads in
      let (left', e') = from_genesis false st es tail c last quiet file leads in
      let kept : take (length (log_bytes es)) st.file ≡ log_bytes es =
        rw file (take-exact (length (log_bytes es)) (log_bytes es) tail refl) in
      let opened : Bytes → Bool × Bool × Ledger Ctx =
        λ f. (true, true, record st { ctx = c; last_payload = last; is_open = true; file = f }) in
      (rw e (rw short (ap opened kept)), rw e' (rw short refl), rw e' (rw short refl))
