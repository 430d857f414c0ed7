-- ===== src/Tests/Ledger.antt =====
-- The evidence ledger on sample entries (gateway/src/gw_ledger.c), with a chain that counts its links and a
-- commitment that repeats the length of the payload.
use axioma_oracle.Prelude.{
  ℕ, ◌+◌, ◌%◌, ◌≡◌, ◌⊎◌, refl, inr, true, false, Bool, List, [], ◌∷◌, ◌++◌, some, Option, arith,
  Bytes, codes, replicate, length, take, c_str,
}
use axioma_oracle.Gateway.Ledger.{
  wr_u32le, wr_loop, wr_u64le, frame_bytes, Chain, Ledger, gwl_export_enable, gwl_open, write_frame,
  gwl_append,
}
use axioma_oracle.Gateway.Ledger.Frame.{Fits}
use axioma_oracle.Gateway.Ledger.Replay.{log_bytes, Leads, gwl_open-log_bytes, gwl_open-torn}
use axioma_oracle.Gateway.Ledger.Append.{IsChain, IsLedger, gwl_append_done}
use axioma_oracle.Gateway.Ledger.Restart.{restarted, Recovers, gwl_open-gwl_append}
use axioma_oracle.Gateway.Ledger.Mirror.{
  IsMirrored, gwl_export_enable-IsMirrored, gwl_export_enable_complete, gwl_append-IsMirrored,
}

abbrev pub counter : Chain ℕ
counter = record {
  genesis = 0;
  genesis_fault = false;
  evidence = λ tag payload. replicate 32 (length payload % 256);
  evidence_fault = λ tag payload. false;
  link = λ c commit. c + 1;
  link_fault = λ c commit. false;
  current_hash = λ c. replicate 32 (c % 256);
  sequence = λ c. c;
}

pub counter-IsChain : IsChain counter
counter-IsChain = record { evidence_size = λ tag payload. refl; quiet = refl }

abbrev tag : Bytes
tag = codes "AX:OBS:v1"

abbrev payload : Bytes
payload = codes "{}"

abbrev pub entries : List (Bytes × Bytes)
entries = (tag, payload) ∷ []

tag-Fits : Fits tag payload (counter.evidence tag payload)
tag-Fits = omega arith

-- A ledger of one entry.
abbrev pub one : Ledger ℕ
one = record {
  ctx = 1;
  file = log_bytes counter entries;
  is_open = true;
  mirror = some (log_bytes counter entries);
  last_payload = payload;
}

entries-Leads : Leads counter 0 [] entries 1 payload
unfolding Leads
entries-Leads = ((tag-Fits, omega arith, refl, refl), (refl, refl))

pub one-IsLedger : IsLedger counter one entries
one-IsLedger = record { is_open = refl; file = refl; leads = entries-Leads }

gwl_open-log_bytes_example :
    gwl_open counter false (restarted one)
    ≡ (true, false, record (restarted one) { ctx = 1; last_payload = payload; is_open = true })
gwl_open-log_bytes_example =
    gwl_open-log_bytes counter false (restarted one) entries 1 payload refl refl entries-Leads

-- The ledger of one entry, and eight bytes of another.
abbrev torn : Ledger ℕ
torn = record (restarted one) {
  file =
      log_bytes counter entries ++ take 8 (frame_bytes tag payload (counter.evidence tag payload));
}

gwl_open-torn_example :
    (gwl_open counter true torn ≡ (
      true,
      true,
      record torn {
        ctx = 1;
        last_payload = payload;
        is_open = true;
        file = log_bytes counter entries;
      },
    ))
    × ((gwl_open counter false torn).0 ≡ false)
    × ((gwl_open counter false torn).2.file ≡ torn.file)
unfolding frame_bytes wr_u32le wr_u64le wr_loop
gwl_open-torn_example =
    gwl_open-torn counter torn entries 1 payload tag payload (counter.evidence tag payload) 8 refl
      tag-Fits (omega arith) (omega arith) refl entries-Leads

-- A second entry, the disk having room.
abbrev second : Option (Bytes × ℕ) × Ledger ℕ
second = gwl_append counter one (some tag) (some payload) 1000 true 1000

second_accepted : second.0 ≡ some (replicate 32 2, 2)
unfolding gwl_append write_frame frame_bytes wr_u32le wr_u64le wr_loop c_str
second_accepted = refl

gwl_append_done_example :
    IsLedger counter second.1 (entries ++ (c_str tag, payload) ∷ [])
    × (◌≡◌ {A = Bytes × ℕ}
        (replicate 32 2, 2)
        (counter.current_hash second.1.ctx, counter.sequence second.1.ctx))
gwl_append_done_example =
    gwl_append_done counter counter-IsChain one entries tag payload 1000 true 1000 one-IsLedger
      second_accepted

-- The disk is full after 20 bytes.
abbrev crashed : Ledger ℕ
crashed = (gwl_append counter one (some tag) (some payload) 20 true 1000).1

gwl_open-gwl_append_example :
    Recovers counter crashed entries
    ⊎ Recovers counter crashed (entries ++ (c_str tag, payload) ∷ [])
gwl_open-gwl_append_example =
    gwl_open-gwl_append counter counter-IsChain one entries tag payload 20 true 1000 one-IsLedger
      refl

abbrev enabled : Bool × Ledger ℕ
enabled = gwl_export_enable one (some (codes "/x")) true true (λ off. 7) 1000 true

gwl_export_enable-IsMirrored_example :
    IsMirrored enabled.1 × ((enabled.0 ≡ false) ⊎ (enabled.1.mirror ≡ some one.file))
gwl_export_enable-IsMirrored_example =
    gwl_export_enable-IsMirrored one (some (codes "/x")) true true (λ off. 7) 1000 true (inr refl)

gwl_export_enable_complete_example :
    gwl_export_enable one (some (codes "/x")) true true (λ off. 7) 1000 true
    ≡ (true, record one { mirror = some one.file })
unfolding c_str log_bytes frame_bytes wr_u32le wr_u64le wr_loop
gwl_export_enable_complete_example =
    gwl_export_enable_complete one (codes "/x") (λ off. 7) 1000 refl (omega arith)
      (λ o. omega arith) (omega arith)

gwl_append-IsMirrored_example : IsMirrored second.1
gwl_append-IsMirrored_example =
    gwl_append-IsMirrored counter one (some tag) (some payload) 1000 true 1000 (inr refl)
      second_accepted
