-- ===== src/Gateway/Ledger.antt =====
-- gateway/src/gw_ledger.c: the evidence file, its replay and the mirror for the witness.
--
-- The file is the list of its bytes. Reading it, moving in it and cutting it are taken to succeed; what
-- a write, a sync or an open does is an argument. `ax_ledger_*` and `ax_commit_evidence` belong to the
-- audit library and are a parameter.
pub mod Words
pub mod Frame
pub mod Replay
pub mod Append
pub mod Restart
pub mod Mirror
pub mod Search
use axioma_oracle.Prelude.{
  min, ℕ, zero, suc, ◌+◌, ◌-◌, ◌*◌, ◌/◌, ◌%◌, ◌^◌, ◌≡◌, Bool, true, false, ◌&&◌, ◌||◌, not, [], ◌∷◌,
  ◌++◌, Option, none, some, Bytes, take, drop, length, c_str, same, ltb, leb, ◌==◌, if◌then◌else◌,
  bit_or,
}

abbrev pub tag_max : ℕ
tag_max = 32

abbrev pub payload_max : ℕ
payload_max = 256 * 1024

unfoldable pub wr_u32le : ℕ → Bytes
wr_u32le v = v % 256 ∷ v / 2 ^ 8 % 256 ∷ v / 2 ^ 16 % 256 ∷ v / 2 ^ 24 % 256 ∷ []

-- The rounds of `wr_u64le` that are left.
unfoldable pub wr_loop : ℕ → ℕ → Bytes
wr_loop zero v = []
wr_loop (suc rounds) v = v % 256 ∷ wr_loop rounds (v / 256)

unfoldable pub wr_u64le : ℕ → Bytes
wr_u64le v = wr_loop 8 v

-- The list is `b[0..4)`.
unfoldable pub rd_u32le : Bytes → ℕ
rd_u32le (a ∷ b ∷ c ∷ d ∷ s) = bit_or (bit_or (bit_or a (b * 2 ^ 8)) (c * 2 ^ 16)) (d * 2 ^ 24)
rd_u32le s = 0

-- `v = (v << 8) | b[i]` from the last byte down to the first.
unfoldable pub rd_u64le : Bytes → ℕ
rd_u64le [] = 0
rd_u64le (b ∷ s) = bit_or (rd_u64le s * 2 ^ 8 % 2 ^ 64) b

-- What one round of the loop of `gwl_open` reads: `short` is a jump to `torn`, `bad` one to `fail`.
pub data Reading : Type 0 where
  eof short bad : Reading
  frame : (tag payload stored rest : Bytes) → Reading

-- `read_exact`, where fewer bytes than asked for are none; the second part is the rest of the file.
unfoldable pub read_exact : ℕ → Bytes → Option (Bytes × Bytes)
read_exact n s = if ltb (length s) n then none else some (take n s, drop n s)

unfoldable pub read_stored : Bytes → Bytes → Option (Bytes × Bytes) → Reading
read_stored tag payload none = Reading.short
read_stored tag payload (some (stored, rest)) = Reading.frame tag payload stored rest

unfoldable pub read_payload : Bytes → Option (Bytes × Bytes) → Reading
read_payload tag none = Reading.short
read_payload tag (some (payload, rest)) = read_stored tag payload (read_exact 32 rest)

unfoldable pub read_plen : Bytes → Option (Bytes × Bytes) → Reading
read_plen tag none = Reading.short
read_plen tag (some (h8, rest)) =
    let plen = rd_u64le h8 in
    if plen == 0 || ltb payload_max plen
    then Reading.bad
    else read_payload tag (read_exact plen rest)

unfoldable pub read_tag : Option (Bytes × Bytes) → Reading
read_tag none = Reading.short
read_tag (some (tag, rest)) = read_plen tag (read_exact 8 rest)

unfoldable pub read_tag_len : Option (Bytes × Bytes) → Reading
read_tag_len none = Reading.short
read_tag_len (some (h4, rest)) =
    let tag_len = rd_u32le h4 in
    if tag_len == 0 || ltb tag_max tag_len then Reading.bad else read_tag (read_exact tag_len rest)

unfoldable pub read_frame : Bytes → Reading
read_frame [] = Reading.eof
read_frame (c ∷ s) = read_tag_len (read_exact 4 (c ∷ s))

-- The five writes of `gwl_append`, one after the other.
unfoldable pub frame_bytes : Bytes → Bytes → Bytes → Bytes
frame_bytes tag payload commit =
    wr_u32le (length tag) ++ (tag ++ (wr_u64le (length payload) ++ (payload ++ commit)))

-- What the audit library gives: the ledger's genesis and what it becomes by one more commitment, the
-- commitment to an entry, and whether `ct_fault_any` holds after each call.
pub record Chain (Ctx : Type 0) : Type 0 where
  pub genesis : Ctx
  pub genesis_fault : Bool
  pub evidence : Bytes → Bytes → Bytes
  pub evidence_fault : Bytes → Bytes → Bool
  pub link : Ctx → Bytes → Ctx
  pub link_fault : Ctx → Bytes → Bool
  pub current_hash : Ctx → Bytes
  pub sequence : Ctx → ℕ

-- The static variables: `file` is what `g_fd` stands for, `is_open` whether it is not -1, and `mirror`
-- what `g_export_fd` stands for, none for -1.
pub record Ledger (Ctx : Type 0) : Type 0 where
  pub ctx : Ctx
  pub file : Bytes
  pub is_open : Bool
  pub mirror : Option Bytes
  pub last_payload : Bytes

-- How the loop of `gwl_open` ends, with `g_ctx` and `g_last_payload`.
pub data Replayed (Ctx : Type 0) : Type 0 where
  ended : (ctx : Ctx) (last : Bytes) (good_end : ℕ) (torn : Bool) → Replayed Ctx
  refused : (ctx : Ctx) (last : Bytes) → Replayed Ctx

unfoldable pub mirror_frame : ℕ → Bytes → Option Bytes → Option Bytes
mirror_frame disk bytes none = none
mirror_frame disk bytes (some copy) = if ltb disk (length bytes) then none else some (copy ++ bytes)

-- `sizeof copy_buf`
abbrev pub copy_buf_size : ℕ
copy_buf_size = 65536

-- `pread` at an offset: `reads` gives the number of bytes that the system is ready to give there, 0 for an error.
unfoldable pub pread : (ℕ → ℕ) → Bytes → ℕ → Bytes
pread reads file off = take (min (reads off) copy_buf_size) (drop off file)

-- A piece is written behind what the copy holds, with room for `disk` bytes.
unfoldable pub put_piece : ℕ → Bytes → Bytes → Option Bytes
put_piece disk copy piece =
    if ltb disk (length copy + length piece) then none else some (copy ++ piece)

unfoldable pub copy_next : (ℕ → Bytes → Option Bytes) → ℕ → Option Bytes → Option Bytes
copy_next next off none = none
copy_next next off (some copy) = next off copy

-- The copy loop of `gwl_export_enable` from an offset on; none is a jump to `fail`. Every round reads a byte at
-- least, so that `size` is enough fuel.
unfoldable pub copy_loop : (ℕ → ℕ) → ℕ → Bytes → ℕ → ℕ → ℕ → Bytes → Option Bytes
unfolding pread put_piece copy_next
copy_loop reads disk file size zero off copy = if ltb off size then none else some copy
copy_loop reads disk file size (suc fuel) off copy =
    let r = pread reads file off in
    let rest =
      copy_next (λ o c. copy_loop reads disk file size fuel o c) (off + length r)
        (put_piece disk copy r) in
    if not (ltb off size) then some copy else if length r == 0 then none else rest

unfoldable pub find : Bytes → Bytes → Bool
find needle [] = false
find needle (c ∷ s) =
    if leb (length needle) (length (c ∷ s))
    then if same (take (length needle) (c ∷ s)) needle then true else find needle s
    else false

module _ {Ctx : Type 0} where
  unfoldable pub gwl_last_payload_contains : Ledger Ctx → Option Bytes → Bool
  gwl_last_payload_contains st none = false
  gwl_last_payload_contains st (some needle) =
      let nl = length (c_str needle) in
      if length st.last_payload == 0
      then false
      else if nl == 0 || ltb (length st.last_payload) nl
      then false
      else find (c_str needle) st.last_payload

  -- The end of `gwl_export_enable`, with the copy, none behind a jump to `fail`.
  unfoldable pub after_copy : Ledger Ctx → Bool → Option Bytes → Bool × Ledger Ctx
  after_copy st synced none = (false, record st { mirror = none })
  after_copy st synced (some copy) =
      if not synced
      then (false, record st { mirror = none })
      else (true, record st { mirror = some copy })

  -- `path` is a C string; `opened` and `sought` are whether `open` and `lseek` succeed, `reads` and `disk` those of
  -- `copy_loop`, and `synced` whether `fsync` succeeds. `g_fd` is at the end of the file.
  unfoldable pub gwl_export_enable :
      Ledger Ctx → Option Bytes → Bool → Bool → (ℕ → ℕ) → ℕ → Bool → Bool × Ledger Ctx
  unfolding copy_loop after_copy
  gwl_export_enable st none opened sought reads disk synced = (false, st)
  gwl_export_enable st (some path) opened sought reads disk synced =
      let size = length st.file in
      let run = after_copy st synced (copy_loop reads disk st.file size size 0 []) in
      if not st.is_open || length (c_str path) == 0
      then (false, st)
      else if not opened || not sought
      then (false, record st { mirror = none })
      else run

  unfoldable pub gwl_close : Ledger Ctx → Ledger Ctx
  gwl_close st = record st { is_open = false; mirror = none }

module _ {Ctx : Type 0} (chain : Chain Ctx) where
  -- One round of the loop, and its `next`; `size` is that of the file.
  unfoldable pub replay_entry :
      (Ctx → Bytes → ℕ → Bytes → Replayed Ctx) → Bool → ℕ → Ctx → Bytes → ℕ → Reading → Replayed Ctx
  replay_entry next torn_ok size ctx last good_end Reading.eof =
      Replayed.ended ctx last good_end false
  replay_entry next torn_ok size ctx last good_end Reading.short =
      if torn_ok then Replayed.ended ctx last good_end true else Replayed.refused ctx last
  replay_entry next torn_ok size ctx last good_end Reading.bad = Replayed.refused ctx last
  replay_entry next torn_ok size ctx last good_end (Reading.frame tag payload stored rest) =
      let computed = chain.evidence (c_str tag) payload in
      if chain.evidence_fault (c_str tag) payload || not (same computed stored)
      then Replayed.refused ctx last
      else if chain.link_fault ctx computed
      then Replayed.refused (chain.link ctx computed) last
      else next (chain.link ctx computed) payload (size - length rest) rest

  -- `for (;;)`. Every round but the last takes a frame off the file, so the size of the file and one is
  -- fuel enough.
  unfoldable pub replay : ℕ → Bool → ℕ → Ctx → Bytes → ℕ → Bytes → Replayed Ctx
  replay zero torn_ok size ctx last good_end s = Replayed.refused ctx last
  replay (suc fuel) torn_ok size ctx last good_end s =
      replay_entry (replay fuel torn_ok size) torn_ok size ctx last good_end (read_frame s)

  unfoldable pub after_replay : Ledger Ctx → Replayed Ctx → Bool × Bool × Ledger Ctx
  after_replay st (Replayed.refused ctx last) =
      (false, false, record st { ctx = ctx; last_payload = last; is_open = false })
  after_replay st (Replayed.ended ctx last good_end torn) = (
    true,
    torn,
    record st {
      ctx = ctx;
      last_payload = last;
      is_open = true;
      file = if torn then take good_end st.file else st.file;
    },
  )

  -- `gwl_open`: whether it returns 0, `*truncated`, and the new state.
  unfoldable pub gwl_open : Bool → Ledger Ctx → Bool × Bool × Ledger Ctx
  gwl_open torn_tail_ok st =
      if chain.genesis_fault
      then (false, false, record st { ctx = chain.genesis })
      else after_replay st (
          replay (length st.file + 1) torn_tail_ok (length st.file) chain.genesis st.last_payload 0
            st.file)

  -- From the first write on.
  unfoldable pub write_frame :
      Ledger Ctx → Bytes → Bytes → Bytes → ℕ → Bool → ℕ → Option (Bytes × ℕ) × Ledger Ctx
  write_frame st tag payload commit disk synced mirror_disk =
      let bytes = frame_bytes tag payload commit in
      let ctx' = chain.link st.ctx commit in
      let st' : Ledger Ctx = record st {
        file = st.file ++ bytes;
        mirror = mirror_frame mirror_disk bytes st.mirror;
        ctx = ctx';
      } in
      if ltb disk (length bytes)
      then (none, record st { file = st.file ++ take disk bytes })
      else if not synced
      then (none, record st { file = st.file ++ bytes })
      else if chain.link_fault st.ctx commit
      then (none, st')
      else (
        some (chain.current_hash ctx', chain.sequence ctx'),
        record st' { last_payload = payload },
      )

  -- `gwl_append`: what it leaves in `head_out` and `seq_out`, none for -1. `disk` is the number of bytes
  -- that the file takes before a write fails, `mirror_disk` that of the mirror.
  unfoldable pub gwl_append :
      Ledger Ctx → Option Bytes → Option Bytes → ℕ → Bool → ℕ → Option (Bytes × ℕ) × Ledger Ctx
  gwl_append st none payload disk synced mirror_disk = (none, st)
  gwl_append st (some tag) none disk synced mirror_disk = (none, st)
  gwl_append st (some tag) (some payload) disk synced mirror_disk =
      let tag_len = length (c_str tag) in
      if not st.is_open
      then (none, st)
      else if tag_len == 0 || ltb tag_max tag_len
      then (none, st)
      else if length payload == 0 || ltb payload_max (length payload)
      then (none, st)
      else if chain.evidence_fault (c_str tag) payload
      then (none, st)
      else write_frame st (c_str tag) payload (chain.evidence (c_str tag) payload) disk synced
          mirror_disk
