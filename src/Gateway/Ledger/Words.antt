-- ===== src/Gateway/Ledger/Words.antt =====
-- The words of a frame (gateway/src/gw_ledger.c): little-endian, written and read back.
use axioma_oracle.Prelude.{
  ℕ, suc, ◌+◌, ◌*◌, ◌/◌, ◌%◌, ◌^◌, ◌<◌, ◌≡◌, ◌∙◌, refl, subst, arith, length, bit_or,
}
use axioma_oracle.Prelude.Shift.{shift, bit_or_low, bit_or_high}
use axioma_oracle.Gateway.Ledger.{wr_u32le, wr_loop, wr_u64le, rd_u32le, rd_u64le}

join_words :
    (a b c d : ℕ)
    → a < 256
    → b < 256
    → c < 256
    → bit_or (bit_or (bit_or a (b * 2 ^ 8)) (c * 2 ^ 16)) (d * 2 ^ 24)
      ≡ a + b * 2 ^ 8 + c * 2 ^ 16 + d * 2 ^ 24
unfolding shift
join_words a b c d ha hb hc =
    let p : bit_or a (b * 2 ^ 8) ≡ a + b * 2 ^ 8 =
      subst (λ x. bit_or a x ≡ a + x) (omega arith) (bit_or_low 8 a b (omega arith)) in
    let q : bit_or (a + b * 2 ^ 8) (c * 2 ^ 16) ≡ a + b * 2 ^ 8 + c * 2 ^ 16 =
      subst (λ x. bit_or (a + b * 2 ^ 8) x ≡ a + b * 2 ^ 8 + x) (omega arith)
        (bit_or_low 16 (a + b * 2 ^ 8) c (omega arith)) in
    let low = a + b * 2 ^ 8 + c * 2 ^ 16 in
    rw (p, q)
      (subst (λ x. bit_or low x ≡ low + x) (omega arith) (bit_or_low 24 low d (omega arith)))

rd_step : (v b : ℕ) → b < 256 → v < 2 ^ 56 → bit_or (v * 2 ^ 8 % 2 ^ 64) b ≡ v * 2 ^ 8 + b
unfolding shift
rd_step v b h k =
    let e : v * 2 ^ 8 % 2 ^ 64 ≡ shift 8 v = omega arith in
    rw e (bit_or_high 8 v b (omega arith) ∙ omega arith)

-- A length in four bytes reads back as itself.
pub rd_u32le-wr_u32le : (v : ℕ) → v < 2 ^ 32 → rd_u32le (wr_u32le v) ≡ v
unfolding rd_u32le wr_u32le
rd_u32le-wr_u32le v h =
    join_words (v % 256) (v / 2 ^ 8 % 256) (v / 2 ^ 16 % 256) (v / 2 ^ 24 % 256) (omega arith)
      (omega arith) (omega arith)
    ∙ omega arith

round :
    (k v : ℕ)
    → v < 2 ^ 64
    → rd_u64le (wr_loop k (v / 256)) ≡ v / 256
    → rd_u64le (wr_loop (suc k) v) ≡ v
unfolding rd_u64le wr_loop
round k v h e = rw e (rd_step (v / 256) (v % 256) (omega arith) (omega arith) ∙ omega arith)

-- A length in eight bytes reads back as itself.
pub rd_u64le-wr_u64le : (v : ℕ) → v < 2 ^ 64 → rd_u64le (wr_u64le v) ≡ v
unfolding rd_u64le wr_u64le wr_loop
rd_u64le-wr_u64le v h =
    let v2 = v / 256 / 256 in
    let v5 = v2 / 256 / 256 / 256 in
    round 7 v h (
      round 6 (v / 256) (omega arith) (
        round 5 v2 (omega arith) (
          round 4 (v2 / 256) (omega arith) (
            round 3 (v2 / 256 / 256) (omega arith) (
              round 2 v5 (omega arith) (
                round 1 (v5 / 256) (omega arith)
                  (round 0 (v5 / 256 / 256) (omega arith) (omega arith))))))))

pub length-wr_u64le : (v : ℕ) → length (wr_u64le v) ≡ 8
unfolding wr_u64le wr_loop
length-wr_u64le v = refl
