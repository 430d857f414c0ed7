-- ===== src/Tests/Wal.antt =====
-- The intent file on a sample intent (gateway/src/gw_wal.c).
use axioma_oracle.Prelude.{ℕ, ◌≡◌, refl, true, Option, none, arith, codes, replicate, List}
use axioma_oracle.Prelude.Int.{pos, negsuc}
use axioma_oracle.Types.{null_q16}
use axioma_oracle.Gateway.Wal.{Intent, Calls, gw_wal_write, write_buf, gw_wal_recover, recovered}
use axioma_oracle.Gateway.Wal.Recovered.{
  IsIntent, no_ends, no_ends→IsLine, gw_wal_write-gw_wal_recover,
}
use axioma_oracle.Tests.Data.{machine}

abbrev intent : Intent
intent = record {
  input_hash_hex = replicate 64 b'a';
  model_id = codes "model-1";
  max_tokens = pos 4096;
  seed = negsuc 0;
  temperature_q16 = pos 0;
  top_p_q16 = null_q16;
}

abbrev pub working : Calls
working = record { opened = true; written = 1000; synced = true; dir_synced = true }

intent-IsIntent : IsIntent intent
unfolding no_ends
intent-IsIntent = record {
  hash_line = no_ends→IsLine (replicate 64 b'a') refl;
  hash_size = refl;
  model_line = no_ends→IsLine (codes "model-1") refl;
  model_some = omega arith;
  model_size = omega arith;
  max_tokens = omega arith;
  seed = omega arith;
  temperature_q16 = omega arith;
  top_p_q16 = omega arith;
}

written : (gw_wal_write working none intent).0 ≡ true
unfolding gw_wal_write write_buf machine
written = refl

gw_wal_write-gw_wal_recover_example :
    Path (Option (List ℕ)) none none
    × (gw_wal_recover (gw_wal_write working none intent).1 ≡ recovered intent)
gw_wal_write-gw_wal_recover_example =
    gw_wal_write-gw_wal_recover working none intent intent-IsIntent written
