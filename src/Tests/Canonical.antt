-- ===== src/Tests/Canonical.antt =====
-- The canonical form of sample values (src/canonical.c, src/hash.c).
use axioma_oracle.Prelude.{
  leb, ◌==◌, ◌≡◌, refl, true, [], ◌∷◌, some, arith, Bytes, codes, length, if◌then◌else◌,
}
use axioma_oracle.Types.{Code, done, fail}
use axioma_oracle.Record.{Record}
use axioma_oracle.Canonical.{obs_canonicalise}
use axioma_oracle.Canonical.Observation.{
  IsRecord, IsDeclared, SameObservation, obs_text, obs_canonicalise_inj, obs_canonicalise_lem,
}
use axioma_oracle.Obs.{obs_init}
use axioma_oracle.Tests.Data.{sample_params, machine}
use axioma_oracle.Types.{IsParams}

abbrev digest : Bytes
digest = 0xDE ∷ 0xAD ∷ []

sample_params-IsParams : IsParams sample_params
sample_params-IsParams = omega arith

abbrev described : Record
described = record obs_init {
  model_id = some (codes "m\n");
  oracle_id = some (codes "o");
  params = sample_params;
}

described-IsRecord : IsRecord described
unfolding obs_init
described-IsRecord = omega arith

described-IsDeclared : IsDeclared described
unfolding obs_init
described-IsDeclared = omega arith

obs_canonicalise_inj_example : SameObservation described described
unfolding machine
obs_canonicalise_inj_example =
    obs_canonicalise_inj 1024 2048 described described described-IsRecord described-IsRecord
      described-IsDeclared described-IsDeclared refl refl

obs_canonicalise_lem_example : obs_canonicalise 1024 described true ≡ (
    if 1024 == 0
    then fail Code.overrun
    else if leb 1024 (length (obs_text described true))
    then fail Code.buffer
    else done (obs_text described true))
obs_canonicalise_lem_example = obs_canonicalise_lem 1024 described true described-IsRecord
