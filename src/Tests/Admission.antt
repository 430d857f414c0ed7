-- ===== src/Tests/Admission.antt =====
-- Admission and validation of sample inputs (src/obs.c).
use axioma_oracle.Prelude.{
  ◌≡◌, ◌≢◌, ◌⊎◌, ◌↔◌, refl, ap, subst, true, false, ◌||◌, List, [], ◌∷◌, some, arith, codes, c_str,
  ℕ,
}
use axioma_oracle.Types.{
  Code, Faults, l3_fault_init, max_model_id_bytes, max_oracle_id_bytes, schema_version_text,
}
use axioma_oracle.Record.{Record, Input, AdmissionCtx, admission_ctx_init}
use axioma_oracle.Canonical.Escape.{text_of}
use axioma_oracle.Canonical.Observation.{IsRecord, IsDeclared, SameObservation, obs_text}
use axioma_oracle.Hash.Compute.{hash_of, IsRecord-obs_hash}
use axioma_oracle.Hash.{obs_tag}
use axioma_oracle.Obs.{Admission, obs_admit, obs_validate, id_too_long, input_is_schema_valid}
use axioma_oracle.Obs.Admit.{
  IsInput, IsAdmitted, admitted, described, described-IsRecord, obs_admit_done,
}
use axioma_oracle.Obs.Refuse.{Refused, obs_admit-Refused}
use axioma_oracle.Obs.Valid.{Collision, obs_validate-obs_admit, obs_validate_binds, obs_validate_ok}
use axioma_oracle.Obs.Sequence.{accepted, keep, IsAscending, accepted-IsAscending, obs_admit_guards}
use axioma_oracle.Validate.Normalise.{unify}
use axioma_oracle.Validate.Utf8.{encode, encode_all}
use axioma_oracle.Obs.Limits.{obs_admit_buffer}
use axioma_oracle.Tests.Data.{toy, toy-IsSubstrate, sample, machine}

pub sample-IsInput : IsInput sample
unfolding machine
sample-IsInput = omega arith

abbrev run : Admission
run = obs_admit toy 64 sample admission_ctx_init l3_fault_init

sample_admitted : run.ret ≡ Code.ok
unfolding machine
sample_admitted = refl

sample_output : run.out.output ≡ some (b'a' ∷ b'\n' ∷ b'"' ∷ [])
unfolding machine
sample_output = refl

obs_admit_done_example : IsAdmitted toy sample admission_ctx_init l3_fault_init run
obs_admit_done_example =
    obs_admit_done toy toy-IsSubstrate 64 sample admission_ctx_init l3_fault_init sample-IsInput
      sample_admitted

-- The context has accepted the number 7 already.
abbrev seen : AdmissionCtx
seen = record { last_ledger_seq = 7; initialized = true }

sample_refused : (obs_admit toy 64 sample seen l3_fault_init).ret ≢ Code.ok
unfolding machine
sample_refused = λ e. cc

obs_admit-Refused_example : Refused seen (obs_admit toy 64 sample seen l3_fault_init)
obs_admit-Refused_example = obs_admit-Refused toy 64 sample seen l3_fault_init sample_refused

obs_validate-obs_admit_example : obs_validate toy run.out l3_fault_init ≡ (Code.ok, l3_fault_init)
obs_validate-obs_admit_example =
    obs_validate-obs_admit toy toy-IsSubstrate 64 sample admission_ctx_init l3_fault_init
      l3_fault_init sample-IsInput sample_admitted

abbrev sample_record : Record
sample_record = admitted toy sample

sample_record-IsRecord : IsRecord sample_record
unfolding admitted
sample_record-IsRecord =
    IsRecord-obs_hash (hash_of toy (described toy sample))
      (described-IsRecord toy toy-IsSubstrate sample sample-IsInput)

sample_record-IsDeclared : IsDeclared sample_record
unfolding machine admitted described
sample_record-IsDeclared = omega arith

sample_record_valid : (obs_validate toy sample_record l3_fault_init).0 ≡ Code.ok
unfolding machine
sample_record_valid =
    ap (λ (a : Code × Faults). a.0)
      (subst (λ o. obs_validate toy o l3_fault_init ≡ (Code.ok, l3_fault_init))
        obs_admit_done_example.out obs_validate-obs_admit_example)

obs_validate_binds_example :
    SameObservation sample_record sample_record
    ⊎ Collision toy toy-IsSubstrate sample_record sample_record
obs_validate_binds_example =
    obs_validate_binds toy toy-IsSubstrate sample_record sample_record l3_fault_init
      sample_record-IsRecord sample_record-IsRecord sample_record-IsDeclared
      sample_record-IsDeclared sample_record_valid sample_record_valid refl

obs_validate_ok_example :
    (text_of sample_record.schema_version ≡ schema_version_text)
    × (c_str sample_record.obs_hash ≡ hash_of toy sample_record)
    × (toy.commit_fault obs_tag (obs_text sample_record false) ≡ false)
    × ((obs_validate toy sample_record l3_fault_init).1 ≡ l3_fault_init)
obs_validate_ok_example =
    obs_validate_ok toy toy-IsSubstrate sample_record l3_fault_init sample_record-IsRecord
      sample_record_valid

-- The second call repeats the number of the first and is refused.
abbrev calls : List (ℕ × Input)
calls = (64, sample) ∷ (64, sample) ∷ (64, record sample { ledger_seq = 9 }) ∷ []

calls-accepted : accepted toy admission_ctx_init calls ≡ 7 ∷ 9 ∷ []
unfolding machine accepted keep
calls-accepted = refl

later-IsInput : IsInput (record sample { ledger_seq = 9 })
unfolding machine
later-IsInput = omega arith

accepted-IsAscending_example :
    IsAscending admission_ctx_init (accepted toy admission_ctx_init calls)
accepted-IsAscending_example =
    accepted-IsAscending toy toy-IsSubstrate admission_ctx_init calls
      (sample-IsInput, (sample-IsInput, (later-IsInput, tt)))

abbrev stale_call : Admission
stale_call = obs_admit toy 64 sample seen l3_fault_init

obs_admit_guards_example :
    ((stale_call.ret ≡ Code.ordering) ↔ (true ≡ true))
    × ((stale_call.ret ≡ Code.schema) ↔ (
        (true ≡ false)
        × ((id_too_long sample.model_id max_model_id_bytes
              || id_too_long sample.oracle_id max_oracle_id_bytes)
            ≡ false)
        × (input_is_schema_valid sample ≡ false)))
obs_admit_guards_example = obs_admit_guards toy 64 sample seen l3_fault_init

-- Two bytes of output, and a buffer of two.
abbrev short_input : Input
short_input = record sample { output = some (codes "ok"); output_len = 2 }

obs_admit_buffer_example :
    (obs_admit toy 2 short_input admission_ctx_init l3_fault_init).ret ≡ Code.buffer
unfolding machine unify
obs_admit_buffer_example =
    obs_admit_buffer toy 2 short_input admission_ctx_init l3_fault_init (codes "ok") (omega arith)
      refl refl refl refl (omega arith)
      (b'o' ∷ b'k' ∷ [], omega arith, unfold encode_all encode in refl) (omega arith) (omega arith)
