-- ===== src/Gateway/Ledger/Search.antt =====
-- The search in the last payload (gateway/src/gw_ledger.c).
use axioma_oracle.Prelude.{
  ◌≤◌, ◌<◌, ◌≡◌, ◌≢◌, ◌↔◌, ◌∙◌, refl, sym, ap, true, [], ◌∷◌, ◌++◌, some, arith, Bytes, length,
  length-append, take, take-exact, take-drop, drop, c_str, same, same_refl, same→eq, Bool-cases,
  inl, inr,
}
use axioma_oracle.Gateway.Ledger.{Ledger, find, gwl_last_payload_contains}

abbrev pub Occurs : Bytes → Bytes → Type 0
Occurs needle s = (xs : Bytes) × (ys : Bytes) × (s ≡ xs ++ (needle ++ ys))

find_sound : (needle s : Bytes) → find needle s ≡ true → Occurs needle s
unfolding find
find_sound needle [] h = absurd (ground arith)
find_sound needle (c ∷ s) h = elim (Bool-cases (same (take (length needle) (c ∷ s)) needle)) [
  | inl here ↦
      let e = same→eq (take (length needle) (c ∷ s)) needle here in
      (
        [],
        drop (length needle) (c ∷ s),
        sym (take-drop (length needle) (c ∷ s)) ∙ ap (λ t. t ++ drop (length needle) (c ∷ s)) e,
      )
  | inr further ↦
      let (xs, ys, e) = find_sound needle s (ground arith) in (c ∷ xs, ys, ap (λ t. c ∷ t) e)
]

find_complete :
    (needle xs ys : Bytes) → 0 < length needle → find needle (xs ++ (needle ++ ys)) ≡ true
unfolding find
find_complete [] xs ys h = absurd (omega arith)
find_complete (n ∷ needle) [] ys h =
    let e = take-exact (length (n ∷ needle)) (n ∷ needle) ys refl in
    ground (arith, length-append (n ∷ needle) ys, e, same_refl (n ∷ needle))
find_complete (n ∷ needle) (x ∷ xs) ys h = ground (
  arith,
  find_complete (n ∷ needle) xs ys h,
  length-append xs ((n ∷ needle) ++ ys),
  length-append (n ∷ needle) ys,
)

nonempty : (s : Bytes) → s ≢ [] → 0 < length s
nonempty [] h = absurd (h refl)
nonempty (c ∷ s) h = omega arith

empty : (s : Bytes) → s ≡ [] → 0 < length s → ⊥
empty s e h = omega (arith, ap (λ (t : Bytes). length t) e)

-- `gwl_last_payload_contains` returns 1 exactly when the needle is not empty and occurs in the payload
-- of the last entry.
pub gwl_last_payload_contains_iff :
    {Ctx : Type 0} (st : Ledger Ctx) (needle : Bytes)
    → (gwl_last_payload_contains st (some needle) ≡ true)
      ↔ ((c_str needle ≢ []) × Occurs (c_str needle) st.last_payload)
unfolding gwl_last_payload_contains
gwl_last_payload_contains_iff st needle = (
  λ h. (
    (λ e. empty (c_str needle) e (ground arith)),
    find_sound (c_str needle) st.last_payload (ground arith),
  ),
  λ (some_needle, (xs, ys, e)).
      let size = nonempty (c_str needle) some_needle in
      let found : find (c_str needle) st.last_payload ≡ true =
        rw e (find_complete (c_str needle) xs ys size) in
      let bound : length (c_str needle) ≤ length st.last_payload =
        rw e
          (omega (arith, length-append xs (c_str needle ++ ys), length-append (c_str needle) ys)) in
      ground (arith, found, size, bound),
)
