-- ===== src/Scheduler/Circuit/Channels.antt =====
-- Which pairs an operation reaches: keys of different channels, and the count of failures that opens an entry (circuit.rs).
use galaxy_router.Base.{ℕ, ◌≡◌, refl, ◌≢◌, ◌⊎◌, inl, inr, [], ◌∷◌, arith, All, Text, text_ne}
use galaxy_router.Scheduler.Circuit.{CircuitBreaker, circuit_key, record_failure}

-- A channel id without the separator of the keys; the router's ids are UUIDs.
abbrev pub NoColon : Text → Type 0
NoColon = All (λ c. c ≢ b':')

circuit_key-injective :
    (ch other h k : Text)
    → NoColon ch
    → NoColon other
    → circuit_key ch h ≡ circuit_key other k
    → (ch ≡ other) × (h ≡ k)
circuit_key-injective [] [] h k p q e = (refl, cc)
circuit_key-injective [] (o ∷ os) h k p q e = absurd (q.0 (ground arith))
circuit_key-injective (c ∷ cs) [] h k p q e = absurd (p.0 (ground arith))
circuit_key-injective (c ∷ cs) (o ∷ os) h k p q e =
    ground (arith, circuit_key-injective cs os h k p.1 q.1)

-- For channel ids without a colon, a failure of one pair leaves the entry of every other pair as
-- it is, of the same channel or another.
pub record_failure_isolated :
    (b : CircuitBreaker) (ch hint other key : Text) (now : ℕ)
    → NoColon ch
    → NoColon other
    → (ch ≢ other) ⊎ (hint ≢ key)
    → (record_failure b ch hint now).entries (circuit_key other key)
      ≡ b.entries (circuit_key other key)
unfolding record_failure
record_failure_isolated b ch hint other key now p q differ =
    rw (text_ne (circuit_key ch hint) (circuit_key other key) apart)
  where
    apart : circuit_key ch hint ≢ circuit_key other key
    apart e =
        let same = circuit_key-injective ch other hint key p q e in
        elim differ [ inl ne ↦ ne same.0 | inr ne ↦ ne same.1 ]
