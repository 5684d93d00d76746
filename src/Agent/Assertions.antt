-- ===== src/Agent/Assertions.antt =====
-- Which assertions `verifyAgentAssertion` of agent/server/internal-assertion.ts accepts.
use mathlib.Core.Path.{subst}
use tokyo_tester.Base.{
  ℕ, ◌+◌, ◌≤◌, ◌<◌, ◌≡◌, refl, ap, ◌∙◌, Bool-cases, inl, inr, not, ◌||◌, Option, none, some, List,
  [], ◌∷◌, ◌++◌, length, ltb, ◌==◌, arith, OnSome,
}
use tokyo_tester.Names.{Text}
use tokyo_tester.Graph.Texts.{text_eq, text_eq_iff}
use tokyo_tester.Bundle.{codes}
use tokyo_tester.Agent.{Claims, Header, Calls, split_at}
use tokyo_tester.Agent.Request.{
  is_current, check_claims, parsed_header, parsed_claims, verify_signature, verify_parts,
  verify_agent_assertion,
}

-- Claims for this service that are valid at this time, and for at most two minutes.
pub record IsCurrent (now : ℕ) (claims : Claims) : Type 0 where
  pub issued : claims.iat ≤ now + 30
  pub lasts : now < claims.exp
  pub short : claims.exp ≤ claims.iat + 120
  pub audience : claims.aud ≡ codes "tokyo-ui-agent-api"

check_claims-IsCurrent :
    (now : ℕ) (h : Option Header) (c : Option Claims)
    → OnSome (λ k. (c ≡ some k) × IsCurrent now k) (check_claims now h c)
unfolding check_claims is_current
check_claims-IsCurrent now none c = tt
check_claims-IsCurrent now (some h) none = tt
check_claims-IsCurrent now (some h) (some c) = elim (Bool-cases (is_current h c now)) [
  | inl ok ↦ rw ok (
    refl,
    record {
      issued = ground arith;
      lasts = ground arith;
      short = ground arith;
      audience = ground (arith, text_eq_iff c.aud (codes "tokyo-ui-agent-api"));
    },
  )
  | inr bad ↦ rw bad tt
]

module _ (calls : Calls) (secret : Text) (now : ℕ) where
  -- The text has three parts, of which the last one decodes to the signature of the others with the
  -- secret, and the claims are those of the second one.
  pub record IsSigned (parts : List Text) (claims : Claims) : Type 0 where
    pub header : Text
    pub payload : Text
    pub signature : Text
    pub split : parts ≡ header ∷ payload ∷ signature ∷ []
    pub signed :
        calls.decode_part signature ≡ some (calls.signature secret (header ++ b'.' ∷ payload))
    pub claimed : parsed_claims calls (calls.decode_part payload) ≡ some claims
    pub current : IsCurrent now claims

  claims_of_parts :
      (header payload signature : Text) (o : Option Claims)
      → calls.decode_part signature ≡ some (calls.signature secret (header ++ b'.' ∷ payload))
      → OnSome (λ k. (parsed_claims calls (calls.decode_part payload) ≡ some k) × IsCurrent now k) o
      → OnSome (IsSigned (header ∷ payload ∷ signature ∷ [])) o
  claims_of_parts header payload signature none e k = tt
  claims_of_parts header payload signature (some c) e (f, k) = record {
    header = header;
    payload = payload;
    signature = signature;
    split = refl;
    signed = e;
    claimed = f;
    current = k;
  }

  verify_signature-IsSigned :
      (header payload signature : Text) (received : Option Text)
      → calls.decode_part signature ≡ received
      → OnSome
          (IsSigned (header ∷ payload ∷ signature ∷ []))
          (verify_signature calls secret now header payload received)
  unfolding verify_signature
  verify_signature-IsSigned header payload signature none e = tt
  verify_signature-IsSigned header payload signature (some received) e =
      let expected = calls.signature secret (header ++ b'.' ∷ payload) in
      let claims = parsed_claims calls (calls.decode_part payload) in
      let found = check_claims now (parsed_header calls (calls.decode_part header)) claims in
      elim (Bool-cases
        (not (length received == length expected) || not (text_eq received expected))) [
          | inl differs ↦ rw differs tt
          | inr same ↦ rw same (
              claims_of_parts header payload signature found
                (e ∙ ap (λ t. some t) (ground (arith, text_eq_iff received expected)))
                (check_claims-IsCurrent now (parsed_header calls (calls.decode_part header))
                  claims))
        ]

  verify_parts-IsSigned :
      (parts : List Text) → OnSome (IsSigned parts) (verify_parts calls secret now parts)
  unfolding verify_parts
  verify_parts-IsSigned [] = tt
  verify_parts-IsSigned (a ∷ []) = tt
  verify_parts-IsSigned (a ∷ b ∷ []) = tt
  verify_parts-IsSigned (a ∷ b ∷ c ∷ []) =
      verify_signature-IsSigned a b c (calls.decode_part c) refl
  verify_parts-IsSigned (a ∷ b ∷ c ∷ d ∷ ts) = tt

  with_secret :
      (parts : List Text) (o : Option Claims)
      → 32 ≤ length secret
      → OnSome (IsSigned parts) o
      → OnSome (λ c. (32 ≤ length secret) × IsSigned parts c) o
  with_secret parts none long k = tt
  with_secret parts (some c) long k = (long, k)

  verified :
      (assertion : Text)
      → OnSome
          (λ c. (32 ≤ length secret) × IsSigned (split_at b'.' assertion) c)
          (verify_agent_assertion calls assertion secret now)
  unfolding verify_agent_assertion
  verified assertion = elim (Bool-cases (ltb (length secret) 32)) [
    | inl short ↦ rw short tt
    | inr long ↦
        let enough : 32 ≤ length secret = ground arith in
        let parts = split_at b'.' assertion in
        rw long (
          with_secret parts (verify_parts calls secret now parts) enough
            (verify_parts-IsSigned parts))
  ]

  -- An assertion is accepted only with a secret of at least 32 units and with its signature by that
  -- secret, and its claims are the signed ones, are for this service, have not expired, and expire
  -- at most two minutes after they were issued, which is at most 30 seconds from now.
  pub verify_agent_assertion-IsSigned :
      (assertion : Text) (claims : Claims)
      → verify_agent_assertion calls assertion secret now ≡ some claims
      → (32 ≤ length secret) × IsSigned (split_at b'.' assertion) claims
  verify_agent_assertion-IsSigned assertion claims e =
      subst (OnSome (λ c. (32 ≤ length secret) × IsSigned (split_at b'.' assertion) c)) e
        (verified assertion)
